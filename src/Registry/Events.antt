-- ===== src/Registry/Events.antt =====
-- src/protocol/generated/registry.ts, EVENT_REGISTRY: the events in the order of the source.
use axtp_ts_runtime.Common.{List, [], ◌∷◌}
use axtp_ts_runtime.Model.Rpc.{Text}
use axtp_ts_runtime.Model.Json.{units}
use axtp_ts_runtime.Registry.Entry.{RegistryEntry, entry, stable, draft}

abbrev pub event_registry : List (Text × RegistryEntry)
event_registry =
    (units "device.enrollmentStateChanged", entry 0x0102 draft 0)
    ∷ (units "firmware.updateProgressReported", entry 0x0402 draft 0)
    ∷ (units "firmware.updateStateChanged", entry 0x0403 draft 1)
    ∷ (units "stream.stateChanged", entry 0x0501 draft 0)
    ∷ (units "stream.statsReported", entry 0x0502 draft 1)
    ∷ (units "stream.flowControlChanged", entry 0x0503 draft 2)
    ∷ (units "stream.clockReport", entry 0x0504 draft 3)
    ∷ (units "video.streamStateChanged", entry 0x0806 draft 0)
    ∷ (units "video.streamSourceStateChanged", entry 0x0807 draft 1)
    ∷ (units "video.streamStatsReported", entry 0x0808 draft 2)
    ∷ (units "audio.algorithmConfigChanged", entry 0x0901 stable 0)
    ∷ (units "audio.streamStateChanged", entry 0x0902 draft 1)
    ∷ (units "audio.streamSourceStateChanged", entry 0x0903 draft 2)
    ∷ (units "audio.streamStatsReported", entry 0x0904 draft 3)
    ∷ (units "signage.playlistConfigChanged", entry 0x0D01 draft 0)
    ∷ (units "network.interfaceStateChanged", entry 0x0E01 draft 0)
    ∷ (units "network.ipConfigChanged", entry 0x0E02 draft 1)
    ∷ (units "network.wifiConfigChanged", entry 0x0E03 draft 2)
    ∷ (units "network.wifiStateChanged", entry 0x0E04 draft 3)
    ∷ (units "network.wifiScanResultReported", entry 0x0E05 draft 4)
    ∷ (units "network.apConfigChanged", entry 0x0E06 draft 5)
    ∷ (units "network.apStateChanged", entry 0x0E07 draft 6)
    ∷ (units "network.apClientChanged", entry 0x0E08 draft 7)
    ∷ (units "cast.sessionIncoming", entry 0x1601 draft 0)
    ∷ (units "cast.sessionStateChanged", entry 0x1602 draft 1)
    ∷ (units "cast.sessionStarted", entry 0x1603 draft 2)
    ∷ (units "cast.sessionStopped", entry 0x1604 draft 3)
    ∷ (units "cast.sessionFailed", entry 0x1605 draft 4)
    ∷ (units "cast.audioChanged", entry 0x1606 draft 5)
    ∷ (units "cast.pinCodeChanged", entry 0x1607 draft 6)
    ∷ (units "cast.pinCodeRequired", entry 0x1608 draft 7)
    ∷ (units "cast.pinCodeAuthFailed", entry 0x1609 draft 8)
    ∷ (units "cast.windowChanged", entry 0x160A draft 9)
    ∷ (units "cast.backendChanged", entry 0x160B draft 10)
    ∷ (units "cast.flowControlChanged", entry 0x160C draft 11)
    ∷ (units "cast.receiversChanged", entry 0x160D draft 12)
    ∷ (units "cast.sessionsChanged", entry 0x160E draft 13)
    ∷ (units "cast.presentationChanged", entry 0x160F draft 14)
    ∷ (units "cast.audioPolicyChanged", entry 0x1610 draft 15)
    ∷ (units "cast.controlOperationChanged", entry 0x1611 draft 16)
    ∷ (units "cast.presentationSettingsChanged", entry 0x1612 draft 17)
    ∷ (units "cast.webcastBackendChanged", entry 0x1613 draft 18)
    ∷ (units "cast.airplayChanged", entry 0x1614 draft 19)
    ∷ (units "software.configChanged", entry 0x1701 draft 0)
    ∷ (units "software.updatePolicyChanged", entry 0x1702 draft 1)
    ∷ (units "sport.eventDetectionStateChanged", entry 0x1801 draft 0)
    ∷ (units "sport.eventDetected", entry 0x1802 draft 1)
    ∷ []
