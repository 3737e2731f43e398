-- ===== src/Registry/Methods.antt =====
-- src/protocol/generated/registry.ts, METHOD_REGISTRY: the methods in the order of the source.
use axtp_ts_runtime.Common.{List, [], ◌∷◌}
use axtp_ts_runtime.Model.Rpc.{Text}
use axtp_ts_runtime.Model.Json.{units}
use axtp_ts_runtime.Registry.Entry.{RegistryEntry, entry, stable, draft}

abbrev pub method_registry : List (Text × RegistryEntry)
method_registry =
    (units "device.getInfo", entry 0x0101 draft 0)
    ∷ (units "device.getPairingCode", entry 0x0102 draft 1)
    ∷ (units "device.getEnrollmentState", entry 0x0103 draft 2)
    ∷ (units "device.setEnrollmentState", entry 0x0104 draft 3)
    ∷ (units "firmware.getUpdateCapabilities", entry 0x0401 draft 0)
    ∷ (units "firmware.beginUpdate", entry 0x0402 draft 1)
    ∷ (units "firmware.getUpdateState", entry 0x0408 draft 3)
    ∷ (units "firmware.finishUpdate", entry 0x040B draft 2)
    ∷ (units "stream.getCapabilities", entry 0x0501 draft 0)
    ∷ (units "stream.getState", entry 0x0502 draft 1)
    ∷ (units "stream.getStats", entry 0x0503 draft 2)
    ∷ (units "stream.ack", entry 0x0504 draft 3)
    ∷ (units "stream.windowUpdate", entry 0x0505 draft 4)
    ∷ (units "stream.pause", entry 0x0506 draft 5)
    ∷ (units "stream.resume", entry 0x0507 draft 6)
    ∷ (units "stream.abort", entry 0x0508 draft 7)
    ∷ (units "video.openStream", entry 0x080B draft 1)
    ∷ (units "video.closeStream", entry 0x080C draft 2)
    ∷ (units "video.getStreamState", entry 0x080D draft 3)
    ∷ (units "video.getStreamCapabilities", entry 0x0812 draft 0)
    ∷ (units "video.getStreamSourceState", entry 0x0813 draft 4)
    ∷ (units "video.requestKeyFrame", entry 0x0814 draft 5)
    ∷ (units "audio.getAlgorithmConfig", entry 0x0901 stable 1)
    ∷ (units "audio.setAlgorithmConfig", entry 0x0902 stable 2)
    ∷ (units "audio.getAlgorithmCapabilities", entry 0x090D stable 0)
    ∷ (units "audio.resetAlgorithmConfig", entry 0x090E stable 3)
    ∷ (units "audio.getStreamCapabilities", entry 0x090F draft 4)
    ∷ (units "audio.openStream", entry 0x0910 draft 5)
    ∷ (units "audio.closeStream", entry 0x0911 draft 6)
    ∷ (units "audio.getStreamState", entry 0x0912 draft 7)
    ∷ (units "audio.getStreamSourceState", entry 0x0913 draft 8)
    ∷ (units "signage.getPlaylistCapabilities", entry 0x0D01 draft 0)
    ∷ (units "signage.getPlaylistConfig", entry 0x0D02 draft 1)
    ∷ (units "signage.setPlaylistConfig", entry 0x0D03 draft 2)
    ∷ (units "signage.resetPlaylistConfig", entry 0x0D04 draft 3)
    ∷ (units "signage.getPlaylistItemUrl", entry 0x0D05 draft 4)
    ∷ (units "signage.getPlaylistItem", entry 0x0D06 draft 5)
    ∷ (units "network.getIpConfig", entry 0x0E02 draft 2)
    ∷ (units "network.setIpConfig", entry 0x0E03 draft 3)
    ∷ (units "network.getWifiConfig", entry 0x0E04 draft 5)
    ∷ (units "network.setWifiConfig", entry 0x0E05 draft 6)
    ∷ (units "network.scanWifi", entry 0x0E06 draft 7)
    ∷ (units "network.connectWifi", entry 0x0E07 draft 8)
    ∷ (units "network.disconnectWifi", entry 0x0E08 draft 9)
    ∷ (units "network.getWifiState", entry 0x0E09 draft 10)
    ∷ (units "network.getApConfig", entry 0x0E0A draft 12)
    ∷ (units "network.setApConfig", entry 0x0E0B draft 13)
    ∷ (units "network.startAp", entry 0x0E0C draft 15)
    ∷ (units "network.stopAp", entry 0x0E0D draft 16)
    ∷ (units "network.getApState", entry 0x0E0E draft 14)
    ∷ (units "network.getInterfaces", entry 0x0E10 draft 0)
    ∷ (units "network.getInterfaceInfo", entry 0x0E11 draft 1)
    ∷ (units "network.getWifiCapabilities", entry 0x0E12 draft 4)
    ∷ (units "network.getApCapabilities", entry 0x0E13 draft 11)
    ∷ (units "network.getApClients", entry 0x0E14 draft 17)
    ∷ (units "cast.getSession", entry 0x1601 draft 0)
    ∷ (units "cast.stopSession", entry 0x1602 draft 1)
    ∷ (units "cast.getAirPlayName", entry 0x1603 draft 2)
    ∷ (units "cast.setAirPlayName", entry 0x1604 draft 3)
    ∷ (units "cast.getAudio", entry 0x1605 draft 4)
    ∷ (units "cast.setAudio", entry 0x1606 draft 5)
    ∷ (units "cast.setMuted", entry 0x1607 draft 6)
    ∷ (units "cast.getPinCodeConfig", entry 0x1608 draft 7)
    ∷ (units "cast.setPinCodeConfig", entry 0x1609 draft 8)
    ∷ (units "cast.setPinCode", entry 0x160A draft 9)
    ∷ (units "cast.getWindowState", entry 0x160B draft 10)
    ∷ (units "cast.setWindowState", entry 0x160C draft 11)
    ∷ (units "cast.getBackendStatus", entry 0x160D draft 12)
    ∷ (units "cast.restartBackend", entry 0x160E draft 13)
    ∷ (units "cast.getFlowControlState", entry 0x160F draft 14)
    ∷ (units "cast.setRenderFps", entry 0x1610 draft 15)
    ∷ (units "cast.setFlowPolicy", entry 0x1611 draft 16)
    ∷ (units "cast.getStatus", entry 0x1612 draft 17)
    ∷ (units "cast.setAudioDelay", entry 0x1613 draft 18)
    ∷ (units "cast.setVideoStreamParams", entry 0x1614 draft 19)
    ∷ (units "cast.getControlCapabilities", entry 0x1615 draft 20)
    ∷ (units "cast.stopPresentation", entry 0x1616 draft 21)
    ∷ (units "cast.setSessionAudioEnabled", entry 0x1617 draft 22)
    ∷ (units "cast.getControlOperation", entry 0x1618 draft 23)
    ∷ (units "cast.setPresentationSettings", entry 0x1619 draft 24)
    ∷ (units "cast.getWebCastBackendState", entry 0x161A draft 25)
    ∷ (units "cast.setPresentationFocus", entry 0x161B draft 26)
    ∷ (units "software.getConfig", entry 0x1701 draft 0)
    ∷ (units "software.setConfig", entry 0x1702 draft 1)
    ∷ (units "software.resetConfig", entry 0x1703 draft 2)
    ∷ (units "software.getUpdatePolicy", entry 0x1704 draft 3)
    ∷ (units "software.setUpdatePolicy", entry 0x1705 draft 4)
    ∷ (units "software.resetUpdatePolicy", entry 0x1706 draft 5)
    ∷ (units "sport.getEventDetectionCapabilities", entry 0x1801 draft 0)
    ∷ (units "sport.getEventDetectionConfig", entry 0x1802 draft 1)
    ∷ (units "sport.setEventDetectionConfig", entry 0x1803 draft 2)
    ∷ (units "sport.getGoalShotWatermarkConfig", entry 0x1804 draft 3)
    ∷ (units "sport.setGoalShotWatermarkConfig", entry 0x1805 draft 4)
    ∷ (units "sport.getEventClipConfig", entry 0x1806 draft 5)
    ∷ (units "sport.setEventClipConfig", entry 0x1807 draft 6)
    ∷ []
