-- ===== src/Client/Final/Runs.antt =====
-- A closed client stays closed, over any run.
use axtp_ts_runtime.Model.ErrorCode
use axtp_ts_runtime.Client.State.{Client}
