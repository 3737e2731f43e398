-- ===== src/Control.antt =====
-- The control plane: the codec of CONTROL messages and the session that negotiates the link.
pub mod Codec
pub mod Session
