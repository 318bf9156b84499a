-- ===== src/Replayer.antt =====
-- socket_server/replayer.py: `PcapReplayer`. The children are about its parts.
pub mod Packet
pub mod Flow
pub mod Build
pub mod Modify
pub mod Replay
