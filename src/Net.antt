-- ===== src/Net.antt =====
-- bzccnet.c: the reader of the lobby list, from a file or over HTTP.
pub mod Kvi
pub mod Parser
pub mod Json
pub mod Value
pub mod Http
pub mod Stream
pub mod Scan
pub mod Sending
pub mod Safe
pub mod Chunks
pub mod Document
pub mod Deliver
