-- ===== src/Net/Document.antt =====
-- The lobby list as a document: its printed form, the calls that are to be made for it, and the
-- proof that `parse_data` makes them.
pub mod Shape
pub mod Tokens
pub mod Key
pub mod Emit
pub mod Text
pub mod Blocks
pub mod Plain
pub mod Fits
pub mod Objects
pub mod Servers
pub mod ServerList
pub mod Whole
