-- ===== src/Session.antt =====
-- bzccscanner.c and bzccscanner.h: the list of games that a scan collects.
pub mod Info
pub mod Keys
pub mod KeyLaws
pub mod Mods
pub mod ModLaws
pub mod State
pub mod Fields
pub mod Last
pub mod Closing
pub mod Process
pub mod Valid
pub mod Keeps
pub mod Enter
pub mod Sound
pub mod Scans
pub mod Full
