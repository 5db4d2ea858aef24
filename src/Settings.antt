-- ===== src/Settings.antt =====
-- bzccsettings.c: the settings and the nicknames that are kept in the registry.
pub mod Registry
pub mod Store
pub mod Runs
pub mod Balance
pub mod Loads
pub mod Saves
pub mod RoundTrip
