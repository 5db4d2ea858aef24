-- ===== src/Nicks.antt =====
-- bzccscanner.c: UpdatePlayerList, which finds the nicknames of the players in the table and in the
-- registry and fills the list of players.
pub mod Update
pub mod Lookup
pub mod Remembered
pub mod Cached
pub mod Ends
pub mod Loop
