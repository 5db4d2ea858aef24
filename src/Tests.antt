-- ===== src/Tests.antt =====
-- The theorems at concrete inputs.
mod Reader
mod Checksums
mod Nicknames
mod Games
mod Registry
mod Controls
mod Shown
mod Threads
