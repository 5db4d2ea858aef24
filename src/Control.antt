-- ===== src/Control.antt =====
-- bzccscanner.c: the window procedures, and the scan, the timer and the dialogs that they control.
pub mod Window
pub mod Scan
pub mod Rename
pub mod Prefs
pub mod Texts
pub mod Main
pub mod Thread
pub mod Startup
pub mod Steady
pub mod Onward
pub mod Steps
pub mod Reach
pub mod Rounds
pub mod Period
pub mod Compare
pub mod Order
pub mod Fits
pub mod Restore
pub mod Balloons
pub mod Whole
pub mod Layout
