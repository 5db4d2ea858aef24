-- ===== src/HashTable.antt =====
-- bzcchtable.c: the table of nicknames, a singly linked list of entries on the process heap.
pub mod Memory
pub mod Table
pub mod Cells
pub mod Copy
pub mod Find
pub mod New
pub mod Set
pub mod Delete
pub mod Unlink
pub mod Dangling
pub mod Long
pub mod RoundTrip
pub mod Release
