-- ===== src/Tests.antt =====
-- The theorems at concrete inputs, and runs of the definitions.
mod Sync
mod Queue
mod Orders
mod Rounds
mod Pages
mod Printing
mod Shelf
