-- ===== src/Examples.antt =====
-- The models at work on concrete data, and the theorems applied to it.
mod Orders
mod Checksum
mod Cursors
mod Trees
mod Nodes
mod Disks
mod Merging
mod Logs
