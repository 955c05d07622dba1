-- ===== src/Examples.antt =====
-- Concrete inputs: tests of the definitions, and the theorems applied to them.
mod Watcher
mod Memo
mod Amount
mod Compact
mod Custodian
mod CustodyNet
mod Notes
mod Shielded
mod Feed
