-- ===== src/Edit.antt =====
-- crates/shell-mcp/src/tools/text.rs and edit.rs: reading texts, and changing files under preconditions.
pub mod Content
pub mod Lines
pub mod Patch
pub mod Changes
pub mod Hunks
pub mod Disk
pub mod Effects
pub mod Writes
pub mod Answers
pub mod Replace
pub mod Transaction
pub mod Committed
pub mod Whole
pub mod Rollback
