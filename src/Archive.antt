-- ===== src/Archive.antt =====
-- services/archiveService.ts: old rows of three tables go to an archive, without the names of people.
pub mod Anonymizer
pub mod Shapes
pub mod Tables
pub mod Stores
pub mod Snapshots
pub mod Found
pub mod Kept
pub mod Retained
pub mod Drained
pub mod Emptied
mod Tests
