-- ===== src/Vis.antt =====
-- vis/text.c, the piece table of the editor vis.
pub mod Links
pub mod Block
pub mod Text
pub mod Change
pub mod Edit
pub mod Undo
pub mod Chain
pub mod Swap
pub mod Back
pub mod Find
pub mod Frame
pub mod Store
pub mod Bytes
pub mod Agree
pub mod Relink
pub mod Recorded
pub mod Insert
pub mod Inside
pub mod Edited
pub mod Served
pub mod Inserted
pub mod Notes
pub mod Topped
pub mod Undone
pub mod Skip
pub mod Cut
pub mod Deleted
pub mod Removed
pub mod Middle
pub mod Erased
pub mod Deletion
pub mod Redone
pub mod Resized
pub mod Cached
pub mod Hits
pub mod Ready
pub mod Edits
pub mod Run
pub mod Reverts
pub mod Journal
pub mod Amended
pub mod Restored
pub mod Tracked
pub mod Steps
pub mod Session
mod Tests
