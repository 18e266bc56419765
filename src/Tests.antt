-- ===== src/Tests.antt =====
-- Runs of the definitions on small inputs, and the theorems applied to them.
pub mod Board
pub mod Order
pub mod Diff
pub mod Cache
pub mod Session
pub mod Pages
pub mod Refs
pub mod Flight
pub mod List
pub mod Activity
pub mod Dialogs
pub mod Folders
pub mod Editor
pub mod Workflow
pub mod Create
pub mod Detail
pub mod Links
