-- ===== src/Ui.antt =====
-- api/ui.py: the web interface.
pub mod Pages
pub mod View
pub mod Windows
pub mod Visit
pub mod Entry
pub mod Forms
pub mod Settings
pub mod Submit
pub mod Guarded
pub mod Kept
pub mod Handled
pub mod Submitted
pub mod Entered
pub mod Staffed
pub mod Constrained
pub mod Reached
