-- ===== src/Timesheets.antt =====
-- src/services/timesheets.service.ts, in the file's three parts: the timesheets, the copy of a
-- previous week, and the entries.
pub mod Sheets
pub mod CopyWeek
pub mod Entries
pub mod Effects
pub mod Limits
pub mod Submission
pub mod Pages
pub mod Keeps
