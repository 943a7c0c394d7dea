-- ===== src/Timesheets/Effects.antt =====
-- What each operation of the timesheet service writes, and under which conditions: a call from the
-- database `db` either throws and has written nothing, or makes the one write that is named here.
pub mod Sheets
pub mod Entries
pub mod CopyWeek
