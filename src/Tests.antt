-- ===== src/Tests.antt =====
-- One organisation with an employee (user 1), their manager (user 2) and one project, in which the
-- theorems are applied.
pub mod Data
pub mod Sessions
pub mod Calls
pub mod Paging
pub mod Exporting
pub mod Administration
pub mod Teams
pub mod Reporting
pub mod Witnesses
