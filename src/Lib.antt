-- ===== src/Lib.antt =====
-- Verification of the timesheet management API: an Express server whose services keep
-- organisations' users, projects, weekly timesheets and their approval in MySQL through Prisma.
--
-- The parts, and where they are modelled:
-- - src/prisma/schema.prisma: Database/Rows (one record a model), Database/Models (the database
--   as one record of tables), Database/Constraints (unique and foreign keys, cascades, and the
--   width of the columns of texts, from src/prisma/migrations).
-- - The Prisma client is third-party code, so it is a parameter `c : Client` of every service
--   (Prisma). `IsLawful c` states the documented behaviour of the ten queries used, on any table
--   and any test; `in_memory` is an executable client that satisfies it.
-- - src/utils/dateHelpers.ts: Dates. The clock and text conversions are the parameter `Runtime`.
-- - src/types/errors.ts, src/middleware/errorHandler.ts, src/utils/constants.ts: Errors, Constants.
-- - src/services/timesheets.service.ts: Timesheets/Sheets (createTimesheet, updateTimesheet,
--   deleteTimesheet, submitTimesheet, recalculateTimesheetTotals), Timesheets/CopyWeek
--   (copyPreviousWeek), Timesheets/Entries (createEntry, updateEntry, deleteEntry, listEntries),
--   Timesheets/Pages (listTimesheets, with its handler `list`).
-- - Pages: what the lists of timesheets, users, projects and approvals share; a handler's page and
--   limit, the query for a page, and the reading of all pages. Http/Lists has the other handlers.
-- - src/services/approvals.service.ts: Approvals. src/services/team.service.ts: Team.
-- - src/services/users.service.ts: Users. src/services/projects.service.ts: Projects.
-- - src/services/settings.service.ts, holidays.service.ts, notifications.service.ts: Organisation.
-- - src/controllers/timesheets.controller.ts and approvals.controller.ts: Service, with a request
--   type, its dispatch `handle`, and `serve`, which runs a history of requests by any users.
-- - src/services/auth.service.ts: Auth, with bcryptjs and jsonwebtoken as the parameters of an
--   `AuthContext`; what bcryptjs promises is `IsBcrypt` (Auth/Tokens).
-- - src/types/schemas.ts: Http/Schemas. src/routes and the controllers of users, projects,
--   settings, holidays, notifications, team and auth: Http/Routes (a `Call` for each route that
--   changes state, its roles, its body test, its controller). src/middleware/authenticate.ts,
--   rbac.ts, validate.ts, src/utils/tryCatch.ts and src/index.ts: Http/Server, with `respond` for
--   one call and `serve_calls` for a history of them, public ones included.
-- - src/services/reports.service.ts: Reports (generateReport) and Reports/Monthly
--   (generateMonthlyTimesheetData), where JavaScript's calendar is the parameter `Calendar`.
-- - src/utils/exportHelpers.ts: Exports (generateCSV), Exports/Excel (generateExcel),
--   Exports/MonthlySheet (generateMonthlyTimesheetExcel) and Exports/Pdf (generatePDF). The last
--   three are the calls that they make of exceljs and pdfkit, in order (Exports/Worksheet);
--   Exports/Reader is an independent reader of CSV texts.
-- - src/controllers/reports.controller.ts: Http/Reports, with the files that the handlers send.
--
-- Conventions. An operation is an `Action`: from a database to a result, a value or the error
-- thrown, and the database after it. Writes that precede a throw stay written, as they do on the
-- server; `transaction` alone takes them back. Function names are the source's in snake case.
-- Hours are natural numbers of minutes, so a day's 24 hours are 1440: the source keeps decimal
-- hours as floats, whose rounding is not modelled. A `Date` is a local day number with the
-- milliseconds since midnight; day 0 is Monday, 20 December of the year -1. An Invalid Date is a
-- conversion that returns `none`; in the source it makes the next query throw. The three columns
-- of each weekday stand grouped as a `DayCell`. Strings of the schema's enums are data types.
--
-- Proof layers. Database/Triple gives a rule for every call (`After I Q m db`: a call that returns
-- ends in Q, one that throws in I); Timesheets/Effects and Approvals/Effects say what each
-- operation writes, once; Service/Invariant, Service/EntryChanges, Service/Copies and
-- Service/Evolution say what such writes keep, and Service/Totals and Service/Lifecycle conclude.
-- Database/Runs runs a call whose steps' results are known. Database/Keeps says what a call keeps
-- of the database, for any relation, with a rule for every query, and Users/Keeps for the calls that
-- write assignments. Http/Frame is such a relation: the timesheets and their entries are the same;
-- with it, Http/Outside, Http/Administration and Http/History carry the invariants over all the
-- routes, and Http/Tenants keeps organisations apart. Users/Roles is another, on the roles above
-- that of an employee, which Timesheets/Keeps, Http/Administration and Http/Privileges carry over
-- all the routes. Projects/Members views a project's managers and employees as two relations, which
-- updateProject reassigns.
-- Requests run one after the other: concurrent requests are not modelled. No loop needs fuel; all
-- recursion is over lists, texts, or the number of days in a month.
--
-- Not modelled: listHolidays, and how a query string is parsed; the
-- cookies, rate limits, logging and start of the server; what exceljs and pdfkit draw; the
-- seed data.
pub mod Prelude
pub mod Prisma
pub mod Dates
pub mod Runtime
pub mod Constants
pub mod Errors
pub mod Database
pub mod Pages
pub mod Team
pub mod Users
pub mod Auth
pub mod Http
pub mod Reports
pub mod Exports
pub mod Projects
pub mod Organisation
pub mod Timesheets
pub mod Approvals
pub mod Service
pub mod Tests
