-- ===== src/Database/Models.antt =====
-- The database as one record, and each model of the client (`prisma.timesheet`, …) as the place
-- where its table stands.
use tms_api.Prisma.{Table}
use tms_api.Database.Rows.{
  Organisation, OrgSettings, User, ManagerEmployee, Project, ProjectManager, ProjectEmployee,
  Timesheet, TimeEntry, Holiday, Notification,
}

pub record Database : Type 0 where
  pub organisations : Table Organisation
  pub org_settings : Table OrgSettings
  pub users : Table User
  pub manager_employees : Table ManagerEmployee
  pub projects : Table Project
  pub project_managers : Table ProjectManager
  pub project_employees : Table ProjectEmployee
  pub timesheets : Table Timesheet
  pub time_entries : Table TimeEntry
  pub holidays : Table Holiday
  pub notifications : Table Notification

pub record Model (Row : Type 0) : Type 0 where
  pub get : Database → Table Row
  pub put : Table Row → Database → Database

abbrev pub organisation : Model Organisation
organisation = record {
  get = λ db. db.organisations;
  put = λ t db. record db { organisations = t };
}

abbrev pub org_setting : Model OrgSettings
org_setting = record { get = λ db. db.org_settings; put = λ t db. record db { org_settings = t } }

abbrev pub user : Model User
user = record { get = λ db. db.users; put = λ t db. record db { users = t } }

abbrev pub manager_employee : Model ManagerEmployee
manager_employee = record {
  get = λ db. db.manager_employees;
  put = λ t db. record db { manager_employees = t };
}

abbrev pub project : Model Project
project = record { get = λ db. db.projects; put = λ t db. record db { projects = t } }

abbrev pub project_manager : Model ProjectManager
project_manager = record {
  get = λ db. db.project_managers;
  put = λ t db. record db { project_managers = t };
}

abbrev pub project_employee : Model ProjectEmployee
project_employee = record {
  get = λ db. db.project_employees;
  put = λ t db. record db { project_employees = t };
}

abbrev pub timesheet : Model Timesheet
timesheet = record { get = λ db. db.timesheets; put = λ t db. record db { timesheets = t } }

abbrev pub time_entry : Model TimeEntry
time_entry = record { get = λ db. db.time_entries; put = λ t db. record db { time_entries = t } }

abbrev pub holiday : Model Holiday
holiday = record { get = λ db. db.holidays; put = λ t db. record db { holidays = t } }

abbrev pub notification : Model Notification
notification = record {
  get = λ db. db.notifications;
  put = λ t db. record db { notifications = t };
}
