-- ===== src/Tests/Administration.antt =====
-- Witnesses on users, projects and settings.
use tms_api.Prelude.{◌≡◌, some, none, [], ◌∷◌}
use tms_api.Prisma.{in_memory, in_memory-IsLawful}
use tms_api.Database.{manager}
use tms_api.Database.Triple.{After}
use tms_api.Users.{CreateUserDto}
use tms_api.Projects.{UpdateProjectDto, update_project}
use tms_api.Projects.Members.{members, reassign, update_project-reassign}
use tms_api.Organisation.{UpdateSettingsDto}
use tms_api.Tests.Data.{database}

abbrev pub new_user : CreateUserDto
new_user = record {
  name = "n";
  email = "e@f";
  password = "p";
  role = none;
  department = none;
  manager_ids = none;
  project_ids = some (1 ∷ []);
}

abbrev project_update : UpdateProjectDto
project_update = record {
  code = none;
  name = some "x";
  client = none;
  budget_hours = none;
  status = none;
  manager_ids = some (2 ∷ []);
  employee_ids = some [];
}

update_project-reassign_example :
    After
      (λ new. new ≡ database)
      (λ _ new. members new ≡ reassign 1 project_update (members database))
      (update_project in_memory 1 1 project_update 2 manager)
      database
update_project-reassign_example =
    update_project-reassign in_memory in_memory-IsLawful 1 1 project_update 2 manager database

abbrev settings_update : UpdateSettingsDto
settings_update = record {
  work_week_start = none;
  standard_hours = some 420;
  time_format = none;
  time_increment = none;
  max_hours_per_day = none;
  max_hours_per_week = none;
  require_approval = none;
  allow_backdated = none;
  enable_overtime = none;
  mandatory_desc = none;
  allow_copy_week = none;
  daily_reminder_time = none;
  weekly_deadline = none;
  payroll_type = none;
  pm_type = none;
}
