-- ===== src/Organisation.antt =====
-- The organisation's settings and holidays, and its users' notifications: settings.service.ts,
-- holidays.service.ts and notifications.service.ts of src/services.
pub mod Notifications
pub mod Settings
use tms_api.Prelude.{
  ℕ, String, Bool, true, false, not, ◌&&◌, ◌||◌, Option, none, some, or_default, given_or, List, [],
  ◌∷◌, any, ◌==◌,
}
use tms_api.Errors.{not_found_error, unexpected}
use tms_api.Prisma.{Client}
use tms_api.Runtime.{Runtime}
use tms_api.Database.Constraints.{too_long, given_too_long, organisation_exists}
use tms_api.Database.{OrgSettings, Holiday, Notification, org_setting, holiday, notification}
use tms_api.Database.Action.{
  Action, ◌>>=◌, ◌>>◌, current, throw_if, or_throw, find_first, find_many, create, update,
  update_many, delete,
}

pub record UpdateSettingsDto : Type 0 where
  pub work_week_start : Option String
  pub standard_hours : Option ℕ
  pub time_format : Option String
  pub time_increment : Option ℕ
  pub max_hours_per_day : Option ℕ
  pub max_hours_per_week : Option ℕ
  pub require_approval : Option Bool
  pub allow_backdated : Option Bool
  pub enable_overtime : Option Bool
  pub mandatory_desc : Option Bool
  pub allow_copy_week : Option Bool
  pub daily_reminder_time : Option String
  pub weekly_deadline : Option String
  pub payroll_type : Option String
  pub pm_type : Option String

pub record CreateHolidayDto : Type 0 where
  pub name : String
  pub date : String
  pub recurring : Option Bool

-- The columns' defaults.
abbrev pub default_settings : ℕ → ℕ → OrgSettings
default_settings org_id id = record {
  id = id;
  organisation_id = org_id;
  work_week_start = "monday";
  standard_hours = 480;
  time_format = "decimal";
  time_increment = 30;
  max_hours_per_day = 1440;
  max_hours_per_week = 3600;
  require_approval = true;
  allow_backdated = true;
  enable_overtime = true;
  mandatory_desc = false;
  allow_copy_week = true;
  daily_reminder_time = none;
  weekly_deadline = none;
  payroll_type = none;
  pm_type = none;
}

abbrev pub apply_settings : UpdateSettingsDto → OrgSettings → OrgSettings
apply_settings dto s = record s {
  work_week_start = or_default dto.work_week_start s.work_week_start;
  standard_hours = or_default dto.standard_hours s.standard_hours;
  time_format = or_default dto.time_format s.time_format;
  time_increment = or_default dto.time_increment s.time_increment;
  max_hours_per_day = or_default dto.max_hours_per_day s.max_hours_per_day;
  max_hours_per_week = or_default dto.max_hours_per_week s.max_hours_per_week;
  require_approval = or_default dto.require_approval s.require_approval;
  allow_backdated = or_default dto.allow_backdated s.allow_backdated;
  enable_overtime = or_default dto.enable_overtime s.enable_overtime;
  mandatory_desc = or_default dto.mandatory_desc s.mandatory_desc;
  allow_copy_week = or_default dto.allow_copy_week s.allow_copy_week;
  daily_reminder_time = given_or dto.daily_reminder_time s.daily_reminder_time;
  weekly_deadline = given_or dto.weekly_deadline s.weekly_deadline;
  payroll_type = given_or dto.payroll_type s.payroll_type;
  pm_type = given_or dto.pm_type s.pm_type;
}

-- A text that its column does not hold.
abbrev pub settings_too_long : UpdateSettingsDto → Bool
settings_too_long dto = any given_too_long (
    dto.work_week_start ∷ dto.time_format ∷ dto.daily_reminder_time ∷ dto.weekly_deadline
    ∷ dto.payroll_type ∷ dto.pm_type ∷ [])

module _ (c : Client) where
  unfoldable pub get_settings : ℕ → Action OrgSettings
  get_settings org_id = do
    found ← find_first c org_setting (λ s. s.organisation_id == org_id)
    or_throw found (not_found_error "Organisation settings")

  -- A new row refers to its organisation.
  unfoldable pub save_settings : ℕ → UpdateSettingsDto → Option OrgSettings → Action OrgSettings
  save_settings org_id dto none = do
    db ← current
    throw_if (settings_too_long dto || not (organisation_exists c db org_id)) unexpected
    create c org_setting (λ id. apply_settings dto (default_settings org_id id))
  save_settings org_id dto (some old) = do
    throw_if (settings_too_long dto) unexpected
    update c org_setting (λ s. s.organisation_id == org_id) (apply_settings dto)

  -- An upsert on the organisation's settings.
  unfoldable pub update_settings : ℕ → UpdateSettingsDto → Action OrgSettings
  update_settings org_id dto = do
    found ← find_first c org_setting (λ s. s.organisation_id == org_id)
    save_settings org_id dto found

  unfoldable pub create_holiday : Runtime → ℕ → CreateHolidayDto → Action Holiday
  create_holiday rt org_id dto = do
    date ← or_throw (rt.parse_date dto.date) unexpected
    throw_if (too_long dto.name) unexpected
    create c holiday (λ id. record {
      id = id;
      organisation_id = org_id;
      name = dto.name;
      date = date;
      recurring = or_default dto.recurring false;
    })

  unfoldable pub delete_holiday : ℕ → ℕ → Action (Unit {0})
  delete_holiday id org_id = do
    found ← find_first c holiday (λ h. h.id == id && h.organisation_id == org_id)
    or_throw found (not_found_error "Holiday")
    delete c holiday (λ h. h.id == id)

  -- The rows of `listNotifications`, up to their order.
  unfoldable pub list_notifications : ℕ → Action (List Notification)
  list_notifications user_id = find_many c notification (λ n. n.user_id == user_id)

  unfoldable pub mark_as_read : ℕ → ℕ → Action Notification
  mark_as_read id user_id = do
    found ← find_first c notification (λ n. n.id == id && n.user_id == user_id)
    or_throw found (not_found_error "Notification")
    update c notification (λ n. n.id == id) (λ n. record n { read = true })

  unfoldable pub mark_all_as_read : ℕ → Action (Unit {0})
  mark_all_as_read user_id =
      update_many c notification (λ n. n.user_id == user_id && not n.read)
        (λ n. record n { read = true })
