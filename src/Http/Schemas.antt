-- ===== src/Http/Schemas.antt =====
-- src/types/schemas.ts: which request bodies are accepted. Values are of the types that JSON and
-- the schema's shape give them; hours are minutes, so a number is at least 0 already.
use Prim.Native.Char.{code}
use text.Mathlib.Text.{◌==◌ as str_eq}
use tms_api.Prelude.{
  ℕ, ◌+◌, String, Bool, true, false, ◌&&◌, ◌||◌, Option, none, some, List, [], ◌∷◌, all, any, ltb,
  leb, ◌==◌, if◌then◌else◌,
}
use tms_api.Database.{days}
use tms_api.Timesheets.Entries.{DayDto, CreateEntryDto, UpdateEntryDto}
use tms_api.Users.{CreateUserDto, UpdateUserDto}
use tms_api.Projects.{CreateProjectDto, UpdateProjectDto}
use tms_api.Organisation.{UpdateSettingsDto, CreateHolidayDto}
use tms_api.Auth.{RegisterDto, LoginDto}

-- `.optional()`
abbrev pub optional : {A : Type 0} → (A → Bool) → Option A → Bool
optional test none = true
optional test (some a) = test a

-- One piece of a pattern: `\d`, or the character with the given code.
pub data Piece : Type 0 where
  digit : Piece
  char : ℕ → Piece

abbrev pub fits : Piece → ℕ → Bool
fits digit c = leb 48 c && leb c 57
fits (char k) c = c == k

-- A regular expression from `^` to `$`.
abbrev pub matches : List Piece → String → Bool
matches [] String.[] = true
matches [] (String.◌∷◌ ch text) = false
matches (p ∷ ps) String.[] = false
matches (p ∷ ps) (String.◌∷◌ ch text) = fits p (code ch) && matches ps text

abbrev pub is_iso_date : String → Bool
is_iso_date =
    matches (digit ∷ digit ∷ digit ∷ digit ∷ char 45 ∷ digit ∷ digit ∷ char 45 ∷ digit ∷ digit ∷ [])

abbrev pub is_hh_mm : String → Bool
is_hh_mm = matches (digit ∷ digit ∷ char 58 ∷ digit ∷ digit ∷ [])

-- `text.length`, which counts UTF-16 units.
abbrev pub text_length : String → ℕ
text_length String.[] = 0
text_length (String.◌∷◌ ch text) = (if ltb 0xffff (code ch) then 2 else 1) + text_length text

-- `z.string().min(n)`
abbrev pub min_length : ℕ → String → Bool
min_length n text = leb n (text_length text)

abbrev pub is_one_of : List String → String → Bool
is_one_of texts text = any (str_eq text) texts

-- `z.number().int().positive()`
abbrev pub is_positive : ℕ → Bool
is_positive n = ltb 0 n

abbrev pub hour_value : ℕ → Bool
hour_value n = leb n 1440

abbrev pub time_off_value : ℕ → Bool
time_off_value n = leb n 480

-- The three fields of a day.
abbrev pub day_schema : DayDto → Bool
day_schema d = optional hour_value d.hours && optional time_off_value d.time_off

abbrev pub create_timesheet_schema : String → Bool
create_timesheet_schema week_start_date = is_iso_date week_start_date

abbrev pub update_timesheet_schema : Option String → Bool
update_timesheet_schema week_start_date = optional is_iso_date week_start_date

abbrev pub create_time_entry_schema : CreateEntryDto → Bool
create_time_entry_schema dto = is_positive dto.project_id && all day_schema (days dto.week)

abbrev pub update_time_entry_schema : UpdateEntryDto → Bool
update_time_entry_schema dto = optional is_positive dto.project_id && all day_schema (days dto.week)

abbrev pub reject_timesheet_schema : String → Bool
reject_timesheet_schema reason = min_length 1 reason

abbrev pub status_schema : Option String → Bool
status_schema status = optional (is_one_of ("active" ∷ "inactive" ∷ [])) status

abbrev pub ids_schema : Option (List ℕ) → Bool
ids_schema ids = optional (all is_positive) ids

abbrev pub create_project_schema : CreateProjectDto → Bool
create_project_schema dto =
    min_length 1 dto.code
    && min_length 1 dto.name
    && min_length 1 dto.client
    && status_schema dto.status
    && ids_schema dto.manager_ids
    && ids_schema dto.employee_ids

abbrev pub update_project_schema : UpdateProjectDto → Bool
update_project_schema dto =
    optional (min_length 1) dto.code
    && optional (min_length 1) dto.name
    && optional (min_length 1) dto.client
    && status_schema dto.status
    && ids_schema dto.manager_ids
    && ids_schema dto.employee_ids

abbrev pub update_user_schema : UpdateUserDto → Bool
update_user_schema dto =
    optional (min_length 1) dto.name
    && status_schema dto.status
    && ids_schema dto.manager_ids
    && ids_schema dto.project_ids

abbrev pub create_holiday_schema : CreateHolidayDto → Bool
create_holiday_schema dto = min_length 1 dto.name && is_iso_date dto.date

abbrev pub update_settings_schema : UpdateSettingsDto → Bool
update_settings_schema dto =
    optional (is_one_of ("monday" ∷ "sunday" ∷ [])) dto.work_week_start
    && optional (λ n. leb n 1440) dto.standard_hours
    && optional (is_one_of ("decimal" ∷ "hhmm" ∷ [])) dto.time_format
    && optional (λ n. n == 15 || n == 30 || n == 60) dto.time_increment
    && optional (λ n. leb n 1440) dto.max_hours_per_day
    && optional (λ n. leb n 10080) dto.max_hours_per_week
    && optional is_hh_mm dto.daily_reminder_time
    && optional
        (is_one_of
          ("monday" ∷ "tuesday" ∷ "wednesday" ∷ "thursday" ∷ "friday" ∷ "saturday" ∷ "sunday" ∷ []))
        dto.weekly_deadline

abbrev pub set_user_managers_schema : List ℕ → Bool
set_user_managers_schema manager_ids = all is_positive manager_ids

-- `is_email` is zod's own `.email()`.
module _ (is_email : String → Bool) where
  abbrev pub register_schema : RegisterDto → Bool
  register_schema dto =
      min_length 1 dto.organisation_name
      && min_length 1 dto.name
      && is_email dto.email
      && min_length 8 dto.password

  abbrev pub login_schema : LoginDto → Bool
  login_schema dto = is_email dto.email && min_length 1 dto.password

  abbrev pub create_user_schema : CreateUserDto → Bool
  create_user_schema dto =
      min_length 1 dto.name
      && is_email dto.email
      && min_length 8 dto.password
      && ids_schema dto.manager_ids
      && ids_schema dto.project_ids
