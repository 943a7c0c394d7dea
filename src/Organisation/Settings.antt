-- ===== src/Organisation/Settings.antt =====
-- The settings of an organisation are read back as they were written.
use tms_api.Prelude.{
  ℕ, ◌≡◌, true, false, Option, none, some, or_default, List, first, ◌==◌, if◌then◌else◌, ◌⊎◌,
}
use tms_api.Prisma.{in_memory}
use tms_api.Database.{Database, OrgSettings}
use tms_api.Database.Action.{ok}
use tms_api.Database.Constraints.{organisation_exists}
use tms_api.Organisation.{
  settings_too_long, UpdateSettingsDto, default_settings, apply_settings, get_settings,
}

abbrev pub settings_of : List OrgSettings → ℕ → Option OrgSettings
settings_of rows org_id = first (λ s. s.organisation_id == org_id) rows

-- The organisation's row is `s`, the settings given over the old ones or over the defaults; it is
-- what `getSettings` returns; and the rows of the other organisations are what they were.
pub record IsSaved (org_id : ℕ) (dto : UpdateSettingsDto) (old : Database) (s : OrgSettings)
    (new : Database) : Type 0 where
  pub is_applied :
      s
      ≡ apply_settings dto (
          or_default
            (settings_of old.org_settings.rows org_id)
            (default_settings org_id old.org_settings.next_id))
  pub is_read : get_settings in_memory org_id new ≡ (ok s, new)
  pub rows :
      (k : ℕ)
      → settings_of new.org_settings.rows k
        ≡ (if k == org_id then some s else settings_of old.org_settings.rows k)

-- A text that its column does not hold, or no organisation for a first row of settings.
abbrev pub CannotSave : ℕ → UpdateSettingsDto → Database → Type 0
CannotSave org_id dto db =
    (settings_too_long dto ≡ true)
    ⊎ ((settings_of db.org_settings.rows org_id ≡ none)
        × (organisation_exists in_memory db org_id ≡ false))
