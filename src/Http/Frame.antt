-- ===== src/Http/Frame.antt =====
-- Service calls that leave the tables of timesheets and time entries alone, and keep every project.
use tms_api.Prelude.{ℕ, ◌≡◌, refl, ◌∙◌, true, is_some, first, ◌==◌}
use tms_api.Prisma.{in_memory}
use tms_api.Prisma.Rows.{is_some-first-change, is_some-first-append}
use tms_api.Database.{Database, Project, project}
use tms_api.Database.Action.{create, update}
use tms_api.Database.Triple.{After-create, After-update}
use tms_api.Database.Keeps.{Keeps}

abbrev pub HasProjectId : Database → ℕ → Type 0
HasProjectId db k = is_some (first (λ (p : Project). p.id == k) db.projects.rows) ≡ true

pub record IsFrame (old new : Database) : Type 0 where
  pub sheets : new.timesheets ≡ old.timesheets
  pub entries : new.time_entries ≡ old.time_entries
  pub projects : (k : ℕ) → HasProjectId old k → HasProjectId new k

pub IsFrame-refl : (db : Database) → IsFrame db db
IsFrame-refl db = record { sheets = refl; entries = refl; projects = λ k h. h }

-- Projects may be added, and changed under their ids.
pub Keeps-create_project_row : (mk : ℕ → Project) → Keeps IsFrame (create in_memory project mk)
Keeps-create_project_row mk = record {
  keeps = λ old db h. After-create project mk (record {
    sheets = h.sheets;
    entries = h.entries;
    projects = λ k q. is_some-first-append _ db.projects.rows _ (h.projects k q);
  });
}

pub Keeps-update_project_row :
    (key : ℕ) (f : Project → Project)
    → ((p : Project) → (f p).id ≡ p.id)
    → Keeps IsFrame (update in_memory project (λ p. p.id == key) f)
Keeps-update_project_row key f same = record {
  keeps = λ old db h.
      After-update project _ f (λ _. h)
        (λ r _. record {
          sheets = h.sheets;
          entries = h.entries;
          projects = λ k q.
              is_some-first-change (λ (p : Project). p.id) f same k key db.projects.rows
              ∙ h.projects k q;
        });
}
