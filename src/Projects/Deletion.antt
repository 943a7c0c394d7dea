-- ===== src/Projects/Deletion.antt =====
-- Deleting a project leaves no time entry without its project.
use tms_api.Prelude.{ℕ, ◌≡◌, false, not, List, [], ◌∷◌, All, keep, is_empty, arith, ◌==◌}
use tms_api.Prisma.{Client, IsLawful, in_memory-eq}
use tms_api.Prisma.Rows.{first-delete}
use tms_api.Database.{
  Database, TimeEntry, Project, project, project_manager, project_employee, time_entry,
}
use tms_api.Database.Constraints.{delete_project_row}
use tms_api.Database.Triple.{
  After-always, After-find_first, After-find_many, After-seq_then, After-found, After-throw_if,
  After-delete, After-delete_many,
}
use tms_api.Approvals.Effects.{HasProject}
use tms_api.Service.Invariant.{IsSound}
use tms_api.Projects.{delete_project}

linked-delete :
    (id : ℕ) (ps : List Project) (es : List TimeEntry)
    → not (is_empty (keep (λ e. e.project_id == id) es)) ≡ false
    → All (HasProject ps) es
    → All (HasProject (keep (λ p. not (p.id == id)) ps)) es
linked-delete id ps [] unused h = tt
linked-delete id ps (e ∷ es) unused h = (
  rw (first-delete (λ (p : Project). p.id) e.project_id id ps) (ground (arith, unused, h.0)),
  linked-delete id ps es (ground (arith, unused)) h.1,
)

-- Whether it returns or throws, deleting a project keeps the invariant of the timesheet tables;
-- every time entry's project is still there.
pub delete_project-IsSound :
    (c : Client)
    → IsLawful c
    → (id org_id : ℕ) (db : Database) → IsSound db
    → IsSound (delete_project c id org_id db).1
unfolding delete_project delete_project_row
delete_project-IsSound c lawful id org_id db h = rw (in_memory-eq lawful) (
    After-always {I = IsSound} (
      After-find_first project _ _ (
        After-seq_then _ _ (
          After-found _ _ (λ _. h)
            λ p found. After-find_many time_entry _ _ (
              After-throw_if _ _ _ (λ _. h)
                λ unused. After-seq_then _ _ (
                  After-delete project _ (λ _. h)
                    λ _ _. After-seq_then _ _ (
                      After-delete_many project_manager _ (
                        After-delete_many project_employee _ (record {
                          sheet_keys = h.sheet_keys;
                          entry_keys = h.entry_keys;
                          attached = h.attached;
                          linked =
                              linked-delete id db.projects.rows db.time_entries.rows unused
                                h.linked;
                          totals = h.totals;
                        })))))))))
