-- ===== src/Timesheets/Pages.antt =====
-- `listTimesheets` of src/services/timesheets.service.ts, and the handler `list` of
-- src/controllers/timesheets.controller.ts.
use tms_api.Prelude.{ℕ, ◌*◌, ◌≤◌, ◌≡◌, ◌&&◌, Option, none, some, suc, List, keep, length, ◌==◌}
use tms_api.Prisma.{Client, IsLawful, in_memory, in_memory-eq}
use tms_api.Database.{Database, Timesheet, timesheet}
use tms_api.Database.Action.{Action}
use tms_api.Database.Triple.{After}
use tms_api.Pages.{
  ℤ, pos, Page, page_of, limit_of, find_page, read_pages, find_page-IsPageOf, IsPaged-read_pages,
}

module _ (c : Client) where
  unfoldable pub list_timesheets :
      (List Timesheet → List Timesheet) → ℕ → ℕ → ℤ → ℤ → Action (Page Timesheet)
  list_timesheets sort user_id org_id page limit =
      find_page c timesheet sort (λ t. t.user_id == user_id && t.organisation_id == org_id) page
        limit

  -- `list` of src/controllers/timesheets.controller.ts, after the sign-in.
  unfoldable pub list_handler :
      (List Timesheet → List Timesheet) → ℕ → ℕ → Option ℤ → Option ℤ → Action (Page Timesheet)
  list_handler sort user_id org_id page limit =
      list_timesheets sort user_id org_id (page_of page) (limit_of limit)

-- The user's timesheets in the organisation.
abbrev pub own_timesheets : ℕ → ℕ → Database → List Timesheet
own_timesheets user_id org_id db =
    keep (λ t. t.user_id == user_id && t.organisation_id == org_id) db.timesheets.rows

-- Where the query's limit makes a page of `m` rows, so not where it is negative, and the database
-- has the user's timesheets in the organisation in one order for all the pages' queries: if the
-- first `n` pages have room for all of these, reading them one after the other never throws, writes
-- nothing, and gives exactly these timesheets, in that order.
pub list_handler-pages :
    (c : Client)
    → IsLawful c
    → (orders : Option ℤ → List Timesheet → List Timesheet) (user_id org_id : ℕ) (asked : Option ℤ)
      (m n : ℕ) (db : Database)
    → limit_of asked ≡ pos m
    → ((page : Option ℤ)
        → orders page (own_timesheets user_id org_id db)
          ≡ orders none (own_timesheets user_id org_id db))
    → length (orders none (own_timesheets user_id org_id db)) ≤ n * m
    → After
        (λ _. ⊥)
        (λ all new. (new ≡ db) × (all ≡ orders none (own_timesheets user_id org_id db)))
        (read_pages
          (λ page limit. list_handler c (orders page) user_id org_id page limit)
          asked
          0
          n)
        db
unfolding list_handler list_timesheets
list_handler-pages c lawful orders user_id org_id asked m n db is_m alike h =
    rw (in_memory-eq lawful) (
      IsPaged-read_pages
        (λ page limit. list_handler in_memory (orders page) user_id org_id page limit)
        (orders none (own_timesheets user_id org_id db)) (length (own_timesheets user_id org_id db))
        db asked m is_m
        (λ k. rw (← alike (some (pos (suc k)))) (find_page-IsPageOf timesheet _ _ _ _)) n h)
