-- ===== src/Tests/Paging.antt =====
-- Witnesses on the lists.
use tms_api.Prelude.{keep, ◌≡◌, none, arith, refl}
use tms_api.Prisma.{in_memory, in_memory-IsLawful}
use tms_api.Database.{approved, manager}
use tms_api.Database.Triple.{After}
use tms_api.Pages.{read_pages, IsPaged}
use tms_api.Approvals.{get_approval_stats}
use tms_api.Http.Lists.{
  shown_users, shown_projects, list_users_handler, list_projects_handler, list_approvals_handler,
  is_pending, list_handlers-pages,
}
use tms_api.Http.Lists.Stats.{IsCounted, get_approval_stats-IsPaged-IsCounted}
use tms_api.Timesheets.Pages.{list_handler, own_timesheets, list_handler-pages}
use tms_api.Tests.Data.{filled, database, boss, runtime}

list_handler-pages_example :
    After
      (λ _. ⊥)
      (λ all new. (new ≡ filled approved) × (all ≡ own_timesheets 1 1 (filled approved)))
      (read_pages (λ page limit. list_handler in_memory (λ xs. xs) 1 1 page limit) none 0 1)
      (filled approved)
list_handler-pages_example =
    list_handler-pages in_memory in_memory-IsLawful (λ page xs. xs) 1 1 none 20 1 (filled approved)
      refl (λ page. refl) (omega arith)

list_handlers-pages_example :
    After
      (λ _. ⊥)
      (λ all new. (new ≡ database) × (all ≡ shown_users boss database))
      (read_pages (λ page limit. list_users_handler in_memory boss (λ xs. xs) page limit) none 0 1)
      database
    × After
        (λ _. ⊥)
        (λ all new. (new ≡ database) × (all ≡ shown_projects boss database))
        (read_pages
          (λ page limit. list_projects_handler in_memory boss (λ xs. xs) page limit)
          none
          0
          1)
        database
list_handlers-pages_example =
    list_handlers-pages in_memory in_memory-IsLawful boss (λ page xs. xs) (λ page xs. xs) none 20 1
      database refl (λ page. (refl, refl)) (omega arith) (omega arith)

get_approval_stats-IsPaged-IsCounted_example :
    After
      (λ _. ⊥)
      (λ s new.
        (new ≡ filled approved)
        × IsPaged
            (list_approvals_handler in_memory boss (λ xs. xs))
            (keep (is_pending (filled approved) 1 2 manager) (filled approved).timesheets.rows)
            s.pending_count
            (filled approved)
        × IsCounted 1 2 manager runtime (filled approved) s)
      (get_approval_stats in_memory runtime 1 2 manager)
      (filled approved)
get_approval_stats-IsPaged-IsCounted_example =
    get_approval_stats-IsPaged-IsCounted in_memory runtime in_memory-IsLawful boss (λ xs. xs)
      (filled approved)
