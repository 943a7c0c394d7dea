-- ===== src/Tests/Teams.antt =====
-- Witnesses on the views of a team.
use tms_api.Prelude.{◌≡◌, refl, map, includes}
use tms_api.Prisma.{in_memory, in_memory-IsLawful}
use tms_api.Database.Triple.{After}
use tms_api.Team.{get_direct_report_ids, get_manager_ids, get_team_members}
use tms_api.Team.Views.{
  AreRows, get_manager_ids-get_direct_report_ids, get_team_members-get_direct_report_ids,
}
use tms_api.Tests.Data.{database}

get_manager_ids-get_direct_report_ids_example :
    After
      (λ _. ⊥)
      (λ managers new.
        (new ≡ database)
        × After
            (λ _. ⊥)
            (λ reports later. (later ≡ database) × (includes managers 2 ≡ includes reports 1))
            (get_direct_report_ids in_memory 2 1)
            database)
      (get_manager_ids in_memory 1 1)
      database
get_manager_ids-get_direct_report_ids_example =
    get_manager_ids-get_direct_report_ids in_memory in_memory-IsLawful 2 1 1 database refl refl

get_team_members-get_direct_report_ids_example :
    After
      (λ _. ⊥)
      (λ us new.
        (new ≡ database)
        × AreRows database us
        × After
            (λ _. ⊥)
            (λ reports later. (later ≡ database) × (map (λ u. u.id) us ≡ reports))
            (get_direct_report_ids in_memory 2 1)
            database)
      (get_team_members in_memory 2 1)
      database
get_team_members-get_direct_report_ids_example =
    get_team_members-get_direct_report_ids in_memory in_memory-IsLawful 2 1 database (refl, tt)
