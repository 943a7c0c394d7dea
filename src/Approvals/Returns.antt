-- ===== src/Approvals/Returns.antt =====
-- When a review is accepted: the guards are the only reasons for a refusal.
use tms_api.Runtime.{Runtime}
use tms_api.Database.{Database}
use tms_api.Database.Action.{Action}
use tms_api.Database.Triple.{After}

-- The call returns: it does not throw.
abbrev pub Returns : {A : Type 0} → Action A → Database → Type 0
Returns m db = After (λ _. ⊥) (λ _ _. Unit {0}) m db
