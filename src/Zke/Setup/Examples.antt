-- ===== src/Zke/Setup/Examples.antt =====
-- A manager without clusters, which sets the sample cluster up and updates it.
use gao_cloud.Prelude.{String, some, List, [], ◌∷◌, true}
use gao_cloud.Samples.{all_fine}
use gao_cloud.Zke.Fsm.{FsmLib}
use gao_cloud.Zke.Store.{Zke}
use gao_cloud.Zke.Validation.{ConfigError}
use gao_cloud.Zke.Validation.Samples.{parsers, small, moved, no_storage}
use gao_cloud.Zke.Config.{ZkeConfig}
use gao_cloud.Zke.Setup.{Setup, creates, updates, set_up_all}
use gao_cloud.Zke.Setup.Accepted.{AllSetUp, set_up_all-AllSetUp}

-- A library whose machine stays where it is.
abbrev still : FsmLib
still = record { fire = λ t s e. some s; can = λ t s e. true }

abbrev text : ConfigError → String
text e = "invalid"

abbrev requests : List (Setup parsers no_storage text (Unit {0}))
requests = creates all_fine 1 "v1" tt small ∷ updates true all_fine moved ∷ []

abbrev empty : Zke ZkeConfig (Unit {0})
empty = record { clusters = []; db = []; logs = record { watchers = [] }; published = [] }

set_up_all-AllSetUp_example :
    AllSetUp parsers (set_up_all parsers no_storage text still requests empty).clusters
set_up_all-AllSetUp_example = set_up_all-AllSetUp parsers no_storage text still requests empty tt
