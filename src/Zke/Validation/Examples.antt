-- ===== src/Zke/Validation/Examples.antt =====
-- The validation of the sample clusters.
use gao_cloud.Prelude.{◌≡◌, refl, true, false, some, String, ◌==◌, any, map}
use mathlib.Core.List.{Memᴰ}
use gao_cloud.Zke.Validation.{Node, has_role}
use gao_cloud.Zke.Validation.Updates.{validate_config_for_update-nodes}
use gao_cloud.Zke.Validation.Samples.{moved-Passes, parsers, worker, small, moved, no_storage}

validate_config_for_update-nodes_example :
    ((n : Node)
      → Memᴰ n moved.nodes
      → "10.0.0.2" ≡ n.address
      → ("n2" ≡ n.name) × ((role : String) → has_role role n ≡ has_role role worker))
    × (true ≡ true
        → any (λ name. name == "n2") (map (λ n. n.name) moved.nodes) ≡ false
        → no_storage "n2" ≡ some false)
validate_config_for_update-nodes_example =
    validate_config_for_update-nodes parsers no_storage true small moved worker moved-Passes
      (Memᴰ.tail (Memᴰ.head refl))
