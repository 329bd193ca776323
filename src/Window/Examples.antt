-- ===== src/Window/Examples.antt =====
-- The list of numbered items at concrete sizes.
use gao_cloud.Prelude.{ℕ, ◌≡◌, refl, some, [], ◌∷◌, arith}
use gao_cloud.Window.{Watcher, publish}
use gao_cloud.Window.Numbered.{IsWindow}
use gao_cloud.Window.Delivery.{publish-pending}

abbrev full : Watcher ℕ
full = record {
  last_id = 4;
  max_size = 3;
  entries =
      record { id = 2; content = 20 }
      ∷ record { id = 3; content = 30 }
      ∷ record { id = 4; content = 40 }
      ∷ [];
}

full-IsWindow : IsWindow 2 full
full-IsWindow = record { numbered = (refl, (refl, (refl, tt))); ends = refl; bounded = omega arith }

publish-pending_example : publish 4 2 1 full ≡ some (4, 30 ∷ 40 ∷ [])
publish-pending_example =
    publish-pending 4 0 2 2 full full-IsWindow (omega arith) (omega arith) (omega arith)
