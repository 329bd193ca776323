-- ===== src/Zke/Store/Laws.antt =====
-- What the functions over the table leave in it.
use gao_cloud.Prelude.{
  ◌≡◌, ◌∙◌, refl, eq_refl, true, false, none, some, String, ◌==◌, if◌then◌else◌, arith, ok, or_old,
  lookup, lookup-insert, lookup-remove, insert, remove,
}
pub use gao_cloud.Kvzoo.{fine}
use gao_cloud.Kvzoo.{Faults}
use gao_cloud.Zke.Store.{ClusterState, Table, save, drop}

module _ {Config FullState : Type 0} where
  pub save-lookup :
      (f : Faults) (id other : String) (s : ClusterState Config FullState)
      (t : Table Config FullState) {t' : Table Config FullState}
      → save f id s t ≡ ok t'
      → lookup other t' ≡ (if id == other then some s else lookup other t)
  unfolding save
  save-lookup f id other s t h = ground (arith, lookup-insert id other s t)

  pub drop-lookup :
      (f : Faults) (id other : String) (t : Table Config FullState) {t' : Table Config FullState}
      → drop f id t ≡ ok t'
      → lookup other t' ≡ (if id == other then none else lookup other t)
  unfolding drop
  drop-lookup f id other t h = ground (arith, lookup-remove id other t)

  -- A transaction in which nothing goes wrong is committed.
  pub save-fine :
      (f : Faults) (id : String) (s : ClusterState Config FullState) (t : Table Config FullState)
      → fine f ≡ true
      → save f id s t ≡ ok (insert id s t)
  unfolding save
  save-fine f id s t h = ground arith

  pub drop-fine :
      (f : Faults) (id : String) (t : Table Config FullState)
      → fine f ≡ true
      → drop f id t ≡ ok (remove id t)
  unfolding drop
  drop-fine f id t h = ground arith

  -- A logged write that nothing disturbs is there; whatever happens, no other key changes.
  pub saved-lookup :
      (f : Faults) (id : String) (s : ClusterState Config FullState) (t : Table Config FullState)
      → fine f ≡ true
      → lookup id (or_old (save f id s t) t) ≡ some s
  saved-lookup f id s t h =
      rw (save-fine f id s t h) (lookup-insert id id s t ∙ rw (eq_refl id) refl)

  pub saved-lookup_other :
      (f : Faults) (id other : String) (s : ClusterState Config FullState)
      (t : Table Config FullState)
      → (id == other) ≡ false
      → lookup other (or_old (save f id s t) t) ≡ lookup other t
  unfolding save
  saved-lookup_other f id other s t h = ground (arith, lookup-insert id other s t)
