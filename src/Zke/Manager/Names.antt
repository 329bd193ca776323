-- ===== src/Zke/Manager/Names.antt =====
-- A name stands for one cluster: the invariant of the manager's list, and every request keeps it.
use gao_cloud.Prelude.{
  ◌≡◌, ◌⊎◌, ◌∙◌, refl, ap, Bool, false, none, some, String, ◌==◌, eq_iff, eq_refl, arith, List, [],
  ◌∷◌, ◌++◌, map, Bool-cases, inl, inr, ℕ,
}
use gao_cloud.Kvzoo.{Faults}
use gao_cloud.Zke.Fsm.{FsmLib, creating}
use gao_cloud.Zke.Store.{ClusterState, Cluster, Zke}
use gao_cloud.Zke.Cluster.{remove_first}
use gao_cloud.Zke.Manager.{
  Hooks, find, put_back, new_cluster, create, update_stored, update_cluster, delete_stored,
  delete_cluster, cancel_cluster,
}

module _ {Config : Type 0} where
  abbrev pub Unique : List (Cluster Config) → Type 0
  Unique [] = Unit
  Unique (c ∷ cs) = (find c.name cs ≡ none) × Unique cs

  pub find-remove_first_other :
      (name other : String) (cs : List (Cluster Config))
      → (name == other) ≡ false
      → find other (remove_first name cs) ≡ find other cs
  unfolding find remove_first
  find-remove_first_other name other [] h = refl
  find-remove_first_other name other (c ∷ cs) h = ground (
    arith,
    find-remove_first_other name other cs h,
    eq_iff c.name name,
    eq_iff c.name other,
    eq_iff name other,
  )

  pub find-remove_first :
      (name : String) (cs : List (Cluster Config))
      → Unique cs
      → find name (remove_first name cs) ≡ none
  unfolding find remove_first
  find-remove_first name [] h = refl
  find-remove_first name (c ∷ cs) h =
      ground (arith, find-remove_first name cs h.1, eq_iff c.name name)

  pub remove_first-Unique :
      (name : String) (cs : List (Cluster Config)) → Unique cs → Unique (remove_first name cs)
  unfolding remove_first
  remove_first-Unique name [] h = tt
  remove_first-Unique name (c ∷ cs) h = elim (Bool-cases (c.name == name)) [
    | inl hit ↦ rw hit h.1
    | inr miss ↦ rw miss (
      find-remove_first_other name c.name cs
            (ground (arith, eq_iff c.name name, eq_iff name c.name))
          ∙ h.0,
      remove_first-Unique name cs h.1,
    )
  ]

  pub find-put_back_other :
      (c : Cluster Config) (other : String) (cs : List (Cluster Config))
      → (c.name == other) ≡ false
      → find other (put_back c cs) ≡ find other cs
  unfolding find put_back
  find-put_back_other c other [] h = refl
  find-put_back_other c other (d ∷ ds) h = ground (
    arith,
    find-put_back_other c other ds h,
    eq_iff d.name c.name,
    eq_iff d.name other,
    eq_iff c.name other,
  )

  pub find-put_back :
      (c : Cluster Config) (cs : List (Cluster Config)) (old : Cluster Config)
      → find c.name cs ≡ some old
      → find c.name (put_back c cs) ≡ some c
  unfolding find put_back
  find-put_back c [] old h = cc
  find-put_back c (d ∷ ds) old h =
      ground (arith, find-put_back c ds old, eq_iff d.name c.name, eq_refl c.name)

  find-put_back-none :
      (c : Cluster Config) (name : String) (cs : List (Cluster Config))
      → find name cs ≡ none
      → find name (put_back c cs) ≡ none
  unfolding find put_back
  find-put_back-none c name [] h = refl
  find-put_back-none c name (d ∷ ds) h = ground (
    arith,
    find-put_back-none c name ds,
    eq_iff d.name c.name,
    eq_iff d.name name,
    eq_iff c.name name,
  )

  pub put_back-Unique :
      (c : Cluster Config) (cs : List (Cluster Config)) → Unique cs → Unique (put_back c cs)
  unfolding put_back
  put_back-Unique c [] h = tt
  put_back-Unique c (d ∷ ds) h = elim (Bool-cases (d.name == c.name)) [
    | inl hit ↦ rw hit (ground (arith, h.0, eq_iff d.name c.name), h.1)
    | inr miss ↦ rw miss (find-put_back-none c d.name ds h.0, put_back-Unique c ds h.1)
  ]

  find-append :
      (name : String) (cs : List (Cluster Config)) (c : Cluster Config)
      → find name cs ≡ none
      → (c.name == name) ≡ false
      → find name (cs ++ c ∷ []) ≡ none
  unfolding find
  find-append name [] c h n = rw n refl
  find-append name (d ∷ ds) c h n = ground (arith, find-append name ds c, n)

  pub append-Unique :
      (cs : List (Cluster Config)) (c : Cluster Config)
      → Unique cs
      → find c.name cs ≡ none
      → Unique (cs ++ c ∷ [])
  unfolding find
  append-Unique [] c h n = (refl, tt)
  append-Unique (d ∷ ds) c h n = elim (Bool-cases (d.name == c.name)) [
    | inl same ↦ cc (rw same at n)
    | inr other ↦ (
      find-append d.name ds c h.0 (ground (arith, eq_iff d.name c.name, eq_iff c.name d.name)),
      append-Unique ds c h.1 (rw other at n),
    )
  ]

  -- The name by which a cluster was found is its name.
  pub name-find :
      (name : String) (cs : List (Cluster Config)) (c : Cluster Config)
      → find name cs ≡ some c
      → c.name ≡ name
  unfolding find
  name-find name [] c h = cc
  name-find name (d ∷ ds) c h = ground (arith, name-find name ds c, eq_iff d.name name)

  abbrev pub names : List (Cluster Config) → List String
  names = map (λ c. c.name)

  pub names-put_back :
      (c : Cluster Config) (cs : List (Cluster Config)) → names (put_back c cs) ≡ names cs
  unfolding put_back
  names-put_back c [] = refl
  names-put_back c (d ∷ ds) = ground (arith, names-put_back c ds, eq_iff d.name c.name)

  find-names :
      (name : String) (cs ds : List (Cluster Config))
      → names cs ≡ names ds
      → find name ds ≡ none
      → find name cs ≡ none
  unfolding find
  find-names name [] ds e h = refl
  find-names name (c ∷ cs) [] e h = cc e
  find-names name (c ∷ cs) (d ∷ ds) e h = ground (arith, find-names name cs ds, e)

  -- Whether names are unique depends on the names alone.
  pub Unique-names : (cs ds : List (Cluster Config)) → names cs ≡ names ds → Unique ds → Unique cs
  Unique-names [] ds e h = tt
  Unique-names (c ∷ cs) [] e h = cc e
  Unique-names (c ∷ cs) (d ∷ ds) e h =
      let same : c.name ≡ d.name = cc in
      let rest : names cs ≡ names ds = cc in
      (find-names c.name cs ds rest (ap (λ n. find n ds) same ∙ h.0), Unique-names cs ds rest h.1)

module _ {Config FullState : Type 0} where
  -- A cancellation changes no name.
  pub names-cancel_cluster :
      (id : String) (m : Zke Config FullState)
      → names (cancel_cluster id m).1.clusters ≡ names m.clusters
  unfolding cancel_cluster
  names-cancel_cluster id m = grind (arith, names-put_back)

  names-delete_stored :
      (lib : FsmLib) (f : Faults) (now : ℕ) (id : String) (c : Cluster Config)
      (state : ClusterState Config FullState) (m : Zke Config FullState)
      → names (delete_stored lib f now id c state m).1.clusters ≡ names m.clusters
  unfolding delete_stored
  names-delete_stored lib f now id c state m = grind (arith, names-put_back)

  names-update_stored :
      {Api : Type 0} (hooks : Hooks Api Config) (lib : FsmLib) (f : Faults) (api : Api)
      (c : Cluster Config) (state : ClusterState Config FullState) (m : Zke Config FullState)
      → names (update_stored hooks lib f api c state m).1.clusters ≡ names m.clusters
  unfolding update_stored
  names-update_stored hooks lib f api c state m = grind (arith, names-put_back)

  -- A deletion changes no name: the cluster leaves the list when its goroutine ends.
  pub names-delete_cluster :
      (lib : FsmLib) (begins : Bool) (f : Faults) (now : ℕ) (id : String) (m : Zke Config FullState)
      → names (delete_cluster lib begins f now id m).1.clusters ≡ names m.clusters
  unfolding delete_cluster
  names-delete_cluster lib begins f now id m = grind (arith, names-put_back)

  -- An update changes no name.
  pub names-update_cluster :
      {Api : Type 0} (hooks : Hooks Api Config) (lib : FsmLib) (begins : Bool) (f : Faults)
      (api : Api) (m : Zke Config FullState)
      → names (update_cluster hooks lib begins f api m).1.clusters ≡ names m.clusters
  unfolding update_cluster
  names-update_cluster hooks lib begins f api m = grind (arith, names-update_stored)

  -- A creation leaves the clusters alone, or adds one at the end whose name was free.
  pub clusters-create :
      {Api : Type 0} (hooks : Hooks Api Config) (f : Faults) (now : ℕ) (version : String)
      (empty : FullState) (api : Api) (m : Zke Config FullState)
      → ((create hooks f now version empty api m).1.clusters ≡ m.clusters)
        ⊎ ((find (hooks.name_of api) m.clusters ≡ none)
            × ((create hooks f now version empty api m).1.clusters
                ≡ m.clusters
                  ++ new_cluster (hooks.name_of api) creating (hooks.gen_config api) now version
                    ∷ []))
  unfolding create
  clusters-create hooks f now version empty api m = ground arith
