-- ===== src/Zke/Manager/Kept.antt =====
-- No cluster is lost by a restart: every cluster in memory has its state in the table, unless one is
-- created between the two steps in which an older one of its name ends.
use mathlib.Core.Path.{subst}
use gao_cloud.Prelude.{
  ◌≡◌, ◌∙◌, sym, ap, refl, ℕ, Bool, true, false, ◌||◌, none, String, ◌==◌, eq_iff, eq_refl, arith,
  List, [], ◌∷◌, ◌++◌, is_some, ok, or_old, lookup, lookup-insert, lookup-remove, Bool-cases, inl,
  inr, ◌⊎◌,
}
use gao_cloud.Kvzoo.{Faults}
use gao_cloud.Zke.Fsm.{FsmLib, creating}
use gao_cloud.Zke.Store.{ClusterState, Cluster, Zke, Table, save, drop}
use gao_cloud.Zke.Store.Laws.{fine, save-lookup, drop-fine}
use gao_cloud.Zke.Cluster.{
  Run, event, callback, create_finish, update_finish, remove_first, open_log, alarm_if,
  remove_deleted, drop_logged,
}
use gao_cloud.Zke.Manager.{
  Hooks, find, write, create, update_stored, update_cluster, delete_stored, delete_cluster,
  cancel_cluster, new_cluster, first_state,
}
use gao_cloud.Zke.Manager.Names.{
  Unique, names, names-put_back, names-cancel_cluster, names-delete_cluster, names-update_cluster,
  find-remove_first, find-remove_first_other,
}
use gao_cloud.Zke.Manager.Steps.{
  clusters-create_finish, clusters-update_finish, System, outstanding, take_out, Step, Reach, wrote,
  Reach-Unique, creates, updates, deletes, cancels, starts, create_ends, update_ends,
  destroy_removes, destroy_drops, checks, here, next,
}

module _ {Config : Type 0} where
  is_some-find-names :
      (name : String) (cs ds : List (Cluster Config))
      → names cs ≡ names ds
      → is_some (find name cs) ≡ is_some (find name ds)
  unfolding find
  is_some-find-names name [] [] e = refl
  is_some-find-names name [] (d ∷ ds) e = cc e
  is_some-find-names name (c ∷ cs) [] e = cc e
  is_some-find-names name (c ∷ cs) (d ∷ ds) e = ground (arith, is_some-find-names name cs ds, e)

  find-append :
      (name : String) (cs : List (Cluster Config)) (c : Cluster Config)
      → is_some (find name (cs ++ c ∷ [])) ≡ true
      → (is_some (find name cs) ≡ true) ⊎ (c.name ≡ name)
  unfolding find
  find-append name [] c h = ground (arith, eq_iff c.name name)
  find-append name (d ∷ ds) c h = ground (arith, find-append name ds c)

  is_some-find-append :
      (name : String) (cs : List (Cluster Config)) (c : Cluster Config)
      → c.name ≡ name
      → is_some (find name (cs ++ c ∷ [])) ≡ true
  unfolding find
  is_some-find-append name [] c h = ground (arith, eq_iff c.name name, h)
  is_some-find-append name (d ∷ ds) c h = ground (arith, is_some-find-append name ds c, h)

module _ {Config FullState : Type 0} where
  -- Every cluster that the manager finds has a stored state.
  abbrev pub Kept : Zke Config FullState → Type 0
  Kept m =
      (name : String) → is_some (find name m.clusters) ≡ true → is_some (lookup name m.db) ≡ true

  -- A table has every key of another.
  abbrev Grows : Table Config FullState → Table Config FullState → Type 0
  Grows t t' = (name : String) → is_some (lookup name t) ≡ true → is_some (lookup name t') ≡ true

  Kept-Grows :
      (m m' : Zke Config FullState)
      → names m'.clusters ≡ names m.clusters
      → Grows m.db m'.db
      → Kept m
      → Kept m'
  Kept-Grows m m' same more h name known =
      more name (h name (sym (is_some-find-names name m'.clusters m.clusters same) ∙ known))

  save-Grows :
      (f : Faults) (id : String) (s : ClusterState Config FullState) (t : Table Config FullState)
      {t' : Table Config FullState}
      → save f id s t ≡ ok t'
      → Grows t t'
  save-Grows f id s t e name h = ground (arith, save-lookup f id name s t e)

  or_old-save-Grows :
      (f : Faults) (id : String) (s : ClusterState Config FullState) (t : Table Config FullState)
      → Grows t (or_old (save f id s t) t)
  unfolding save
  or_old-save-Grows f id s t name h = ground (arith, lookup-insert id name s t)

  module _ (lib : FsmLib) (f : Faults) (s : ClusterState Config FullState) (c : Cluster Config)
      (m : Zke Config FullState) where
    db-create_finish : (run : Run FullState) → Grows m.db (create_finish lib f run s (c, m)).1.db
    unfolding create_finish event callback
    db-create_finish run name h = grind (arith, or_old-save-Grows)

    db-update_finish : (run : Run FullState) → Grows m.db (update_finish lib f run s (c, m)).1.db
    unfolding update_finish event callback
    db-update_finish run name h = grind (arith, or_old-save-Grows)

  db-delete_cluster :
      (lib : FsmLib) (begins : Bool) (f : Faults) (now : ℕ) (id : String) (m : Zke Config FullState)
      → Grows m.db (delete_cluster lib begins f now id m).1.db
  unfolding delete_cluster delete_stored
  db-delete_cluster lib begins f now id m name h = grind (arith, save-Grows)

  db-update_cluster :
      {Api : Type 0} (hooks : Hooks Api Config) (lib : FsmLib) (begins : Bool) (f : Faults)
      (api : Api) (m : Zke Config FullState)
      → Grows m.db (update_cluster hooks lib begins f api m).1.db
  unfolding update_cluster update_stored
  db-update_cluster hooks lib begins f api m name h = grind (arith, save-Grows)

  db-cancel_cluster : (id : String) (m : Zke Config FullState) → (cancel_cluster id m).1.db ≡ m.db
  unfolding cancel_cluster
  db-cancel_cluster id m = ground arith

  module _ {Api : Type 0} (hooks : Hooks Api Config) (f : Faults) (now : ℕ) (version : String)
      (empty : FullState) (api : Api) (m : Zke Config FullState) where
    CreatedBy : Zke Config FullState → Type 0
    CreatedBy m' =
        (m'.clusters
          ≡ m.clusters
            ++ new_cluster (hooks.name_of api) creating (hooks.gen_config api) now version ∷ [])
        × (save f (hooks.name_of api) (first_state hooks now version empty api) m.db ≡ ok m'.db)

    create-cases :
        ((create hooks f now version empty api m).1 ≡ m)
        ⊎ CreatedBy (create hooks f now version empty api m).1
    unfolding create CreatedBy
    create-cases = ground arith

    create-ok :
        {s : ClusterState Config FullState}
        → (create hooks f now version empty api m).0 ≡ ok s
        → CreatedBy (create hooks f now version empty api m).1
    unfolding create CreatedBy
    create-ok h = ground (arith, h)

    Kept-create : Kept m → Kept (create hooks f now version empty api m).1
    unfolding CreatedBy new_cluster
    Kept-create h = elim create-cases [
      | inl same ↦ subst Kept (sym same) h
      | inr (added, saved) ↦ λ name known.
          let stored = save-lookup f (hooks.name_of api) name _ m.db saved in
          elim (find-append name m.clusters _ (rw added at known)) [
            | inl old ↦ ground (arith, h name old, stored)
            | inr new ↦ ground (arith, stored, eq_iff (hooks.name_of api) name)
          ]
    ]

-- No name whose table delete is outstanding is in memory.
abbrev Apart : {Config FullState : Type 0} → System Config FullState → Type 0
Apart w =
    (name : String)
    → outstanding name w.dropping ≡ true
    → is_some (find name w.zke.clusters) ≡ false

abbrev Sound : {Config FullState : Type 0} → System Config FullState → Type 0
Sound w = Kept w.zke × Apart w

outstanding-take_out :
    (name other : String) (ns : List String)
    → outstanding other (take_out name ns) ≡ true
    → outstanding other ns ≡ true
unfolding take_out
outstanding-take_out name other [] h = cc h
outstanding-take_out name other (n ∷ ns) h = ground (arith, outstanding-take_out name other ns, h)

module _ {Config FullState : Type 0} (w : System Config FullState) where
  -- What leaves the names in memory as they are, and no key out of the table.
  same_names-Sound :
      (m' : Zke Config FullState)
      → names m'.clusters ≡ names w.zke.clusters
      → Grows w.zke.db m'.db
      → Sound w
      → Sound (record w { zke = m' })
  same_names-Sound m' same more h = (
    Kept-Grows w.zke m' same more h.0,
    λ name out. is_some-find-names name m'.clusters w.zke.clusters same ∙ h.1 name out,
  )

  wrote-Sound :
      (r : Cluster Config × Zke Config FullState)
      → names r.1.clusters ≡ names w.zke.clusters
      → Grows w.zke.db r.1.db
      → Sound w
      → Sound (record w { zke = wrote r })
  unfolding write
  wrote-Sound r same more h =
      same_names-Sound (wrote r) (names-put_back r.0 r.1.clusters ∙ same) more h

  remove_deleted-Sound :
      (message : String) (c : Cluster Config)
      → Unique w.zke.clusters
      → Sound w
      → Sound (record { zke = remove_deleted message c w.zke; dropping = c.name ∷ w.dropping })
  unfolding remove_deleted alarm_if
  remove_deleted-Sound message c unique h =
      let gone = find-remove_first c.name w.zke.clusters unique in
      let kept : (name : String)
          → (c.name == name) ≡ false
          → find name (remove_first c.name w.zke.clusters) ≡ find name w.zke.clusters =
        λ name. find-remove_first_other c.name name w.zke.clusters in
      (
        λ name known. ground (arith, gone, kept name, eq_iff c.name name, h.0 name, known),
        λ name out. ground (arith, gone, kept name, eq_iff c.name name, h.1 name, out),
      )

  drop_logged-Sound :
      (f : Faults) (name : String)
      → outstanding name w.dropping ≡ true
      → Sound w
      → Sound (record { zke = drop_logged f name w.zke; dropping = take_out name w.dropping })
  unfolding drop_logged drop
  drop_logged-Sound f name there h = (
    λ other known. ground (
      arith,
      h.1 name there,
      lookup-remove name other w.zke.db,
      eq_iff name other,
      h.0 other,
      known,
    ),
    λ other out. h.1 other (outstanding-take_out name other w.dropping out),
  )

module _ {Config FullState Api : Type 0} (hooks : Hooks Api Config) (lib : FsmLib) where
  -- A creation of a name whose table delete is outstanding.
  abbrev reuses : {a b : System Config FullState} → Step hooks lib a b → Bool
  reuses (creates f now version empty api w) = outstanding (hooks.name_of api) w.dropping
  reuses _ = false

  abbrev pub any_reuses : {a b : System Config FullState} → Reach hooks lib a b → Bool
  any_reuses here = false
  any_reuses (next r step) = any_reuses r || reuses step

  create-Sound :
      (f : Faults) (now : ℕ) (version : String) (empty : FullState) (api : Api)
      (w : System Config FullState)
      → outstanding (hooks.name_of api) w.dropping ≡ false
      → Sound w
      → Sound (record w { zke = (create hooks f now version empty api w.zke).1 })
  unfolding CreatedBy new_cluster
  create-Sound f now version empty api w fresh h = (
    Kept-create hooks f now version empty api w.zke h.0,
    elim (create-cases hooks f now version empty api w.zke) [
      | inl same ↦ λ name out. ap (λ m. is_some (find name m.clusters)) same ∙ h.1 name out
      | inr (added, saved) ↦ λ name out.
          elim (Bool-cases
            (is_some (find name (create hooks f now version empty api w.zke).1.clusters))) [
              | inr absent ↦ absent
              | inl known ↦ elim (find-append name w.zke.clusters _ (rw added at known)) [
                | inl old ↦ cc (old, h.1 name out)
                | inr new ↦ cc (new, out, fresh)
              ]
            ]
    ],
  )

  Step-Sound :
      {a b : System Config FullState} (step : Step hooks lib a b)
      → reuses step ≡ false
      → Unique a.zke.clusters
      → Sound a
      → Sound b
  Step-Sound (creates f now version empty api w) fresh u h =
      create-Sound f now version empty api w fresh h
  Step-Sound (updates begins f api w) fresh u h =
      same_names-Sound w (update_cluster hooks lib begins f api w.zke).1
        (names-update_cluster hooks lib begins f api w.zke)
        (db-update_cluster hooks lib begins f api w.zke) h
  Step-Sound (deletes begins f now id w) fresh u h =
      same_names-Sound w (delete_cluster lib begins f now id w.zke).1
        (names-delete_cluster lib begins f now id w.zke)
        (db-delete_cluster lib begins f now id w.zke) h
  Step-Sound (cancels id w) fresh u h =
      same_names-Sound w (cancel_cluster id w.zke).1 (names-cancel_cluster id w.zke)
        (subst (Grows w.zke.db) (sym (db-cancel_cluster id w.zke)) (λ n k. k)) h
  Step-Sound (starts id w) fresh u h = unfold open_log in h
  Step-Sound (create_ends f run s c w known) fresh u h =
      wrote-Sound w (create_finish lib f run s (c, w.zke))
        (ap names (clusters-create_finish hooks lib f run s c w.zke))
        (db-create_finish lib f s c w.zke run) h
  Step-Sound (update_ends f run s c w known) fresh u h =
      wrote-Sound w (update_finish lib f run s (c, w.zke))
        (ap names (clusters-update_finish hooks lib f run s c w.zke))
        (db-update_finish lib f s c w.zke run) h
  Step-Sound (destroy_removes message c dst w known fired) fresh u h =
      remove_deleted-Sound w message c u h
  Step-Sound (destroy_drops f name w there) fresh u h = drop_logged-Sound w f name there h
  Step-Sound (checks reached c c' w known to) fresh u h =
      wrote-Sound w (c', w.zke) refl (λ n k. k) h

  Reach-Sound :
      {a b : System Config FullState} (r : Reach hooks lib a b)
      → any_reuses r ≡ false
      → Unique a.zke.clusters
      → Sound a
      → Sound b
  Reach-Sound here fresh u h = h
  Reach-Sound (next r step) fresh u h =
      Step-Sound step (ground (arith, fresh)) (Reach-Unique hooks lib u r)
        (Reach-Sound r (ground (arith, fresh)) u h)

  -- From a state with no deletion under way, in which a name stands for at most one cluster and every
  -- cluster in memory has its state in the table, every state that is reached by requests, ends of
  -- goroutines and checks, whatever the database does and in any order in which no creation takes
  -- the name of a deletion that has still to write the table, has a state in the table for every
  -- cluster in memory.
  pub Reach-Kept :
      {a b : System Config FullState} (r : Reach hooks lib a b)
      → any_reuses r ≡ false
      → a.dropping ≡ []
      → Unique a.zke.clusters
      → Kept a.zke
      → Kept b.zke
  Reach-Kept {a = a} r fresh none_dropping u h =
      (Reach-Sound r fresh u (h, λ name out. cc (none_dropping, out))).0

-- A cluster whose deletion has removed it from memory is created again under its name, which is
-- answered with success, before the deletion deletes the state of that name from the table, which the
-- table carries out: the new cluster is in memory, and its state is not in the table.
pub create-dropped :
    {Config FullState Api : Type 0} (hooks : Hooks Api Config) (f g : Faults) (now : ℕ)
    (version : String) (empty : FullState) (api : Api) (message : String) (c : Cluster Config)
    (m : Zke Config FullState) {s : ClusterState Config FullState}
    → hooks.name_of api ≡ c.name
    → fine g ≡ true
    → (create hooks f now version empty api (remove_deleted message c m)).0 ≡ ok s
    → let m' =
        drop_logged g c.name
          (create hooks f now version empty api (remove_deleted message c m)).1 in
      (is_some (find c.name m'.clusters) ≡ true) × (lookup c.name m'.db ≡ none)
unfolding drop_logged CreatedBy new_cluster
create-dropped hooks f g now version empty api message c m same whole done =
    let made = create hooks f now version empty api (remove_deleted message c m) in
    let removed = remove_deleted message c m in
    let added = (create-ok hooks f now version empty api removed done).0 in
    (
      ap (λ cs. is_some (find c.name cs)) added
          ∙ is_some-find-append c.name removed.clusters _ same,
      rw (drop-fine g c.name made.1.db whole)
          (lookup-remove c.name c.name made.1.db ∙ rw (eq_refl c.name) refl),
    )
