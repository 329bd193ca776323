-- ===== src/Application/Scaled.antt =====
-- application-operator/pkg/controller/applicationcache.go: a workload that is scaled down to nothing
-- and up again.
use mathlib.Core.Path.{subst}
use gao_cloud.Prelude.{
  ℕ, ◌≡◌, ◌≤◌, ◌<◌, refl, ap, ◌∙◌, inl, inr, Bool, true, false, some, List, [], ◌∷◌, arith,
  Bool-cases, Option-cases,
}
use gao_cloud.Window.{add64}
use gao_cloud.Application.{AppResource, AppStatus}
use gao_cloud.Application.Cache.{
  is_workload, is_ready, same_resource, put_before, with_replicas, update_app_resources,
  count_updated, counted, status_updated,
}

-- The same resource with other numbers of replicas.
abbrev pub scaled : ℕ → ℕ → AppResource → AppResource
scaled replicas ready resource = record resource { replicas = replicas; ready_replicas = ready }

same-with_replicas :
    (resource other r : AppResource) (k l : ℕ)
    → same_resource (with_replicas other r) (scaled k l resource) ≡ same_resource r resource
unfolding same_resource with_replicas
same-with_replicas resource other r k l = refl

update-here :
    (resource r : AppResource) (rs : List AppResource)
    → same_resource r resource ≡ true
    → update_app_resources resource (r ∷ rs) ≡ some (is_ready r, with_replicas resource r ∷ rs)
unfolding update_app_resources
update-here resource r rs same = rw same refl

update-there :
    (resource r : AppResource) (rs more : List AppResource) (t : Bool)
    → same_resource r resource ≡ false
    → update_app_resources resource rs ≡ some (t, more)
    → update_app_resources resource (r ∷ rs) ≡ some (t, r ∷ more)
unfolding update_app_resources put_before
update-there resource r rs more t other h = rw (other, h) refl

-- An update, then one with other numbers, then the first again: the lists, and what each finds.
again :
    (resource : AppResource) (k l : ℕ) (rs rs' : List AppResource) (t : Bool)
    → update_app_resources resource rs ≡ some (t, rs')
    → (rs2 : List AppResource) × ((update_app_resources (scaled k l resource) rs'
          ≡ some (is_ready resource, rs2))
        × (update_app_resources resource rs2 ≡ some (is_ready (scaled k l resource), rs')))
unfolding update_app_resources put_before with_replicas
again resource k l [] rs' t h = cc h
again resource k l (r ∷ rs) rs' t h = elim (Bool-cases (same_resource r resource)) [
  | inl same ↦
      let here : some (is_ready r, with_replicas resource r ∷ rs) ≡ some (t, rs') = rw same at h in
      let e : with_replicas resource r ∷ rs ≡ rs' = cc here in
      let down = scaled k l resource in
      let r1 = with_replicas resource r in
      let r2 = with_replicas down r1 in
      let same1 = same-with_replicas resource resource r k l ∙ same in
      let same2 =
        same-with_replicas resource down r1 resource.replicas resource.ready_replicas
        ∙ same-with_replicas resource resource r resource.replicas resource.ready_replicas
        ∙ same in
      subst
        (λ xs.
          (rs2 : List AppResource) × ((update_app_resources down xs ≡ some (is_ready resource, rs2))
            × (update_app_resources resource rs2 ≡ some (is_ready down, xs))))
        e (r2 ∷ rs, (update-here down r1 rs same1, update-here resource r2 rs same2))
  | inr other ↦ elim (Option-cases (update_app_resources resource rs)) [
    | inl missing ↦ cc (rw (other, missing) at h)
    | inr ((t', more), there) ↦
        let here : some (t', r ∷ more) ≡ some (t, rs') = rw (other, there) at h in
        let e : r ∷ more ≡ rs' = cc here in
        let next = again resource k l rs more t' there in
        let down = scaled k l resource in
        let other1 = same-with_replicas resource r r k l ∙ other in
        subst
          (λ xs.
            (rs2 : List AppResource) × ((update_app_resources down xs
                ≡ some (is_ready resource, rs2))
              × (update_app_resources resource rs2 ≡ some (is_ready down, xs))))
          e
          (
            r ∷ next.0,
            (
              update-there down r more next.0 (is_ready resource) other1 next.1.0,
              update-there resource r next.0 more (is_ready down) other next.1.1,
            ),
          )
  ]
]

counted-some :
    (resource : AppResource) (s : AppStatus) (t : Bool) (rs : List AppResource)
    → update_app_resources resource s.app_resources ≡ some (t, rs)
    → status_updated resource s
      ≡ some (record s {
        app_resources = rs;
        ready_workload_count = count_updated resource t s.ready_workload_count;
      })
unfolding status_updated counted
counted-some resource s t rs h = rw (h, counted) refl

updated-twice :
    (resource : AppResource) (n : ℕ)
    → is_workload resource ≡ true
    → 0 < resource.ready_replicas
    → resource.replicas ≤ resource.ready_replicas
    → (is_ready resource ≡ true)
      × ((count_updated (scaled 0 0 resource) true n ≡ n)
          × ((is_ready (scaled 0 0 resource) ≡ false)
              × (count_updated resource false n ≡ add64 n 1)))
unfolding count_updated is_ready is_workload
updated-twice resource n workload up enough = ground (arith, workload)

-- A workload that has been recorded with all its replicas ready, is scaled down to none and is then
-- up again is counted once more, though the resources of the status are the same.
pub status_updated-scaled :
    (resource : AppResource) (s s1 : AppStatus)
    → is_workload resource ≡ true
    → 0 < resource.ready_replicas
    → resource.replicas ≤ resource.ready_replicas
    → status_updated resource s ≡ some s1
    → (s2 s3 : AppStatus) × ((status_updated (scaled 0 0 resource) s1 ≡ some s2)
        × ((status_updated resource s2 ≡ some s3)
            × ((s3.app_resources ≡ s1.app_resources)
                × (s3.ready_workload_count ≡ add64 s1.ready_workload_count 1))))
unfolding status_updated counted
status_updated-scaled resource s s1 workload up enough h =
    elim (Option-cases (update_app_resources resource s.app_resources)) [
      | inl missing ↦ cc (rw (missing, counted) at h)
      | inr ((t, rs), there) ↦
          let n : ℕ = count_updated resource t s.ready_workload_count in
          let e : record s { app_resources = rs; ready_workload_count = n } ≡ s1 =
            cc (rw (there, counted) at h) in
          let facts = updated-twice resource n workload up enough in
          let next = again resource 0 0 s.app_resources rs t there in
          let down = scaled 0 0 resource in
          let s1' : AppStatus = record s { app_resources = rs; ready_workload_count = n } in
          let n2 : ℕ = count_updated down (is_ready resource) n in
          let n3 : ℕ = count_updated resource (is_ready down) n2 in
          let s2 : AppStatus = record s1' { app_resources = next.0; ready_workload_count = n2 } in
          let s3 : AppStatus = record s2 { app_resources = rs; ready_workload_count = n3 } in
          let same : n2 ≡ n = ap (λ b. count_updated down b n) facts.0 ∙ facts.1.0 in
          let more : n3 ≡ add64 n 1 =
            ap (λ b. count_updated resource b n2) facts.1.1.0
            ∙ ap (count_updated resource false) same
            ∙ facts.1.1.1 in
          (
            s2,
            s3,
            (
              subst (λ x. status_updated down x ≡ some s2) e
                  (counted-some down s1' (is_ready resource) next.0 next.1.0),
              (
                counted-some resource s2 (is_ready down) rs next.1.1,
                (ap (λ x. x.app_resources) e, more ∙ ap (λ x. add64 x.ready_workload_count 1) e),
              ),
            ),
          )
    ]
