-- ===== src/Application/Counting.antt =====
-- application-operator/pkg/controller/applicationcache.go: the count of the ready workloads against
-- the resources of the status.
use mathlib.Core.Path.{subst}
use gao_cloud.Prelude.{
  ℕ, suc, ◌≡◌, ◌≤◌, ◌<◌, ◌+◌, ◌-◌, refl, sym, ap, ◌∙◌, inl, inr, Bool, true, ◌&&◌, some, ◌==◌, List,
  [], ◌∷◌, any, if◌then◌else◌, arith, eq_iff, Bool-cases, Option-cases, length, keep,
}
use gao_cloud.Window.{u64, add64, sub64}
use gao_cloud.Application.{support_workload_types, AppResource, AppStatus}
use gao_cloud.Application.Cache.{
  is_workload, is_ready, same_resource, put_before, with_replicas, update_app_resources,
  count_updated, count_deleted, counted, status_updated, status_deleted,
}

-- The workloads that are recorded as ready.
abbrev pub ready_workloads : List AppResource → ℕ
ready_workloads rs = length (keep (λ r. is_workload r && is_ready r) rs)

-- The count of the status is theirs, and an `int` holds one more.
abbrev pub IsCounted : AppStatus → Type 0
IsCounted s =
    (s.ready_workload_count ≡ ready_workloads s.app_resources) × (length s.app_resources + 1 < u64)

same-workload :
    (r resource : AppResource)
    → same_resource r resource ≡ true
    → is_workload r ≡ is_workload resource
unfolding same_resource is_workload
same-workload r resource h =
    let e : r.resource_type ≡ resource.resource_type =
      (eq_iff r.resource_type resource.resource_type).0 (ground (arith, h)) in
    ap (λ t. any (λ k. k == t) support_workload_types) e

abbrev one_if : Bool → ℕ
one_if t = if t then 1 else 0

ready_workloads-cons :
    (r : AppResource) (rs : List AppResource)
    → ready_workloads (r ∷ rs) ≡ one_if (is_workload r && is_ready r) + ready_workloads rs
ready_workloads-cons r rs = ground arith

-- An update of the list changes what it counts by the readiness of the one resource.
record Updated (resource : AppResource) (rs rs' : List AppResource) (was_ready : Bool)
    : Type 0 where
  same_length : length rs' ≡ length rs
  counted_before : one_if (is_workload resource && was_ready) ≤ ready_workloads rs
  counted_after :
      ready_workloads rs' + one_if (is_workload resource && was_ready)
      ≡ ready_workloads rs + one_if (is_workload resource && is_ready resource)

with_replicas-ready :
    (resource r : AppResource)
    → (is_ready (with_replicas resource r) ≡ is_ready resource)
      × (is_workload (with_replicas resource r) ≡ is_workload r)
unfolding is_ready with_replicas is_workload
with_replicas-ready resource r = (refl, refl)

here-Updated :
    (resource r : AppResource) (rs : List AppResource)
    → same_resource r resource ≡ true
    → Updated resource (r ∷ rs) (with_replicas resource r ∷ rs) (is_ready r)
here-Updated resource r rs same = record {
  same_length = refl;
  counted_before = ground (arith, same-workload r resource same, ready_workloads-cons r rs);
  counted_after = ground (
    arith,
    same-workload r resource same,
    with_replicas-ready resource r,
    ready_workloads-cons r rs,
    ready_workloads-cons (with_replicas resource r) rs,
  );
}

there-Updated :
    (resource r : AppResource) (rs more : List AppResource) (ready : Bool)
    → Updated resource rs more ready
    → Updated resource (r ∷ rs) (r ∷ more) ready
there-Updated resource r rs more ready u = record {
  same_length = ap suc u.same_length;
  counted_before = ground (arith, u.counted_before, ready_workloads-cons r rs);
  counted_after =
      ground (arith, u.counted_after, ready_workloads-cons r rs, ready_workloads-cons r more);
}

update_app_resources-Updated :
    (resource : AppResource) (rs rs' : List AppResource) (was_ready : Bool)
    → update_app_resources resource rs ≡ some (was_ready, rs')
    → Updated resource rs rs' was_ready
unfolding update_app_resources put_before
update_app_resources-Updated resource [] rs' was_ready h = cc h
update_app_resources-Updated resource (r ∷ rs) rs' was_ready h =
    elim (Bool-cases (same_resource r resource)) [
      | inl same ↦
          let here : some (is_ready r, with_replicas resource r ∷ rs) ≡ some (was_ready, rs') =
            rw same at h in
          let e : was_ready ≡ is_ready r = cc here in
          let e' : rs' ≡ with_replicas resource r ∷ rs = cc here in
          rw (e, e') (here-Updated resource r rs same)
      | inr other ↦ elim (Option-cases (update_app_resources resource rs)) [
        | inl none_there ↦ cc (rw (other, none_there) at h)
        | inr ((ready, more), there) ↦
            let here : some (ready, r ∷ more) ≡ some (was_ready, rs') = rw (other, there) at h in
            let e : was_ready ≡ ready = cc here in
            let e' : rs' ≡ r ∷ more = cc here in
            let u = update_app_resources-Updated resource rs more ready there in
            rw (e, e') (there-Updated resource r rs more ready u)
      ]
    ]

add64-one : (n : ℕ) → n + 1 < u64 → add64 n 1 ≡ n + 1
add64-one n h = omega arith

sub64-one : (n : ℕ) → 1 ≤ n → n < u64 → sub64 n 1 ≡ n - 1
sub64-one n h p = omega arith

ready_workloads-bound : (rs : List AppResource) → ready_workloads rs ≤ length rs
ready_workloads-bound [] = omega arith
ready_workloads-bound (r ∷ rs) = ground (arith, ready_workloads-bound rs)

-- What the event of a workload with replicas does to the count, beside what it records.
count_updated-step :
    (resource : AppResource) (was_ready : Bool) (n m : ℕ)
    → (is_workload resource ≡ true → 0 < resource.replicas)
    → one_if (is_workload resource && was_ready) ≤ n
    → n + 1 < u64
    → m + one_if (is_workload resource && was_ready)
      ≡ n + one_if (is_workload resource && is_ready resource)
    → count_updated resource was_ready n ≡ m
unfolding count_updated is_ready
count_updated-step resource was_ready n m positive before bound after =
    elim (Bool-cases (is_workload resource)) [
      | inr other ↦ ground (arith, other, after)
      | inl workload ↦ ground (arith, workload, positive workload, add64-one n bound, sub64-one n)
    ]

count_deleted-step :
    (resource : AppResource) (was_ready : Bool) (n m : ℕ)
    → resource.ready_replicas ≡ 0
    → one_if (is_workload resource && was_ready) ≤ n
    → n < u64
    → m + one_if (is_workload resource && was_ready)
      ≡ n + one_if (is_workload resource && is_ready resource)
    → count_deleted resource was_ready n ≡ m
unfolding count_deleted is_ready
count_deleted-step resource was_ready n m gone before bound after = ground (arith, sub64-one n)

pub status_updated-IsCounted :
    (resource : AppResource) (s s' : AppStatus)
    → (is_workload resource ≡ true → 0 < resource.replicas)
    → IsCounted s
    → status_updated resource s ≡ some s'
    → IsCounted s'
unfolding status_updated counted
status_updated-IsCounted resource s s' positive (count, bound) h =
    elim (Option-cases (update_app_resources resource s.app_resources)) [
      | inl missing ↦ cc (rw (missing, counted) at h)
      | inr ((ready, rs), there) ↦
          let u = update_app_resources-Updated resource s.app_resources rs ready there in
          let n : ℕ = s.ready_workload_count in
          let few = ready_workloads-bound s.app_resources in
          let result : count_updated resource ready n ≡ ready_workloads rs =
            count_updated-step resource ready n (ready_workloads rs) positive
              (ground (arith, count, u.counted_before)) (omega (arith, count, few, bound))
              (u.counted_after
                ∙ ap (λ k. k + one_if (is_workload resource && is_ready resource)) (sym count)) in
          let e : record s {
            app_resources = rs;
            ready_workload_count = count_updated resource ready n;
          }
              ≡ s' =
            cc (rw (there, counted) at h) in
          subst IsCounted e (result, ground (arith, u.same_length, bound))
    ]

pub status_deleted-IsCounted :
    (resource : AppResource) (s s' : AppStatus)
    → resource.ready_replicas ≡ 0
    → IsCounted s
    → status_deleted resource s ≡ some s'
    → IsCounted s'
unfolding status_deleted counted
status_deleted-IsCounted resource s s' gone (count, bound) h =
    elim (Option-cases (update_app_resources resource s.app_resources)) [
      | inl missing ↦ cc (rw (missing, counted) at h)
      | inr ((ready, rs), there) ↦
          let u = update_app_resources-Updated resource s.app_resources rs ready there in
          let n : ℕ = s.ready_workload_count in
          let few = ready_workloads-bound s.app_resources in
          let result : count_deleted resource ready n ≡ ready_workloads rs =
            count_deleted-step resource ready n (ready_workloads rs) gone
              (ground (arith, count, u.counted_before)) (omega (arith, count, few, bound))
              (u.counted_after
                ∙ ap (λ k. k + one_if (is_workload resource && is_ready resource)) (sym count)) in
          let e : record s {
            app_resources = rs;
            ready_workload_count = count_deleted resource ready n;
          }
              ≡ s' =
            cc (rw (there, counted) at h) in
          subst IsCounted e (result, ground (arith, u.same_length, bound))
    ]
