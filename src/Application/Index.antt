-- ===== src/Application/Index.antt =====
-- application-operator/pkg/controller/applicationcache.go: the index of the resources, as they are
-- added and taken out.
use mathlib.Core.Path.{subst}
use mathlib.Core.List.{Memᴰ}
use gao_cloud.Prelude.{
  ◌≡◌, refl, sym, ◌∙◌, inl, inr, ◌⊎◌, Bool, true, false, ◌&&◌, some, ◌==◌, List, [], ◌∷◌, arith,
  eq_iff, eq_refl, Bool-cases, Map,
}
use gao_cloud.Application.{AppResource, ApplicationInfo, ApplicationCache}
use gao_cloud.Application.Tables.{lookup2, remove2, lookup2-insert2, lookup2-remove2}
use gao_cloud.Application.Cache.{
  gen_resource_id, get_app_resources, get_app_info, same_resource, remove_resource,
  without_resource,
}

-- What the deletion of a resource tells of it.
unfoldable pub deletion_of : AppResource → AppResource
deletion_of r = record {
  namespace = r.namespace;
  name = r.name;
  resource_type = r.resource_type;
  exists = false;
  replicas = 0;
  ready_replicas = 0;
  creation_timestamp = 0;
}

-- One key in the index.
unfoldable pub same_key : AppResource → AppResource → Bool
same_key r s =
    r.namespace == s.namespace
    && gen_resource_id r.resource_type r.name == gen_resource_id s.resource_type s.name

-- The keys of the resources differ.
abbrev pub Apart : List AppResource → Type 0
Apart [] = Unit
Apart (r ∷ rs) = ((s : AppResource) → Memᴰ s rs → same_key r s ≡ false) × Apart rs

same_resource-key :
    (r s : AppResource) → same_resource r (deletion_of s) ≡ true → same_key r s ≡ true
unfolding same_resource same_key deletion_of
same_resource-key r s h =
    let n : r.namespace ≡ s.namespace = (eq_iff r.namespace s.namespace).0 (ground (arith, h)) in
    let t : r.resource_type ≡ s.resource_type =
      (eq_iff r.resource_type s.resource_type).0 (ground (arith, h)) in
    let m : r.name ≡ s.name = (eq_iff r.name s.name).0 (ground (arith, h)) in
    rw (n, t, m)
      (ground (arith, eq_refl s.namespace, eq_refl (gen_resource_id s.resource_type s.name)))

same_resource_self : (r : AppResource) → same_resource r (deletion_of r) ≡ true
unfolding same_resource deletion_of
same_resource_self r = ground (arith, eq_refl r.namespace, eq_refl r.resource_type, eq_refl r.name)

same_key-flip : (r s : AppResource) → same_key r s ≡ false → same_key s r ≡ false
unfolding same_key
same_key-flip r s h = ground (
  arith,
  h,
  eq_iff r.namespace s.namespace,
  eq_iff s.namespace r.namespace,
  eq_iff (gen_resource_id r.resource_type r.name) (gen_resource_id s.resource_type s.name),
  eq_iff (gen_resource_id s.resource_type s.name) (gen_resource_id r.resource_type r.name),
)

split_Memᴰ : {x s : AppResource} {xs : List AppResource} → Memᴰ s (x ∷ xs) → (s ≡ x) ⊎ Memᴰ s xs
split_Memᴰ (Memᴰ.head e) = inl e
split_Memᴰ (Memᴰ.tail m) = inr m

still_there :
    (r s : AppResource) (rs : List AppResource) → Memᴰ s (remove_resource r rs) → Memᴰ s rs
unfolding remove_resource
still_there r s [] m = m
still_there r s (x ∷ xs) m = elim (Bool-cases (same_resource x r)) [
  | inl same ↦ Memᴰ.tail (rw same at m)
  | inr other ↦
      let here : Memᴰ s (x ∷ remove_resource r xs) = rw other at m in
      elim (split_Memᴰ here) [
        | inl e ↦ Memᴰ.head e
        | inr rest ↦ Memᴰ.tail (still_there r s xs rest)
      ]
]

left_over :
    (r s : AppResource) (rs : List AppResource)
    → Apart rs
    → Memᴰ r rs
    → Memᴰ s (remove_resource (deletion_of r) rs)
    → same_key r s ≡ false
unfolding remove_resource
left_over r s [] apart m m' = elim m [ ]
left_over r s (x ∷ xs) apart m m' = elim (Bool-cases (same_resource x (deletion_of r))) [
  | inl same ↦
      let rest : Memᴰ s xs = rw same at m' in
      elim (split_Memᴰ m) [
        | inl e ↦ subst (λ y. same_key y s ≡ false) (sym e) (apart.0 s rest)
        | inr there ↦ cc (same_resource-key x r same, apart.0 r there)
      ]
  | inr other ↦
      let rest : Memᴰ s (x ∷ remove_resource (deletion_of r) xs) = rw other at m' in
      elim (split_Memᴰ m) [
        | inl e ↦
            cc (subst (λ y. same_resource y (deletion_of r) ≡ true) e (same_resource_self r), other)
        | inr there ↦ elim (split_Memᴰ rest) [
          | inl e ↦ subst (λ y. same_key r y ≡ false) (sym e) (same_key-flip x r (apart.0 r there))
          | inr later ↦ left_over r s xs apart.1 there later
        ]
      ]
]

remove_resource-Apart :
    (r : AppResource) (rs : List AppResource) → Apart rs → Apart (remove_resource r rs)
unfolding remove_resource
remove_resource-Apart r [] apart = tt
remove_resource-Apart r (x ∷ xs) apart = elim (Bool-cases (same_resource x r)) [
  | inl same ↦ rw same apart.1
  | inr other ↦
      rw other (λ s m. apart.0 s (still_there r s xs m), remove_resource-Apart r xs apart.1)
]

-- The cache has the resources for the application, each under a key of its own.
pub record Tracked (info : ApplicationInfo) (rs : List AppResource) (ac : ApplicationCache)
    : Type 0 where
  pub listed : get_app_resources ac info ≡ some rs
  pub indexed : (r : AppResource) → Memᴰ r rs → get_app_info ac r ≡ some info
  pub apart : Apart rs

index-removed :
    (r s : AppResource) (m : Map (Map ApplicationInfo))
    → same_key r s ≡ false
    → lookup2 s.namespace
        (gen_resource_id s.resource_type s.name)
        (remove2 r.namespace (gen_resource_id r.resource_type r.name) m)
      ≡ lookup2 s.namespace (gen_resource_id s.resource_type s.name) m
unfolding same_key
index-removed r s m h = ground (
  arith,
  h,
  lookup2-remove2 r.namespace (gen_resource_id r.resource_type r.name) s.namespace
      (gen_resource_id s.resource_type s.name) m,
)

pub without_resource-Tracked :
    (info : ApplicationInfo) (r : AppResource) (rs : List AppResource) (ac : ApplicationCache)
    → Memᴰ r rs
    → Tracked info rs ac
    → let rs' = remove_resource (deletion_of r) rs in
      Tracked info rs' (without_resource (deletion_of r) info rs' ac)
unfolding without_resource get_app_resources get_app_info deletion_of
without_resource-Tracked info r rs ac m h =
    let rs' : List AppResource = remove_resource (deletion_of r) rs in
    record {
      listed =
          lookup2-insert2 info.namespace info.name info.namespace info.name rs'
            ac.ns_and_applications
          ∙ ground (arith, eq_refl info.namespace, eq_refl info.name);
      indexed = λ s m'.
          index-removed r s ac.ns_and_app_resources (left_over r s rs h.apart m m')
          ∙ h.indexed s (still_there (deletion_of r) s rs m');
      apart = remove_resource-Apart (deletion_of r) rs h.apart;
    }

pub deleted-indexed :
    (ac : ApplicationCache) (r : AppResource) → get_app_info ac (deletion_of r) ≡ get_app_info ac r
unfolding get_app_info deletion_of
deleted-indexed ac r = refl
