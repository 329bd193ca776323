-- ===== src/Authorization/Access.antt =====
-- What `Authorize` decides.
use mathlib.Core.List.{Memᴰ}
use gao_cloud.Prelude.{
  ◌≡◌, ◌⊎◌, ◌↔◌, inl, inr, refl, Bool, true, false, Option, none, some, String, ◌==◌, eq_iff, List,
  [], ◌∷◌, arith, lookup, any, Bool-cases,
}
use gao_cloud.Authorization.{
  Project, User, Authorizer, administrator, all_clusters, all_namespaces, covers, authorize,
}

-- A project that grants a namespace of a cluster; the empty namespace asks for the cluster alone.
pub record Covers (cluster namespace : String) (p : Project) : Type 0 where
  pub on_cluster : (p.cluster ≡ all_clusters) ⊎ (p.cluster ≡ cluster)
  pub on_namespace : (namespace ≡ "") ⊎ ((p.namespace ≡ all_namespaces) ⊎ (p.namespace ≡ namespace))

-- A known user with a project that covers what is asked.
pub record Grant (a : Authorizer) (name cluster namespace : String) : Type 0 where
  pub user : User
  pub known : lookup name a.users ≡ some user
  pub project : Project
  pub held : Memᴰ project user.projects
  pub covered : Covers cluster namespace project

abbrev pub Allowed : Authorizer → String → String → String → Type 0
Allowed a name cluster namespace = (name ≡ administrator) ⊎ Grant a name cluster namespace

-- The Boolean of a disjunction of equations of texts.
covers→Covers :
    (cluster namespace : String) (p : Project)
    → covers cluster namespace p ≡ true
    → Covers cluster namespace p
covers→Covers cluster namespace p h = record {
  on_cluster = ground (arith, eq_iff p.cluster all_clusters, eq_iff p.cluster cluster);
  on_namespace =
      ground (
        arith,
        eq_iff namespace "",
        eq_iff p.namespace all_namespaces,
        eq_iff p.namespace namespace,
      );
}

Covers→covers :
    (cluster namespace : String) (p : Project)
    → Covers cluster namespace p
    → covers cluster namespace p ≡ true
Covers→covers cluster namespace p h = ground (
  arith,
  eq_iff p.cluster all_clusters,
  eq_iff p.cluster cluster,
  eq_iff namespace "",
  eq_iff p.namespace all_namespaces,
  eq_iff p.namespace namespace,
)

any→Memᴰ :
    {A : Type 0} (f : A → Bool) (xs : List A) → any f xs ≡ true → (x : A) × Memᴰ x xs × (f x ≡ true)
any→Memᴰ f [] h = cc
any→Memᴰ f (x ∷ xs) h = elim (Bool-cases (f x)) [
  | inl hit ↦ (x, Memᴰ.head refl, hit)
  | inr miss ↦ let (y, m, e) = any→Memᴰ f xs (rw miss at h) in (y, Memᴰ.tail m, e)
]

Memᴰ→any :
    {A : Type 0} (f : A → Bool) {x : A} (xs : List A) → Memᴰ x xs → f x ≡ true → any f xs ≡ true
Memᴰ→any f [] m h = elim m [ ]
Memᴰ→any f (y ∷ xs) (Memᴰ.head e) h = rw (← e, h) refl
Memᴰ→any f (y ∷ xs) (Memᴰ.tail m) h = ground (arith, Memᴰ→any f xs m h)

module _ (a : Authorizer) (name cluster namespace : String) where
  authorize→Grant :
      (name == administrator) ≡ false
      → authorize a name cluster namespace ≡ true
      → (o : Option User) → lookup name a.users ≡ o
      → Grant a name cluster namespace
  unfolding authorize
  authorize→Grant other h none e = cc (rw (other, e) at h)
  authorize→Grant other h (some user) e =
      let (p, m, c) = any→Memᴰ (covers cluster namespace) user.projects (rw (other, e) at h) in
      record {
        user = user;
        known = e;
        project = p;
        held = m;
        covered = covers→Covers cluster namespace p c;
      }

  -- A request is authorised exactly when it is the administrator's, or that of a known user with a
  -- project that covers it.
  pub authorize_iff : (authorize a name cluster namespace ≡ true) ↔ Allowed a name cluster namespace
  unfolding authorize
  authorize_iff = (
    λ h. elim (Bool-cases (name == administrator)) [
      | inl admin ↦ inl ((eq_iff name administrator).0 admin)
      | inr other ↦ inr (authorize→Grant other h (lookup name a.users) refl)
    ],
    λ allowed. elim allowed [
      | inl admin ↦ rw ((eq_iff name administrator).1 admin) refl
      | inr g ↦ elim (Bool-cases (name == administrator)) [
        | inl admin ↦ rw admin refl
        | inr other ↦
            rw (other, g.known)
              (Memᴰ→any (covers cluster namespace) g.user.projects g.held
                (Covers→covers cluster namespace g.project g.covered))
      ]
    ],
  )
