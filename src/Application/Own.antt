-- ===== src/Application/Own.antt =====
-- application-operator/pkg/controller/applicationcache.go: where the objects of a user's application
-- are made.
use gao_cloud.Prelude.{
  ◌≡◌, refl, sym, ap, ◌∙◌, inl, inr, Bool, true, false, not, none, some, String, ◌==◌, List, [],
  ◌∷◌, any, arith, eq_refl, Bool-cases, Option-cases,
}
use gao_cloud.Application.{Manifest, Application}
use gao_cloud.Application.Install.{
  Object, place, Answer, done, already_exists, not_found, failed, Env, Progress,
  runtime_object_to_meta_object, inject_service_mesh_to_workload, made_object, answered,
  create_object, create_objects, create_manifests, create_app_resources,
}

-- An object lies in another namespace; one of a cluster-scoped kind lies in none.
abbrev lies_elsewhere : String → Object → Bool
lies_elsewhere namespace obj = elim (place obj) [ none ↦ false | some n ↦ not (n == namespace) ]

-- An object that has been made lies in another namespace.
abbrev pub made_elsewhere : String → List Object → Bool
made_elsewhere namespace made = any (lies_elsewhere namespace) made

module _ (env : Env) (app : Application) where
  mesh_namespace :
      (typ : String) (obj : Object)
      → (inject_service_mesh_to_workload typ app obj).namespace ≡ obj.namespace
  unfolding inject_service_mesh_to_workload
  mesh_namespace typ obj = ground arith

  answered-own :
      (typ : String) (obj : Object) (p : Progress) (a : Answer)
      → (obj.namespace == app.info.namespace) ≡ true
      → made_elsewhere app.info.namespace p.made ≡ false
      → made_elsewhere app.info.namespace (answered env app typ obj p a).0.made ≡ false
  unfolding answered made_object
  answered-own typ obj p done here h = ground (arith, here, h)
  answered-own typ obj p already_exists here h = h
  answered-own typ obj p not_found here h = h
  answered-own typ obj p failed here h = h

module _ (env : Env) (app : Application) (user : app.created_by_admin ≡ false) where
  meta_namespace :
      (obj obj' : Object)
      → runtime_object_to_meta_object obj app.info.namespace app.created_by_admin ≡ some obj'
      → (obj'.namespace == app.info.namespace) ≡ true
  unfolding runtime_object_to_meta_object
  meta_namespace obj obj' h = elim (Bool-cases obj.has_meta) [
    | inr bare ↦ cc (rw (bare, runtime_object_to_meta_object) at h)
    | inl meta ↦ elim (Bool-cases (obj.namespace == "")) [
      | inl without ↦
          let e : record obj { namespace = app.info.namespace } ≡ obj' =
            cc (rw (meta, runtime_object_to_meta_object, without) at h) in
          ap (λ o. o.namespace == app.info.namespace) (sym e) ∙ eq_refl app.info.namespace
      | inr own ↦ cc (rw (meta, runtime_object_to_meta_object, own, user) at h)
    ]
  ]

  create_object-own :
      (obj : Object) (p : Progress)
      → made_elsewhere app.info.namespace p.made ≡ false
      → made_elsewhere app.info.namespace (create_object env app obj p).0.made ≡ false
  unfolding create_object
  create_object-own obj p h =
      elim (Option-cases
        (runtime_object_to_meta_object obj app.info.namespace app.created_by_admin)) [
          | inl refused ↦ rw (refused, create_object) h
          | inr (obj', own) ↦
              let typ : String = env.to_lower obj.kind in
              let obj'' : Object = inject_service_mesh_to_workload typ app obj' in
              rw (own, create_object)
                (answered-own env app typ obj'' p (env.creates obj'')
                  (ap (λ n. n == app.info.namespace) (mesh_namespace env app typ obj')
                    ∙ meta_namespace obj obj' own)
                  h)
        ]

  create_objects-own :
      (objs : List Object) (readable : Bool) (p : Progress)
      → made_elsewhere app.info.namespace p.made ≡ false
      → made_elsewhere app.info.namespace (create_objects env app objs readable p).0.made ≡ false
  unfolding create_objects
  create_objects-own [] readable p h = h
  create_objects-own (obj ∷ rest) readable p h =
      let r : Progress × Bool = create_object env app obj p in
      let here = create_object-own obj p h in
      elim (Bool-cases r.1) [
        | inl good ↦ rw good (create_objects-own rest readable r.0 here)
        | inr bad ↦ rw bad here
      ]

  create_manifests-own :
      (ms : List Manifest) (p : Progress)
      → made_elsewhere app.info.namespace p.made ≡ false
      → made_elsewhere app.info.namespace (create_manifests env app ms p).1.0.made ≡ false
  unfolding create_manifests
  create_manifests-own [] p h = h
  create_manifests-own (m ∷ ms) p h =
      let objs : List Object × Bool = env.objects_of m.content in
      let r : Progress × Bool =
        create_objects env app objs.0 objs.1 (record p { duplicate = m.duplicate }) in
      let here = create_objects-own objs.0 objs.1 (record p { duplicate = m.duplicate }) h in
      elim (Bool-cases r.1) [
        | inl good ↦ rw good (create_manifests-own ms r.0 here)
        | inr bad ↦ rw bad here
      ]

  -- Whatever the manifests hold and the API server answers, no object that is made for an application
  -- that no administrator has created lies in a namespace other than the application's: it lies in
  -- the application's, or its kind is cluster-scoped.
  pub create_app_resources-own :
      made_elsewhere app.info.namespace (create_app_resources env app).1.0 ≡ false
  unfolding create_app_resources
  create_app_resources-own =
      create_manifests-own app.manifests
        (record { status = app.status; duplicate = false; made = [] }) refl
