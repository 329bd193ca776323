-- ===== src/Application/Steps.antt =====
-- application-operator/pkg/controller/applicationcache.go: what one deletion of a resource does, when it
-- is the last and when it is not.
use mathlib.Core.Path.{subst}
use mathlib.Core.List.{Memᴰ}
use gao_cloud.Prelude.{
  ◌≡◌, refl, sym, ap, ◌∙◌, inl, inr, ◌⊎◌, Bool, false, Option, none, some, List, [], ◌∷◌, arith,
  eq_refl, Bool-cases, Option-cases, ok,
}
use gao_cloud.Application.{AppResource, ApplicationInfo, Application, Client, ApplicationCache}
use gao_cloud.Application.Status.{IsClient}
use gao_cloud.Application.Tables.{lookup2-remove2}
use gao_cloud.Application.Cache.{
  get_app_resources, remove_resource, status_deleted, delete_finalizer, forget, delete_application,
  without_resource, write_deleted, forget_resource, delete_resource, on_delete_app_resource,
}
use gao_cloud.Application.Index.{deletion_of, Tracked, without_resource-Tracked, deleted-indexed}

-- The API server accepts what is written of an application that it has: no other writer comes between
-- the read and the write. An application that is written without its finalizer may be gone with that
-- write, as it is where it is being deleted.
pub record Accepts {W : Type 0} (client : Client W) : Type 0 where
  pub accepts_status :
      (app stored : Application) (w : W)
      → client.get app.info w ≡ some stored
      → (w' : W) × (client.update_status app w ≡ some w')
  pub accepts :
      (app stored : Application) (w : W)
      → client.get app.info w ≡ some stored
      → (w' : W) × ((client.update app w ≡ some w')
          × (((app.finalizer ≡ false) × (client.get app.info w' ≡ none))
              ⊎ (client.get app.info w' ≡ some (record app { status = stored.status }))))

-- An application that is there and has the finalizer.
abbrev pub has_finalizer : Option Application → Bool
has_finalizer none = false
has_finalizer (some app) = app.finalizer

-- The finalizer is not in the API server, nor the application in the cache.
pub record Released {W : Type 0} (client : Client W) (info : ApplicationInfo)
    (ac : ApplicationCache) (w : W) : Type 0 where
  pub no_finalizer : has_finalizer (client.get info w) ≡ false
  pub forgotten : get_app_resources ac info ≡ none

-- The application is there, under its name, and its resources are tracked.
pub record Held {W : Type 0} (client : Client W) (info : ApplicationInfo) (rs : List AppResource)
    (ac : ApplicationCache) (w : W) : Type 0 where
  pub stored : Application
  pub stored_there : client.get info w ≡ some stored
  pub tracked : Tracked info rs ac

forget-none :
    (info : ApplicationInfo) (ac : ApplicationCache)
    → get_app_resources (forget info ac) info ≡ none
unfolding forget get_app_resources
forget-none info ac =
    lookup2-remove2 info.namespace info.name info.namespace info.name ac.ns_and_applications
    ∙ ground (arith, eq_refl info.namespace, eq_refl info.name)

module _ {W : Type 0} {client : Client W} (laws : IsClient client) (accepts : Accepts client) where
  delete_application-Released :
      (app : Application) (ac : ApplicationCache) (w : W)
      → get_app_resources ac app.info ≡ some []
      → client.get app.info w ≡ some app
      → let r = delete_application client app ac w in Released client app.info r.1.0 r.1.1
  unfolding delete_application delete_finalizer
  delete_application-Released app ac w empty there = elim (Bool-cases app.finalizer) [
    | inr free ↦
        rw (empty, delete_application, free)
          (record {
            no_finalizer = ap has_finalizer there ∙ free;
            forgotten = forget-none app.info ac;
          })
    | inl bound ↦
        let written = accepts.accepts (record app { finalizer = false }) app w there in
        rw (empty, delete_application, bound, delete_finalizer, written.1.0)
          (record {
            no_finalizer = elim written.1.1 [
              | inl (bare, gone) ↦ ap has_finalizer gone
              | inr stays ↦ ap has_finalizer stays
            ];
            forgotten = forget-none app.info ac;
          })
  ]

  write_deleted-ok :
      (e : AppResource) (app : Application) (w : W)
      → client.get app.info w ≡ some app
      → (app' : Application) × (w' : W) × ((write_deleted client e app w ≡ ok (app', w'))
          × ((app'.info ≡ app.info) × (client.get app'.info w' ≡ some app')))
  unfolding write_deleted
  write_deleted-ok e app w there = elim (Option-cases (status_deleted e app.status)) [
    | inl missing ↦ (app, w, (rw (missing, write_deleted) refl, (refl, there)))
    | inr (s, found) ↦
        let app' : Application = record app { status = s } in
        let done = accepts.accepts_status app' app w there in
        (
          app',
          done.0,
          (
            rw (found, write_deleted, done.1) refl,
            (refl, laws.status_written app' app w done.0 done.1 there),
          ),
        )
  ]

  -- The event finds the application, writes its status, and comes to `deleteApplication`.
  on_delete_app_resource-step :
      (r : AppResource) (rs : List AppResource) (info : ApplicationInfo) (ac : ApplicationCache)
      (w : W)
      → Memᴰ r rs
      → Held client info rs ac w
      → (app' : Application) × (w' : W) × ((on_delete_app_resource client (deletion_of r) ac w
            ≡ delete_application client app'
                (without_resource (deletion_of r) info (remove_resource (deletion_of r) rs) ac)
                w')
          × ((app'.info ≡ info) × (client.get info w' ≡ some app')))
  unfolding on_delete_app_resource delete_resource forget_resource
  on_delete_app_resource-step r rs info ac w m h =
      let same : h.stored.info ≡ info = laws.got info h.stored w h.stored_there in
      let there : client.get h.stored.info w ≡ some h.stored =
        subst (λ i. client.get i w ≡ some h.stored) (sym same) h.stored_there in
      let (app', w', (done, (kept, got))) = write_deleted-ok (deletion_of r) h.stored w there in
      let indexed = deleted-indexed ac r ∙ h.tracked.indexed r m in
      (
        app',
        w',
        (
          rw
              (
                indexed, on_delete_app_resource, h.tracked.listed, h.stored_there, delete_resource,
                done,
              )
              refl,
          (kept ∙ same, subst (λ i. client.get i w' ≡ some app') (kept ∙ same) got),
        ),
      )

  pub delete_resource-last :
      (r : AppResource) (rs : List AppResource) (info : ApplicationInfo) (ac : ApplicationCache)
      (w : W)
      → Memᴰ r rs
      → remove_resource (deletion_of r) rs ≡ []
      → Held client info rs ac w
      → let g = on_delete_app_resource client (deletion_of r) ac w in
        Released client info g.1.0 g.1.1
  delete_resource-last r rs info ac w m empty h =
      let (app', w', (done, (kept, got))) = on_delete_app_resource-step r rs info ac w m h in
      let rs' : List AppResource = remove_resource (deletion_of r) rs in
      let ac' : ApplicationCache = without_resource (deletion_of r) info rs' ac in
      let listed : get_app_resources ac' info ≡ some [] =
        (without_resource-Tracked info r rs ac m h.tracked).listed ∙ ap some empty in
      let released : Released client app'.info (delete_application client app' ac' w').1.0
          (delete_application client app' ac' w').1.1 =
        delete_application-Released app' ac' w'
          (subst (λ i. get_app_resources ac' i ≡ some []) (sym kept) listed)
          (subst (λ i. client.get i w' ≡ some app') (sym kept) got) in
      subst (λ g. Released client info g.1.0 g.1.1) (sym done)
        (subst
          (λ i.
            Released client i (delete_application client app' ac' w').1.0
              (delete_application client app' ac' w').1.1)
          kept released)

  delete_application-more :
      (app : Application) (ac : ApplicationCache) (w : W) (x : AppResource) (xs : List AppResource)
      → get_app_resources ac app.info ≡ some (x ∷ xs)
      → delete_application client app ac w ≡ (ok tt, (ac, w))
  unfolding delete_application
  delete_application-more app ac w x xs listed = rw (listed, delete_application) refl

  pub delete_resource-more :
      (r : AppResource) (rs : List AppResource) (info : ApplicationInfo) (ac : ApplicationCache)
      (w : W) (x : AppResource) (xs : List AppResource)
      → Memᴰ r rs
      → remove_resource (deletion_of r) rs ≡ x ∷ xs
      → Held client info rs ac w
      → let g = on_delete_app_resource client (deletion_of r) ac w in
        Held client info (x ∷ xs) g.1.0 g.1.1
  delete_resource-more r rs info ac w x xs m left h =
      let (app', w', (done, (kept, got))) = on_delete_app_resource-step r rs info ac w m h in
      let rs' : List AppResource = remove_resource (deletion_of r) rs in
      let ac' : ApplicationCache = without_resource (deletion_of r) info rs' ac in
      let tracked = without_resource-Tracked info r rs ac m h.tracked in
      let listed : get_app_resources ac' info ≡ some (x ∷ xs) = tracked.listed ∙ ap some left in
      let stays =
        delete_application-more app' ac' w' x xs
          (subst (λ i. get_app_resources ac' i ≡ some (x ∷ xs)) (sym kept) listed) in
      subst (λ g. Held client info (x ∷ xs) g.1.0 g.1.1) (sym (done ∙ stays))
        (record {
          stored = app';
          stored_there = got;
          tracked = subst (λ ys. Tracked info ys ac') left tracked;
        })
