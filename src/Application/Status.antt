-- ===== src/Application/Status.antt =====
-- application-operator/pkg/controller/applicationcache.go: what the events of resources leave in the
-- status that the API server has.
use mathlib.Core.Path.{subst}
use gao_cloud.Prelude.{◌≡◌, ◌<◌, sym, inl, inr, true, some, Option-cases, ok}
use gao_cloud.Application.{AppResource, ApplicationInfo, Application, Client}
use gao_cloud.Application.Cache.{
  is_workload, write_deleted, status_deleted, update_app_status, write_status, counted,
  status_updated,
}
use gao_cloud.Application.Counting.{IsCounted, status_updated-IsCounted, status_deleted-IsCounted}

-- The answers of the API server that the controller relies on: the application of a name is got by
-- it, and a status that is written is what is got then.
pub record IsClient {W : Type 0} (client : Client W) : Type 0 where
  pub got :
      (info : ApplicationInfo) (app : Application) (w : W)
      → client.get info w ≡ some app
      → app.info ≡ info
  pub status_written :
      (app stored : Application) (w w' : W)
      → client.update_status app w ≡ some w'
      → client.get app.info w ≡ some stored
      → client.get app.info w' ≡ some (record stored { status = app.status })

module _ {W : Type 0} {client : Client W} (laws : IsClient client) where
  -- The count of an application's ready workloads, where it is that of the resources recorded as
  -- ready, is so again after the event of one of its resources that is answered without an error. A
  -- workload has replicas at the event, and the API server gives back the status that is written.
  pub update_app_status-IsCounted :
      (resource : AppResource) (info : ApplicationInfo) (app : Application) (w w' : W)
      → (is_workload resource ≡ true → 0 < resource.replicas)
      → client.get info w ≡ some app
      → IsCounted app.status
      → update_app_status client resource info w ≡ ok w'
      → (app' : Application) × ((client.get info w' ≡ some app') × IsCounted app'.status)
  unfolding update_app_status write_status
  update_app_status-IsCounted resource info app w w' positive got counted h =
      elim (Option-cases (status_updated resource app.status)) [
        | inl missing ↦ cc (rw (got, update_app_status, missing) at h)
        | inr (s, there) ↦
            elim (Option-cases (client.update_status (record app { status = s }) w)) [
              | inl failed ↦ cc (rw (got, update_app_status, there, write_status, failed) at h)
              | inr (w2, done) ↦
                  let e : w2 ≡ w' =
                    cc (rw (got, update_app_status, there, write_status, done) at h) in
                  let same : app.info ≡ info = laws.got info app w got in
                  let written =
                    laws.status_written (record app { status = s }) app w w2 done
                      (subst (λ i. client.get i w ≡ some app) (sym same) got) in
                  (
                    record app { status = s },
                    (
                      subst (λ i. client.get i w' ≡ some (record app { status = s })) same
                          (subst (λ v. client.get app.info v ≡ some (record app { status = s })) e
                            written),
                      status_updated-IsCounted resource app.status s positive counted there,
                    ),
                  )
            ]
      ]

  -- The same after the deletion of one of its resources.
  write_deleted-IsCounted :
      (resource : AppResource) (app app' : Application) (w w' : W)
      → resource.ready_replicas ≡ 0
      → client.get app.info w ≡ some app
      → IsCounted app.status
      → write_deleted client resource app w ≡ ok (app', w')
      → (client.get app.info w' ≡ some app') × IsCounted app'.status
  unfolding write_deleted
  write_deleted-IsCounted resource app app' w w' gone got is_counted h =
      elim (Option-cases (status_deleted resource app.status)) [
        | inl missing ↦
            let r : ok (app, w) ≡ ok (app', w') = rw (missing, write_deleted) at h in
            let e : app ≡ app' = cc r in
            let e' : w ≡ w' = cc r in
            subst (λ v. (client.get app.info v ≡ some app') × IsCounted app'.status) e'
              (subst (λ a. (client.get app.info w ≡ some a) × IsCounted a.status) e
                (got, is_counted))
        | inr (s, there) ↦
            let a : Application = record app { status = s } in
            elim (Option-cases (client.update_status a w)) [
              | inl failed ↦ cc (rw (there, write_deleted, failed) at h)
              | inr (w2, done) ↦
                  let r : ok (a, w2) ≡ ok (app', w') = rw (there, write_deleted, done) at h in
                  let e : a ≡ app' = cc r in
                  let e' : w2 ≡ w' = cc r in
                  subst (λ v. (client.get app.info v ≡ some app') × IsCounted app'.status) e'
                    (subst (λ b. (client.get app.info w2 ≡ some b) × IsCounted b.status) e
                      (
                        laws.status_written a app w w2 done got,
                        status_deleted-IsCounted resource app.status s gone is_counted there,
                      ))
            ]
      ]
