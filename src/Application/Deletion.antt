-- ===== src/Application/Deletion.antt =====
-- application-operator/pkg/controller/applicationcache.go: the resources of an application are deleted
-- one after the other, in any order, and the controller lets go of the application at the last.
use mathlib.Core.Path.{subst}
use mathlib.Core.List.{Memᴰ}
use gao_cloud.Prelude.{◌≡◌, refl, sym, some, List, [], ◌∷◌}
use gao_cloud.Application.{AppResource, ApplicationInfo, Application, Client, ApplicationCache}
use gao_cloud.Application.Status.{IsClient}
use gao_cloud.Application.Cache.{add, remove_resource, on_delete_app_resource}
use gao_cloud.Application.Index.{deletion_of, Tracked, Apart}
use gao_cloud.Application.Added.{add-Tracked}
use gao_cloud.Application.Steps.{
  Accepts, Released, Held, delete_resource-last, delete_resource-more,
}

-- The resources in an order in which they are deleted.
pub data Order : List AppResource → List AppResource → Type 0 where
  all_deleted : Order [] []
  next :
      {r : AppResource} {rs order : List AppResource}
      → Memᴰ r rs
      → Order (remove_resource (deletion_of r) rs) order
      → Order rs (r ∷ order)

-- The events of the deletions, one after the other.
unfoldable pub delete_all :
    {W : Type 0} → Client W → List AppResource → ApplicationCache → W → ApplicationCache × W
unfolding on_delete_app_resource
delete_all client [] ac w = (ac, w)
delete_all client (r ∷ rs) ac w =
    let g = on_delete_app_resource client (deletion_of r) ac w in delete_all client rs g.1.0 g.1.1

-- Where the deletions have got to, by what is left.
abbrev Stage :
    {W : Type 0} → Client W → ApplicationInfo → List AppResource → ApplicationCache → W → Type 0
Stage client info [] ac w = Released client info ac w
Stage client info (x ∷ xs) ac w = Held client info (x ∷ xs) ac w

module _ {W : Type 0} {client : Client W} (laws : IsClient client) (accepts : Accepts client) where
  left-Stage :
      (r y : AppResource) (ys left : List AppResource) (info : ApplicationInfo)
      (ac : ApplicationCache) (w : W)
      → Memᴰ r (y ∷ ys)
      → remove_resource (deletion_of r) (y ∷ ys) ≡ left
      → Held client info (y ∷ ys) ac w
      → let g = on_delete_app_resource client (deletion_of r) ac w in
        Stage client info left g.1.0 g.1.1
  left-Stage r y ys [] info ac w m e h =
      delete_resource-last laws accepts r (y ∷ ys) info ac w m e h
  left-Stage r y ys (x ∷ xs) info ac w m e h =
      delete_resource-more laws accepts r (y ∷ ys) info ac w x xs m e h

  step-Stage :
      (r : AppResource) (rs : List AppResource) (info : ApplicationInfo) (ac : ApplicationCache)
      (w : W)
      → Memᴰ r rs
      → Stage client info rs ac w
      → let g = on_delete_app_resource client (deletion_of r) ac w in
        Stage client info (remove_resource (deletion_of r) rs) g.1.0 g.1.1
  step-Stage r [] info ac w m s = elim m [ ]
  step-Stage r (y ∷ ys) info ac w m s =
      left-Stage r y ys (remove_resource (deletion_of r) (y ∷ ys)) info ac w m refl s

  released :
      (info : ApplicationInfo) (rs order : List AppResource) (ac : ApplicationCache) (w : W)
      → Order rs order
      → Stage client info rs ac w
      → let g = delete_all client order ac w in Released client info g.0 g.1
  unfolding delete_all
  released info rs order ac w all_deleted s = s
  released info rs order ac w (next {r} {order = rest} m o) s =
      let g = on_delete_app_resource client (deletion_of r) ac w in
      released info (remove_resource (deletion_of r) rs) rest g.1.0 g.1.1 o
        (step-Stage r rs info ac w m s)

pub delete_all-Released :
    {W : Type 0} {client : Client W} (laws : IsClient client) (accepts : Accepts client)
    (x : AppResource) (xs order : List AppResource) (info : ApplicationInfo) (ac : ApplicationCache)
    (w : W)
    → Order (x ∷ xs) order
    → Held client info (x ∷ xs) ac w
    → let g = delete_all client order ac w in Released client info g.0 g.1
delete_all-Released laws accepts x xs order info ac w o h =
    released laws accepts info (x ∷ xs) order ac w o h

-- An application with a resource is added to the cache; once the event of the deletion of each of its
-- resources has come, in whatever order, the API server has no application of its name with the
-- finalizer, and the cache has forgotten it. The keys of the resources differ, and the API server has
-- the application and takes what is written of it, as it does while nothing else writes it; it may
-- delete the application with the write that takes the finalizer away.
pub delete_all-add :
    {W : Type 0} {client : Client W} (laws : IsClient client) (accepts : Accepts client)
    (x : AppResource) (xs order : List AppResource) (app stored : Application)
    (ac : ApplicationCache) (w : W)
    → app.status.app_resources ≡ x ∷ xs
    → Apart (x ∷ xs)
    → client.get app.info w ≡ some stored
    → Order (x ∷ xs) order
    → let g = delete_all client order (add app ac) w in Released client app.info g.0 g.1
delete_all-add laws accepts x xs order app stored ac w these apart there o =
    delete_all-Released laws accepts x xs order app.info (add app ac) w o (record {
      stored = stored;
      stored_there = there;
      tracked =
          subst (λ rs. Tracked app.info rs (add app ac)) these
            (add-Tracked app ac (subst Apart (sym these) apart));
    })
