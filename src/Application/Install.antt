-- ===== src/Application/Install.antt =====
-- application-operator/pkg/controller/applicationcache.go: an application is created from its
-- manifests, and they are deleted again. The decoder of a manifest, which gives its objects in order
-- and whether it can be read to its end, and `strings.ToLower` are parameters; what the API server
-- answers for an object is the environment's.
use Prim.Native.String
use Prim.Native.Nat.{Ordering}
use gao_cloud.Prelude.{
  ◌+◌, Bool, true, false, not, ◌&&◌, ◌||◌, Option, none, some, is_some, String, ◌==◌, List, [], ◌∷◌,
  ◌++◌, any, if◌then◌else◌, Map, insert,
}
use gao_cloud.Application.{
  AppResource, Manifest, AppStatus, Application, ApplicationCache, support_workload_types,
  support_resource_types,
}
use gao_cloud.Application.Cache.{get_app_info}

-- A decoded object: `workload` when its Go type is that of a deployment, a daemon set or a stateful
-- set, whose template has the annotations, and `namespaced` by the scope that the API server gives its
-- kind, which the client asks for.
pub record Object : Type 0 where
  pub kind : String
  pub namespaced : Bool
  pub has_meta : Bool
  pub namespace : String
  pub name : String
  pub workload : Bool
  pub is_crd : Bool
  pub annotations : Map String

-- Where the API server puts an object: the client (gok8s/client/typed_client.go) leaves the namespace
-- of an object out whose kind is cluster-scoped.
abbrev pub place : Object → Option String
place obj = if obj.namespaced then some obj.namespace else none

pub data Answer : Type 0 where
  done already_exists not_found failed : Answer

pub record Env : Type 0 where
  pub objects_of : String → List Object × Bool
  pub to_lower : String → String
  pub creates : Object → Answer
  pub deletes : Object → Answer

abbrev pub ann_key_for_inject_service_mesh : String
ann_key_for_inject_service_mesh = "linkerd.io/inject"

unfoldable pub runtime_object_to_meta_object : Object → String → Bool → Option Object
runtime_object_to_meta_object obj namespace created_by_admin =
    if not obj.has_meta
    then none
    else if obj.namespace == ""
    then some (record obj { namespace = namespace })
    else if created_by_admin
    then some obj
    else none

abbrev pub one_of : String → List String → Bool
one_of typ types = any (λ t. t == typ) types

unfoldable pub inject_service_mesh_to_workload : String → Application → Object → Object
inject_service_mesh_to_workload typ app obj =
    if not (one_of typ support_workload_types) || not app.inject_service_mesh
    then obj
    else if obj.workload
    then record obj {
      annotations = insert ann_key_for_inject_service_mesh "enabled" obj.annotations;
    }
    else obj

-- The status of the application, whether the manifest at hand is a duplicate, and the objects that
-- the API server has made.
pub record Progress : Type 0 where
  pub status : AppStatus
  pub duplicate : Bool
  pub made : List Object

unfoldable pub made_object : String → Object → Progress → Progress
made_object typ obj p =
    let p' : Progress = record p { made = obj ∷ p.made } in
    if one_of typ support_resource_types
    then record p' {
      status = record p.status {
        workload_count =
            if one_of typ support_workload_types
            then p.status.workload_count + 1
            else p.status.workload_count;
        app_resources =
            p.status.app_resources
            ++ record {
              namespace = obj.namespace;
              name = obj.name;
              resource_type = typ;
              exists = true;
              replicas = 0;
              ready_replicas = 0;
              creation_timestamp = 0;
            }
              ∷ [];
      };
    }
    else p'

-- `sort.Sort` by the type and then the name.
unfoldable pub less : AppResource → AppResource → Bool
less r s = elim (String.compare r.resource_type s.resource_type) [
  | Ordering.lt ↦ true
  | Ordering.gt ↦ false
  | Ordering.eq ↦ elim (String.compare r.name s.name) [ Ordering.lt ↦ true | _ ↦ false ]
]

unfoldable pub insert_resource : AppResource → List AppResource → List AppResource
unfolding less
insert_resource r [] = r ∷ []
insert_resource r (s ∷ ss) =
    let rest = insert_resource r ss in if less s r then s ∷ rest else r ∷ s ∷ ss

unfoldable pub sort_resources : List AppResource → List AppResource
unfolding insert_resource
sort_resources [] = []
sort_resources (r ∷ rs) = insert_resource r (sort_resources rs)

module _ (env : Env) (app : Application) where
  unfoldable pub answered : String → Object → Progress → Answer → Progress × Bool
  unfolding made_object
  answered typ obj p done = (made_object typ obj p, true)
  answered typ obj p already_exists = (record p { duplicate = true }, false)
  answered typ obj p not_found = (p, false)
  answered typ obj p failed = (p, false)

  -- The function that `createAppResources` maps on the objects; the Boolean is false on an error.
  unfoldable pub create_object : Object → Progress → Progress × Bool
  unfolding runtime_object_to_meta_object inject_service_mesh_to_workload answered
  create_object obj p =
      elim (runtime_object_to_meta_object obj app.info.namespace app.created_by_admin) [
        | none ↦ (p, false)
        | some obj' ↦
            let typ : String = env.to_lower obj.kind in
            let obj'' : Object = inject_service_mesh_to_workload typ app obj' in
            answered typ obj'' p (env.creates obj'')
      ]

  unfoldable pub create_objects : List Object → Bool → Progress → Progress × Bool
  unfolding create_object
  create_objects [] readable p = (p, readable)
  create_objects (obj ∷ rest) readable p =
      let r : Progress × Bool = create_object obj p in
      let next : Progress × Bool = create_objects rest readable r.0 in if r.1 then next else r

  -- The loop over the manifests, which ends at the first error.
  unfoldable pub create_manifests : List Manifest → Progress → List Manifest × (Progress × Bool)
  unfolding create_objects
  create_manifests [] p = ([], (p, true))
  create_manifests (m ∷ ms) p =
      let objs : List Object × Bool = env.objects_of m.content in
      let r : Progress × Bool =
        create_objects objs.0 objs.1 (record p { duplicate = m.duplicate }) in
      let m' : Manifest = record m { duplicate = r.0.duplicate } in
      let next : List Manifest × (Progress × Bool) = create_manifests ms r.0 in
      if r.1 then (m' ∷ next.0, next.1) else (m' ∷ ms, r)

  -- `createAppResources`: the application, the objects made, and whether there was no error.
  unfoldable pub create_app_resources : Application × (List Object × Bool)
  unfolding create_manifests sort_resources
  create_app_resources =
      let r : List Manifest × (Progress × Bool) =
        create_manifests app.manifests
          (record { status = app.status; duplicate = false; made = [] }) in
      let s : AppStatus = r.1.0.status in
      let s' : AppStatus =
        if r.1.1 then record s { app_resources = sort_resources s.app_resources } else s in
      (record app { manifests = r.0; status = s' }, (r.1.0.made, r.1.1))

  -- The function that `deleteAppResources` maps on the objects: a resource that is not in the cache
  -- is passed over.
  unfoldable pub delete_object : ApplicationCache → Object → Bool
  unfolding runtime_object_to_meta_object get_app_info
  delete_object ac obj = elim (runtime_object_to_meta_object obj app.info.namespace true) [
    | none ↦ false
    | some obj' ↦
        let typ : String = env.to_lower obj.kind in
        let r : AppResource = record {
          namespace = obj'.namespace;
          name = obj'.name;
          resource_type = typ;
          exists = false;
          replicas = 0;
          ready_replicas = 0;
          creation_timestamp = 0;
        } in
        if one_of typ support_resource_types && not (is_some (get_app_info ac r))
        then true
        else (elim (env.deletes obj') [ done ↦ true | not_found ↦ true | _ ↦ false ])
  ]

  unfoldable pub delete_objects : ApplicationCache → List Object → Bool → Bool
  unfolding delete_object
  delete_objects ac [] readable = readable
  delete_objects ac (obj ∷ rest) readable = delete_object ac obj && delete_objects ac rest readable

  unfoldable pub delete_manifests : ApplicationCache → List Manifest → Bool
  unfolding delete_objects
  delete_manifests ac [] = true
  delete_manifests ac (m ∷ ms) =
      let objs : List Object × Bool = env.objects_of m.content in
      (m.duplicate || delete_objects ac objs.0 objs.1) && delete_manifests ac ms

  -- `deleteAppResources`
  unfoldable pub delete_app_resources : ApplicationCache → Bool
  unfolding delete_manifests
  delete_app_resources ac = delete_manifests ac app.manifests
