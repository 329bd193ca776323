-- ===== src/Application/Added.antt =====
-- application-operator/pkg/controller/applicationcache.go: the index of the resources after `Add`.
use mathlib.Core.Path.{subst}
use mathlib.Core.List.{Memᴰ}
use gao_cloud.Prelude.{◌≡◌, refl, sym, ◌∙◌, some, String, List, [], ◌∷◌, arith, eq_refl}
use gao_cloud.Application.{AppResource, ApplicationInfo, Application, ApplicationCache}
use gao_cloud.Application.Tables.{insert2, lookup2-insert2}
use gao_cloud.Application.Cache.{
  add, index_resources, gen_resource_id, get_app_resources, get_app_info,
}
use gao_cloud.Application.Index.{Apart, Tracked}

-- The cache with one resource more in its index.
abbrev indexed_one : ApplicationInfo → AppResource → ApplicationCache → ApplicationCache
indexed_one info r ac = record ac {
  ns_and_app_resources =
      insert2 r.namespace (gen_resource_id r.resource_type r.name) info ac.ns_and_app_resources;
}

index_resources-listed :
    (info other : ApplicationInfo) (rs : List AppResource) (ac : ApplicationCache)
    → get_app_resources (index_resources info rs ac) other ≡ get_app_resources ac other
unfolding index_resources get_app_resources
index_resources-listed info other [] ac = refl
index_resources-listed info other (r ∷ rs) ac =
    index_resources-listed info other rs (indexed_one info r ac)

index_resources-kept :
    (info : ApplicationInfo) (s : AppResource) (rs : List AppResource) (ac : ApplicationCache)
    → get_app_info ac s ≡ some info
    → get_app_info (index_resources info rs ac) s ≡ some info
unfolding index_resources get_app_info
index_resources-kept info s [] ac h = h
index_resources-kept info s (r ∷ rs) ac h = index_resources-kept info s rs (indexed_one info r ac) (
    ground (
      arith,
      h,
      lookup2-insert2 r.namespace (gen_resource_id r.resource_type r.name) s.namespace
          (gen_resource_id s.resource_type s.name) info ac.ns_and_app_resources,
    ))

index_resources-indexed :
    (info : ApplicationInfo) (s : AppResource) (rs : List AppResource) (ac : ApplicationCache)
    → Memᴰ s rs
    → get_app_info (index_resources info rs ac) s ≡ some info
unfolding index_resources get_app_info
index_resources-indexed info s [] ac m = elim m [ ]
index_resources-indexed info s (r ∷ rs) ac (Memᴰ.head e) =
    let id : String = gen_resource_id r.resource_type r.name in
    let here : get_app_info (indexed_one info r ac) r ≡ some info =
      lookup2-insert2 r.namespace id r.namespace id info ac.ns_and_app_resources
      ∙ ground (arith, eq_refl r.namespace, eq_refl id) in
    subst (λ x. get_app_info (index_resources info rs (indexed_one info r ac)) x ≡ some info)
      (sym e) (index_resources-kept info r rs (indexed_one info r ac) here)
index_resources-indexed info s (r ∷ rs) ac (Memᴰ.tail m) =
    index_resources-indexed info s rs (indexed_one info r ac) m

abbrev listed_one : Application → ApplicationCache → ApplicationCache
listed_one app ac = record ac {
  ns_and_applications =
      insert2 app.info.namespace app.info.name app.status.app_resources ac.ns_and_applications;
}

listed_one-listed :
    (app : Application) (ac : ApplicationCache)
    → get_app_resources (listed_one app ac) app.info ≡ some app.status.app_resources
unfolding get_app_resources
listed_one-listed app ac =
    lookup2-insert2 app.info.namespace app.info.name app.info.namespace app.info.name
      app.status.app_resources ac.ns_and_applications
    ∙ ground (arith, eq_refl app.info.namespace, eq_refl app.info.name)

-- An application that is added is tracked, with resources under different keys.
pub add-Tracked :
    (app : Application) (ac : ApplicationCache)
    → Apart app.status.app_resources
    → Tracked app.info app.status.app_resources (add app ac)
unfolding add
add-Tracked app ac apart = record {
  listed =
      index_resources-listed app.info app.info app.status.app_resources (listed_one app ac)
      ∙ listed_one-listed app ac;
  indexed =
      λ r m. index_resources-indexed app.info r app.status.app_resources (listed_one app ac) m;
  apart = apart;
}
