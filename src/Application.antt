-- ===== src/Application.antt =====
-- application-operator: the applications of a cluster, whose resources a controller creates, counts
-- and deletes. The API server is a parameter, by the client that reaches it; so is the decoder of
-- the manifests. The lock of the manager makes each event one step.
pub mod Tables
pub mod Cache
pub mod Install
pub mod Lifecycle
pub mod Own
pub mod Manager
pub mod Counting
pub mod Status
pub mod Scaled
pub mod Index
pub mod Added
pub mod Steps
pub mod Deletion
mod Examples
use gao_cloud.Prelude.{
  ℕ, String, Bool, true, false, not, ◌&&◌, Option, List, [], ◌∷◌, any, Map, nat_eq, leb,
}

-- application-operator/pkg/apis/app/v1beta1/application_types.go
pub record AppResource : Type 0 where
  pub namespace : String
  pub name : String
  pub resource_type : String
  pub exists : Bool
  pub replicas : ℕ
  pub ready_replicas : ℕ
  pub creation_timestamp : ℕ

pub data AppState : Type 0 where
  state_none state_create state_delete state_succeed state_failed : AppState

pub record Manifest : Type 0 where
  pub file : String
  pub content : String
  pub duplicate : Bool

pub record AppStatus : Type 0 where
  pub state : AppState
  pub workload_count : ℕ
  pub ready_workload_count : ℕ
  pub app_resources : List AppResource

pub record ApplicationInfo : Type 0 where
  pub namespace : String
  pub name : String

-- The finalizer of the controller is there or not; other finalizers are not read.
pub record Application : Type 0 where
  pub info : ApplicationInfo
  pub finalizer : Bool
  pub inject_service_mesh : Bool
  pub created_by_admin : Bool
  pub manifests : List Manifest
  pub crd_manifests : List Manifest
  pub status : AppStatus

-- The client of the API server in the state `W`: `none` is an error.
pub record Client (W : Type 0) : Type 0 where
  pub get : ApplicationInfo → W → Option Application
  pub update_status : Application → W → Option W
  pub update : Application → W → Option W

pub record ApplicationCache : Type 0 where
  pub ns_and_applications : Map (Map (List AppResource))
  pub ns_and_app_resources : Map (Map ApplicationInfo)

abbrev pub support_workload_types : List String
support_workload_types = "deployment" ∷ "daemonset" ∷ "statefulset" ∷ []

abbrev pub support_resource_types : List String
support_resource_types =
    "deployment" ∷ "daemonset" ∷ "statefulset" ∷ "cronjob" ∷ "job" ∷ "configmap" ∷ "secret"
    ∷ "service" ∷ "ingress" ∷ []
