-- ===== src/Userquota/Quota.antt =====
-- pkg/types/userquota.go, and the helpers of pkg/handler/userquota_manager.go: a quota, its fields
-- that a request and an administrator set, and the test of a request's parameters. The parser of a
-- Kubernetes quantity is a parameter.
use Prim.Native.Char.{code}
use gao_cloud.Prelude.{
  ℕ, ◌+◌, Bool, ◌&&◌, ◌||◌, String, ◌==◌, List, [], ◌∷◌, if◌then◌else◌, ltb, leb, nat_eq,
}
use gao_cloud.Authorization.{administrator}

pub data QuotaStatus : Type 0 where
  processing approval rejection : QuotaStatus

pub data RequestType : Type 0 where
  type_create type_update : RequestType

pub record UserQuota : Type 0 where
  pub id : String
  pub creation_timestamp : ℕ
  pub name : String
  pub cluster_name : String
  pub namespace : String
  pub user_name : String
  pub cpu : String
  pub memory : String
  pub storage : String
  pub request_type : RequestType
  pub status : QuotaStatus
  pub purpose : String
  pub requestor : String
  pub telephone : String
  pub rejection_reason : String
  pub response_timestamp : ℕ

-- pkg/handler/user_manager.go
abbrev pub is_admin : String → Bool
is_admin user = user == administrator

unfoldable pub set_user_quota : UserQuota → String → RequestType → ℕ → UserQuota
set_user_quota q user_name request_type creation_timestamp = record q {
  name = q.namespace;
  id = q.namespace;
  creation_timestamp = creation_timestamp;
  status = processing;
  user_name = user_name;
  request_type = request_type;
}

unfoldable pub set_user_quota_by_admin : UserQuota → String → String → QuotaStatus → ℕ → UserQuota
set_user_quota_by_admin q cluster_name reason status now = record q {
  cluster_name = cluster_name;
  rejection_reason = reason;
  status = status;
  response_timestamp = now;
}

-- One character of the class `[-a-z0-9]`.
unfoldable pub is_namespace_char : ℕ → Bool
is_namespace_char c = nat_eq c b'-' || (leb b'a' c && leb c b'z') || (leb b'0' c && leb c b'9')

-- The characters of a text, by their numbers.
abbrev pub code_points : String → List ℕ
code_points String.[] = []
code_points (String.◌∷◌ first rest) = code first ∷ code_points rest

-- How many characters match, and how many bytes the text has in UTF-8.
unfoldable pub matches : List ℕ → ℕ
matches [] = 0
matches (c ∷ cs) = let rest = matches cs in if is_namespace_char c then rest + 1 else rest

unfoldable pub utf8_size : ℕ → ℕ
utf8_size c = if ltb c 0x80 then 1 else if ltb c 0x800 then 2 else if ltb c 0x10000 then 3 else 4

unfoldable pub bytes : List ℕ → ℕ
bytes [] = 0
bytes (c ∷ cs) = utf8_size c + bytes cs

unfoldable pub is_valid_namespace : String → Bool
unfolding matches bytes is_namespace_char utf8_size
is_valid_namespace s = nat_eq (matches (code_points s)) (bytes (code_points s))

unfoldable pub check_user_quota_params_valid : (String → Bool) → UserQuota → Bool
check_user_quota_params_valid is_quantity q =
    is_valid_namespace q.namespace
    && (is_quantity q.cpu && (is_quantity q.memory && is_quantity q.storage))
