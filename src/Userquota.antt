-- ===== src/Userquota.antt =====
-- pkg/handler/userquota_manager.go: the requests of users for a namespace with a quota, which an
-- administrator approves or rejects. The state is the table of the quotas, the authorizer's users,
-- and the calls that change the cluster, in order.
pub mod Quota
pub mod Namespaces
pub mod Handlers
pub mod Admin
pub mod Lifecycle
pub mod Compensation
mod Examples
