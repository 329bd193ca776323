-- ===== src/Lib.antt =====
-- GaoCloud: a platform that sets up and serves Kubernetes clusters. This library models the parts of
-- it that keep state of their own, and proves what they promise.
--
-- The parts and their files
--   Window           the bounded list of numbered items that pkg/k8seventwatcher/eventwatcher.go and
--                    pkg/zke/zkelog/log_manager.go both keep: `add`, the two walks that look an item
--                    up (`from_outdated` is getEventsFromOutdated and getLogsFromOutdated, and so
--                    on), and the loop that serves a listener (`publish`). Numbers are 64 bits wide.
--   K8seventwatcher  pkg/k8seventwatcher/eventwatcher.go over Window, and watchermanager.go in
--                    K8seventwatcher/Manager.
--   Zkelog           pkg/zke/zkelog/log_manager.go over Window, and the map of the logs.
--   Kvzoo            kvzoo/db.go, the contract of a table, kvzoo/backend/bolt/bolt.go in Kvzoo/Bolt
--                    over a bucket of bbolt, kvzoo/server/service.go in Kvzoo/Server, and
--                    kvzoo/client/proxy.go, a master and its slaves, in Kvzoo/Client.
--   Alarm            pkg/alarm: the alarms in memory and in their table, their listeners, and in
--                    Alarm/Sources the events that add and remove them.
--   Auditlog         pkg/auditlog: the bounded table of what users did.
--   Authorization    pkg/authorization: the users in memory and in the table, and `Authorize`.
--   Authentication   pkg/authentication: users and passwords, tokens, sessions.
--   Zke              pkg/zke: Fsm is the table of fsm.go, Store is db.go and the manager's state,
--                    Cluster is cluster.go with the callbacks of fsm.go, Manager is manager.go, Validation
--                    is validation.go and validation_util.go, Config is zke.go and ToScCluster,
--                    and Setup puts the two into the manager.
--   Userquota        pkg/handler/userquota_manager.go and pkg/types/userquota.go: Quota has the data,
--                    Handlers the user's requests, Admin the administrator's.
--   Globaldns        pkg/globaldns: Proxy is proxy.go, Syncer is the domains and edge nodes of one
--                    cluster (clusterdnssyncer.go), Manager the map of the clusters (globaldns.go).
--   Application      application-operator: Cache is the resources in memory and the status
--                    (applicationcache.go), Install and Lifecycle its creation and deletion of an
--                    application, Manager is applicationmanager.go.
--   Prelude          lists, tests, maps, sorting, checks and results that the parts share; Samples
--                    has data of the examples.
--
-- How they interact. The manager of the clusters calls the logs and the table, and its goroutines
-- end in an event of the state machine, whose callback changes the cluster, the table, the logs and
-- what is published. A quota's approval changes its table, the users and, by calls, a cluster. The
-- end of a cluster takes its alarms away. All tables are of one database, which the client of Kvzoo
-- keeps on several servers; a server answers each request of a client in one step. The global DNS
-- follows the bus's clusters and their Kubernetes events, and sends commands to one DNS server. The
-- operator runs in a cluster, and keeps its state in the API server and in memory.
--
-- How the code is read. A method that holds a lock is one step; calls come one after the other, and
-- the end of a deletion of a cluster, which gives the lock back in between, is two steps. A
-- Go map, and a table, is an association list (Prelude/Maps). An error is a value of a `Result` or
-- an `Option`. A transaction is given its `Faults`, which say whether the database begins, writes
-- and commits. A list node is the suffix of the list that starts at it, and a read through nil is
-- `none`. Sending to a closed listener and its stop are not modelled: a listener reads all that it
-- is sent.
--
-- Parameters. cement/fsm (`FsmLib`, whose documented behaviour is `IsFsm`), bbolt (`Bbolt`, whose
-- documented behaviour is its two laws), the database under a server (`KvDb`), the engine's run
-- (`Run`), the checks and the configuration that the manager calls (`Hooks`), the parsers of
-- addresses (`Parsers`), `strconv.FormatUint` (`uint_to_str`, which gives two numbers two texts:
-- `IsFormat`), jwt-go (`JwtLib`, whose documented behaviour is `IsJwt`), the DNS server
-- (`DnsServer`, whose documented behaviour is `CarriesOut`) and the domain names of g53 (`NameLib`),
-- the client of the API server (`Client`, whose documented behaviour is `IsClient` and `Accepts`),
-- what Kubernetes answers and what time it is (the types `Env`), and whether a server is reached and
-- its own database does not fail (`Link`). `Accepts` lets the API server delete an application with
-- the write that takes its finalizer away. `CarriesOut` is about commands for zones that the DNS
-- server has: it refuses a record of another zone.
--
-- Fuel. `publish` takes one round of fuel for each batch, and one for the round that sends nothing;
-- more fuel than there are pending entries is always enough. The wait for custom resource
-- definitions makes the thirty tries of the source.
--
-- Not modelled: the Kubernetes objects and their translation in pkg/handler, mails and network
-- services, the libraries of cement, gorest and gok8s, and everything that is I/O alone.
pub mod Prelude
mod Samples
pub mod Auditlog
pub mod Alarm
pub mod Window
pub mod Application
pub mod Globaldns
pub mod K8seventwatcher
pub mod Zkelog
pub mod Kvzoo
pub mod Authorization
pub mod Authentication
pub mod Zke
pub mod Userquota
