-- ===== src/Kvzoo/Client.antt =====
-- kvzoo/client/proxy.go: a database on a master and its slaves. Each is a server (Kvzoo/Server), and
-- a call reaches it over a link that may be down, or may lose the answer of a call that was served, and
-- the database of one server may fail where those of the others do not.
-- The master decides the result; what a slave answers is only logged. The identifier -1 of a
-- transaction that a slave did not begin is `none`.
pub mod Refusal
pub mod Replication
pub mod Transaction
mod Examples
use gao_cloud.Prelude.{
  ℕ, zero, suc, ◌+◌, Bool, true, false, Option, none, some, String, ◌==◌, List, [], ◌∷◌, Result, ok,
  err, if◌then◌else◌,
}
use gao_cloud.Kvzoo.{KvError}
use gao_cloud.Kvzoo.Server
use gao_cloud.Kvzoo.Server.{
  KvDb, KvService, ServiceError, kv, unavailable, Served, begin_transaction, commit_transaction,
  rollback_transaction, open_table, drop_table, destroy_service, get_checksum,
}

pub data ProxyError : Type 0 where
  service : ServiceError → ProxyError
  slave_failed not_same : ProxyError

pub record ProxyTx : Type 0 where
  pub master_id : ℕ
  pub slave_ids : List (Option ℕ)

module _ {V : Type 0} (kvdb : KvDb V) where
  -- How one call of a server goes. In the last case the server is reached and its own database fails:
  -- it answers with the error, in whatever state that has left it.
  pub data Link : Type 0 where
    up down reply_lost : Link
    db_failed : KvError → KvService kvdb → Link

  -- The links of one operation: to the master, and to the slaves by their places.
  pub record Net : Type 0 where
    pub to_master : Link
    pub to_slave : ℕ → Link

  pub record Proxy : Type 0 where
    pub master : KvService kvdb
    pub slaves : List (KvService kvdb)

  -- A call over a link.
  unfoldable pub rpc :
      {A : Type 0} → Link → (KvService kvdb → Served kvdb A) → KvService kvdb → Served kvdb A
  rpc up f s = f s
  rpc down f s = (err unavailable, s)
  rpc reply_lost f s = (err unavailable, (f s).1)
  rpc (db_failed e s') f s = (err (kv e), s')

  -- A request to every slave, whose answers are logged.
  unfoldable pub each_slave :
      {A : Type 0}
      → (ℕ → Link)
      → ℕ
      → (KvService kvdb → Served kvdb A)
      → List (KvService kvdb)
      → List (KvService kvdb)
  unfolding rpc
  each_slave links i f [] = []
  each_slave links i f (s ∷ ss) = (rpc (links i) f s).1 ∷ each_slave links (suc i) f ss

  -- A request to the master, and where that succeeds to the slaves.
  unfoldable pub everywhere :
      Net
      → (KvService kvdb → Served kvdb (Unit {0}))
      → Proxy
      → Result ServiceError (Unit {0}) × Proxy
  unfolding each_slave
  everywhere net f p =
      let r : Served kvdb (Unit {0}) = rpc net.to_master f p.master in
      elim r.0 [
        | err e ↦ (err e, record p { master = r.1 })
        | ok u ↦ (ok tt, record { master = r.1; slaves = each_slave net.to_slave 0 f p.slaves })
      ]

  unfoldable pub create_or_get_table :
      (String → Bool) → Net → String → Proxy → Result ServiceError (Unit {0}) × Proxy
  unfolding everywhere open_table
  create_or_get_table is_table_name net name = everywhere net (open_table kvdb is_table_name name)

  unfoldable pub delete_table :
      (String → Bool) → Net → String → Proxy → Result ServiceError (Unit {0}) × Proxy
  unfolding everywhere drop_table
  delete_table is_table_name net name = everywhere net (drop_table kvdb is_table_name name)

  unfoldable pub destroy : Net → Proxy → Result ServiceError (Unit {0}) × Proxy
  unfolding everywhere destroy_service
  destroy net = everywhere net (destroy_service kvdb)

  unfoldable pub checksum_slaves :
      (ℕ → Link) → ℕ → String → List (KvService kvdb) → Result ProxyError String
  unfolding rpc get_checksum
  checksum_slaves links i cs [] = ok cs
  checksum_slaves links i cs (s ∷ ss) = elim (rpc (links i) (get_checksum kvdb) s).0 [
    | err e ↦ err slave_failed
    | ok other ↦ if other == cs then checksum_slaves links (suc i) cs ss else err not_same
  ]

  unfoldable pub checksum : Net → Proxy → Result ProxyError String
  unfolding rpc get_checksum checksum_slaves
  checksum net p = elim (rpc net.to_master (get_checksum kvdb) p.master).0 [
    | err e ↦ err (service e)
    | ok cs ↦ checksum_slaves net.to_slave 0 cs p.slaves
  ]

  abbrev pub id_of : Result ServiceError ℕ → Option ℕ
  id_of (ok id) = some id
  id_of (err e) = none

  -- The slaves' part of `Begin`: an identifier, or `none`, for each.
  unfoldable pub begin_slaves :
      (ℕ → Link) → ℕ → String → List (KvService kvdb) → List (Option ℕ) × List (KvService kvdb)
  unfolding rpc begin_transaction
  begin_slaves links i name [] = ([], [])
  begin_slaves links i name (s ∷ ss) =
      let r : Served kvdb ℕ = rpc (links i) (begin_transaction kvdb name) s in
      let rest : List (Option ℕ) × List (KvService kvdb) = begin_slaves links (suc i) name ss in
      (id_of r.0 ∷ rest.0, r.1 ∷ rest.1)

  unfoldable pub begin : Net → String → Proxy → Result ServiceError ProxyTx × Proxy
  unfolding rpc begin_transaction begin_slaves
  begin net name p =
      let r : Served kvdb ℕ = rpc net.to_master (begin_transaction kvdb name) p.master in
      elim r.0 [
        | err e ↦ (err e, record p { master = r.1 })
        | ok id ↦
            let rest : List (Option ℕ) × List (KvService kvdb) =
              begin_slaves net.to_slave 0 name p.slaves in
            (
              ok (record { master_id = id; slave_ids = rest.0 }),
              record { master = r.1; slaves = rest.1 },
            )
      ]

  -- A request through the transaction, to the slaves that began it. The identifiers are as many as
  -- the slaves.
  unfoldable pub through_slaves :
      {A : Type 0}
      → (ℕ → Link)
      → ℕ
      → (ℕ → KvService kvdb → Served kvdb A)
      → List (Option ℕ)
      → List (KvService kvdb)
      → List (KvService kvdb)
  unfolding rpc
  through_slaves links i op ids [] = []
  through_slaves links i op [] (s ∷ ss) = s ∷ ss
  through_slaves links i op (none ∷ ids) (s ∷ ss) = s ∷ through_slaves links (suc i) op ids ss
  through_slaves links i op (some id ∷ ids) (s ∷ ss) =
      (rpc (links i) (op id) s).1 ∷ through_slaves links (suc i) op ids ss

  unfoldable pub through :
      Net
      → (ℕ → KvService kvdb → Served kvdb (Unit {0}))
      → ProxyTx
      → Proxy
      → Result ServiceError (Unit {0}) × Proxy
  unfolding rpc through_slaves
  through net op tx p =
      let r : Served kvdb (Unit {0}) = rpc net.to_master (op tx.master_id) p.master in
      elim r.0 [
        | err e ↦ (err e, record p { master = r.1 })
        | ok u ↦ (
          ok tt,
          record { master = r.1; slaves = through_slaves net.to_slave 0 op tx.slave_ids p.slaves },
        )
      ]

  unfoldable pub commit : Net → ProxyTx → Proxy → Result ServiceError (Unit {0}) × Proxy
  unfolding through commit_transaction
  commit net = through net (commit_transaction kvdb)

  unfoldable pub rollback : Net → ProxyTx → Proxy → Result ServiceError (Unit {0}) × Proxy
  unfolding through rollback_transaction
  rollback net = through net (rollback_transaction kvdb)

  unfoldable pub add : Net → String → V → ProxyTx → Proxy → Result ServiceError (Unit {0}) × Proxy
  unfolding through Server.add
  add net key value = through net (Server.add kvdb key value)

  unfoldable pub delete : Net → String → ProxyTx → Proxy → Result ServiceError (Unit {0}) × Proxy
  unfolding through Server.delete
  delete net key = through net (Server.delete kvdb key)

  unfoldable pub update :
      Net → String → V → ProxyTx → Proxy → Result ServiceError (Unit {0}) × Proxy
  unfolding through Server.update
  update net key value = through net (Server.update kvdb key value)

  -- The reads ask the master alone.
  unfoldable pub get : Link → String → ProxyTx → Proxy → Result ServiceError V
  unfolding rpc Server.get
  get link key tx p = (rpc link (Server.get kvdb key tx.master_id) p.master).0

  unfoldable pub list_all : Link → ProxyTx → Proxy → Result ServiceError (List (String × V))
  unfolding rpc Server.list_all
  list_all link tx p = (rpc link (Server.list_all kvdb tx.master_id) p.master).0
