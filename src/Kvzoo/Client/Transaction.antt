-- ===== src/Kvzoo/Client/Transaction.antt =====
-- A whole transaction through the client, as its users write it: `Begin`, the writes, and `Commit`
-- when they all succeed, else the deferred `Rollback`. The deferred call after a commit finds no
-- transaction, and is left out.
use gao_cloud.Prelude.{
  ℕ, ◌≡◌, sym, inl, inr, refl, String, List, [], ◌∷◌, ok, err, Result, Result-cases,
}
use mathlib.Core.Path.{subst}
use gao_cloud.Kvzoo.{KvError}
use gao_cloud.Kvzoo.Server
use gao_cloud.Kvzoo.Server.{
  KvDb, KvService, ServiceError, Served, with_tx, begin_transaction, commit_transaction,
}
use gao_cloud.Kvzoo.Client
use gao_cloud.Kvzoo.Client.{
  Link, Net, Proxy, ProxyTx, up, rpc, through, through_slaves, begin, begin_slaves, commit,
  rollback,
}
use gao_cloud.Kvzoo.Client.Refusal.{rpc-ok}
use gao_cloud.Kvzoo.Client.Replication.{
  AllMirror, AllSame, AllCanBegin, begin_transaction-Began, begin_slaves-AllMirror,
  through_slaves-Mirror, commit_slaves-AllSame,
}

pub data Write (V : Type 0) : Type 0 where
  adds updates : String → V → Write V
  deletes : String → Write V

module _ {V : Type 0} (kvdb : KvDb V) (net : Net kvdb) where
  unfoldable pub send : Write V → ProxyTx → Proxy kvdb → Result ServiceError (Unit {0}) × Proxy kvdb
  unfolding Client.add Client.update Client.delete
  send (adds key value) = Client.add kvdb net key value
  send (updates key value) = Client.update kvdb net key value
  send (deletes key) = Client.delete kvdb net key

  unfoldable pub send_all :
      List (Write V) → ProxyTx → Proxy kvdb → Result ServiceError (Unit {0}) × Proxy kvdb
  send_all [] tx p = (ok tt, p)
  send_all (w ∷ ws) tx p =
      let r : Result ServiceError (Unit {0}) × Proxy kvdb = send w tx p in
      elim r.0 [ err e ↦ (err e, r.1) | ok u ↦ send_all ws tx r.1 ]

  unfoldable pub transaction :
      String → List (Write V) → Proxy kvdb → Result ServiceError (Unit {0}) × Proxy kvdb
  unfolding begin commit rollback
  transaction name ws p =
      let b : Result ServiceError ProxyTx × Proxy kvdb = begin kvdb net name p in
      elim b.0 [
        | err e ↦ (err e, b.1)
        | ok tx ↦
            let r : Result ServiceError (Unit {0}) × Proxy kvdb = send_all ws tx b.1 in
            elim r.0 [
              | err e ↦ (err e, (rollback kvdb net tx r.1).1)
              | ok u ↦ commit kvdb net tx r.1
            ]
      ]

  -- The transaction of the client is the same one on the master and on every slave.
  -- Every slave has the data of the master.
  abbrev pub IsReplicated : Proxy kvdb → Type 0
  IsReplicated p = AllSame kvdb p.master.db p.slaves

  abbrev pub IsPaired : ProxyTx → Proxy kvdb → Type 0
  IsPaired tx p = AllMirror kvdb tx.master_id p.master tx.slave_ids p.slaves

  through-ok :
      (op : ℕ → KvService kvdb → Served kvdb (Unit {0})) (tx : ProxyTx) (p : Proxy kvdb)
      → (through kvdb net op tx p).0 ≡ ok tt
      → ((op tx.master_id p.master).0 ≡ ok tt)
        × ((through kvdb net op tx p).1 ≡ record {
          master = (op tx.master_id p.master).1;
          slaves = through_slaves kvdb net.to_slave 0 op tx.slave_ids p.slaves;
        })
  unfolding through
  through-ok op tx p h = elim (Result-cases (rpc kvdb net.to_master (op tx.master_id) p.master).0) [
    | inl (e, failed) ↦ cc (rw (failed, through) at h)
    | inr (u, done) ↦
        let r = rpc-ok kvdb net.to_master (op tx.master_id) p.master done in
        (r.0, rw (done, through, r.1) refl)
  ]

  module _ (reach : (k : ℕ) → net.to_slave k ≡ up) where
    with_tx-IsPaired :
        (change : kvdb.Tx → Result KvError kvdb.Tx) (tx : ProxyTx) (p : Proxy kvdb)
        → IsPaired tx p
        → (through kvdb net (with_tx kvdb change) tx p).0 ≡ ok tt
        → IsPaired tx (through kvdb net (with_tx kvdb change) tx p).1
    with_tx-IsPaired change tx p h done =
        let r = through-ok (with_tx kvdb change) tx p done in
        subst (IsPaired tx) (sym r.1) (
          through_slaves-Mirror kvdb net.to_slave 0 change tx.master_id p.master tx.slave_ids
            p.slaves reach h r.0)

    send-IsPaired :
        (w : Write V) (tx : ProxyTx) (p : Proxy kvdb)
        → IsPaired tx p
        → (send w tx p).0 ≡ ok tt
        → IsPaired tx (send w tx p).1
    unfolding send Client.add Client.update Client.delete Server.add Server.update Server.delete
    send-IsPaired (adds key value) = with_tx-IsPaired (kvdb.tx_add key value)
    send-IsPaired (updates key value) = with_tx-IsPaired (kvdb.tx_update key value)
    send-IsPaired (deletes key) = with_tx-IsPaired (kvdb.tx_delete key)

    send_all-IsPaired :
        (ws : List (Write V)) (tx : ProxyTx) (p : Proxy kvdb)
        → IsPaired tx p
        → (send_all ws tx p).0 ≡ ok tt
        → IsPaired tx (send_all ws tx p).1
    unfolding send_all
    send_all-IsPaired [] tx p h done = h
    send_all-IsPaired (w ∷ ws) tx p h done = elim (Result-cases (send w tx p).0) [
      | inl (e, failed) ↦ cc (rw (failed, send_all) at done)
      | inr (tt, wrote) ↦
          rw (wrote, send_all)
            (send_all-IsPaired ws tx (send w tx p).1 (send-IsPaired w tx p h wrote)
              (rw (wrote, send_all) at done))
    ]

    commit-IsReplicated :
        (tx : ProxyTx) (p : Proxy kvdb)
        → IsPaired tx p
        → (commit kvdb net tx p).0 ≡ ok tt
        → IsReplicated (commit kvdb net tx p).1
    unfolding commit
    commit-IsReplicated tx p h done =
        let r = through-ok (commit_transaction kvdb) tx p done in
        subst IsReplicated (sym r.1) (
          commit_slaves-AllSame kvdb net.to_slave 0 tx.master_id p.master tx.slave_ids p.slaves
            reach h r.0)

    begin-IsPaired :
        (name : String) (p : Proxy kvdb) (tx : ProxyTx)
        → AllCanBegin kvdb name p.master.db p.slaves
        → (begin kvdb net name p).0 ≡ ok tx
        → IsPaired tx (begin kvdb net name p).1
    unfolding begin
    begin-IsPaired name p tx h done =
        elim (Result-cases (rpc kvdb net.to_master (begin_transaction kvdb name) p.master).0) [
          | inl (e, failed) ↦ cc (rw (failed, begin) at done)
          | inr (mid, begun) ↦
              let r = rpc-ok kvdb net.to_master (begin_transaction kvdb name) p.master begun in
              let opened : ProxyTx = record {
                master_id = mid;
                slave_ids = (begin_slaves kvdb net.to_slave 0 name p.slaves).0;
              } in
              let same : opened ≡ tx = cc (rw (begun, begin) at done) in
              rw (begun, begin, r.1)
                (subst
                  (λ t.
                    AllMirror kvdb t.master_id (begin_transaction kvdb name p.master).1 t.slave_ids
                      (begin_slaves kvdb net.to_slave 0 name p.slaves).1)
                  same
                  (begin_slaves-AllMirror kvdb net.to_slave 0 name p.master mid p.slaves reach
                    (begin_transaction-Began kvdb name p.master r.0) h))
        ]

    -- A transaction that returns no error leaves every slave with the data of the master, where the
    -- slaves have the master's data before it, have the table open and room for a transaction, and
    -- where none of the calls to a slave is lost or meets a failure of the slave's own database. No link to the master changes within the transaction.
    pub transaction-IsReplicated :
        (name : String) (ws : List (Write V)) (p : Proxy kvdb)
        → AllCanBegin kvdb name p.master.db p.slaves
        → (transaction name ws p).0 ≡ ok tt
        → IsReplicated (transaction name ws p).1
    unfolding transaction
    transaction-IsReplicated name ws p h done = elim (Result-cases (begin kvdb net name p).0) [
      | inl (e, failed) ↦ cc (rw (failed, transaction) at done)
      | inr (tx, begun) ↦ elim (Result-cases (send_all ws tx (begin kvdb net name p).1).0) [
        | inl (e, failed) ↦ cc (rw (begun, transaction, failed) at done)
        | inr (tt, wrote) ↦
            rw (begun, transaction, wrote)
              (commit-IsReplicated tx (send_all ws tx (begin kvdb net name p).1).1
                (send_all-IsPaired ws tx (begin kvdb net name p).1
                  (begin-IsPaired name p tx h begun) wrote)
                (rw (begun, transaction, wrote) at done))
      ]
    ]
