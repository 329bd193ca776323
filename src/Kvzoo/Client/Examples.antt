-- ===== src/Kvzoo/Client/Examples.antt =====
-- A master and two slaves over a small database in memory, one table of which is open.
use gao_cloud.Prelude.{
  ℕ, refl, true, String, some, none, List, [], ◌∷◌, arith, ok, err, Result, Map, lookup, insert,
  remove,
}
use gao_cloud.Samples.{all_fine}
use gao_cloud.Kvzoo
use gao_cloud.Kvzoo.{KvError, begin_failed, duplicate}
use gao_cloud.Kvzoo.Server
use gao_cloud.Kvzoo.Server.{
  KvDb, KvService, ServiceError, kv, find_tx, begin_transaction, commit_transaction, with_tx,
}
use gao_cloud.Kvzoo.Server.Requests.{begins, commits, adds, serve_all}
use gao_cloud.Kvzoo.Server.Transactions.{IsService, serve_all-IsService}
use gao_cloud.Kvzoo.Client
use gao_cloud.Kvzoo.Client.{
  Link, Net, Proxy, ProxyTx, up, down, reply_lost, rpc, through, through_slaves, begin,
  begin_slaves, commit, checksum, checksum_slaves,
}
use gao_cloud.Kvzoo.Client.Transaction.{
  Write, transaction, send, send_all, IsReplicated, transaction-IsReplicated,
}

-- The name of the first table stands for the checksum.
abbrev sum_of : Map (Map ℕ) → String
sum_of [] = ""
sum_of (table ∷ tables) = table.0

abbrev begin_in : String → Map (Map ℕ) → Result KvError (String × Map ℕ)
begin_in name db = elim (lookup name db) [ none ↦ err begin_failed | some t ↦ ok (name, t) ]

abbrev change_in :
    (Map ℕ → Result KvError (Map ℕ)) → String × Map ℕ → Result KvError (String × Map ℕ)
change_in change tx = elim (change tx.1) [ err e ↦ err e | ok t ↦ ok (tx.0, t) ]

abbrev kvdb : KvDb ℕ
kvdb = record {
  Db = Map (Map ℕ);
  Tx = String × Map ℕ;
  create_or_get_table = λ name db. ok (insert name [] db);
  delete_table = λ name db. ok (remove name db);
  checksum = λ db. ok (sum_of db);
  close = ok;
  destroy = λ db. ok [];
  begin = begin_in;
  tx_commit = λ tx db. ok (insert tx.0 tx.1 db);
  tx_rollback = λ tx db. ok db;
  tx_add = λ key value. change_in (Kvzoo.add all_fine key value);
  tx_delete = λ key. change_in (Kvzoo.delete all_fine key);
  tx_update = λ key value. change_in (Kvzoo.update all_fine key value);
  tx_get = λ key tx. Kvzoo.get key tx.1;
  tx_list = λ tx. ok tx.1;
}

-- The table `/users` with one entry; the number of transactions begun is the server's own.
abbrev server : ℕ → KvService kvdb
server n = record {
  db = ("/users", ("alice", 1) ∷ []) ∷ [];
  next_tx_id = n;
  opened_tables = "/users" ∷ [];
  opened_txs = [];
}

abbrev busy : KvService kvdb
busy = record (server 4) { opened_txs = (4, ("/users", ("bob", 2) ∷ [])) ∷ [] }

abbrev three : Proxy kvdb
three = record { master = server 4; slaves = server 7 ∷ server 0 ∷ [] }

abbrev net : Net kvdb
net = record { to_master = up; to_slave = λ k. up }

abbrev writes : List (Write ℕ)
writes = Write.adds "bob" 2 ∷ Write.updates "alice" 3 ∷ []

serve_all-IsService_example :
    IsService kvdb
      (λ name. true)
      (serve_all kvdb (λ name. true) (begins "/users" ∷ adds "bob" 2 5 ∷ commits 4 ∷ []) busy)
serve_all-IsService_example =
    serve_all-IsService kvdb (λ name. true) (begins "/users" ∷ adds "bob" 2 5 ∷ commits 4 ∷ []) busy
      (record { given = (omega arith, tt); bounded = omega arith })

-- The server after the commit of its transaction 4, and a new one.
abbrev later : KvService kvdb
later = serve_all kvdb (λ name. true) (begins "/users" ∷ []) (commit_transaction kvdb 4 busy).1

transaction-IsReplicated_example :
    IsReplicated kvdb net (transaction kvdb net "/users" writes three).1
unfolding find_tx Server.set_tx Server.remove_tx with_tx rpc through through_slaves begin
    begin_slaves commit begin_transaction commit_transaction transaction send send_all Server.add
    Server.update Client.add Client.update lookup insert Kvzoo.add Kvzoo.update
transaction-IsReplicated_example =
    transaction-IsReplicated kvdb net (λ k. refl) "/users" writes three
      (
        record { has_db = refl; is_open = refl; has_room = omega arith },
        (record { has_db = refl; is_open = refl; has_room = omega arith }, tt),
      )
      refl
