-- ===== src/Kvzoo/Client/Refusal.antt =====
-- What a failed call does not do, and what the comparison of checksums tells.
use gao_cloud.Prelude.{
  ℕ, suc, ◌≡◌, ◌∙◌, sym, ap, inl, inr, refl, String, ◌==◌, eq_iff, List, [], ◌∷◌, arith, ok, err,
  Result-cases, Bool-cases, length,
}
use mathlib.Core.Path.{subst}
use gao_cloud.Kvzoo.Server.{KvDb, KvService, ServiceError, Served, get_checksum}
use gao_cloud.Kvzoo.Client.{
  Link, Net, Proxy, ProxyTx, up, down, reply_lost, db_failed, rpc, everywhere, through,
  checksum_slaves, checksum, begin_slaves,
}

module _ {V : Type 0} (kvdb : KvDb V) where
  -- A request that returns an error, from the master or from the link to it, has been sent to no
  -- slave.
  pub everywhere-refused :
      (net : Net kvdb) (f : KvService kvdb → Served kvdb (Unit {0})) (p : Proxy kvdb)
      {e : ServiceError}
      → (everywhere kvdb net f p).0 ≡ err e
      → (everywhere kvdb net f p).1.slaves ≡ p.slaves
  unfolding everywhere
  everywhere-refused net f p h = ground arith

  -- A request through a transaction that returns an error has been sent to no slave.
  pub through-refused :
      (net : Net kvdb) (op : ℕ → KvService kvdb → Served kvdb (Unit {0})) (tx : ProxyTx)
      (p : Proxy kvdb) {e : ServiceError}
      → (through kvdb net op tx p).0 ≡ err e
      → (through kvdb net op tx p).1.slaves ≡ p.slaves
  unfolding through
  through-refused net op tx p h = ground arith

  length-begin_slaves :
      (links : ℕ → Link kvdb) (i : ℕ) (name : String) (ss : List (KvService kvdb))
      → length (begin_slaves kvdb links i name ss).0 ≡ length ss
  unfolding begin_slaves
  length-begin_slaves links i name [] = refl
  length-begin_slaves links i name (s ∷ ss) =
      omega (arith, length-begin_slaves links (suc i) name ss)

  -- All of these servers have the checksum.
  abbrev pub AllSum : String → List (KvService kvdb) → Type 0
  AllSum cs [] = Unit
  AllSum cs (s ∷ ss) = (kvdb.checksum s.db ≡ ok cs) × AllSum cs ss

  -- An answer that came over a link is the server's.
  pub rpc-ok :
      {A : Type 0} (link : Link kvdb) (f : KvService kvdb → Served kvdb A) (s : KvService kvdb)
      {a : A}
      → (rpc kvdb link f s).0 ≡ ok a
      → ((f s).0 ≡ ok a) × ((rpc kvdb link f s).1 ≡ (f s).1)
  unfolding rpc
  rpc-ok up f s h = (h, refl)
  rpc-ok down f s h = cc h
  rpc-ok reply_lost f s h = cc h
  rpc-ok (db_failed e s') f s h = cc h

  get_checksum-ok :
      (s : KvService kvdb) {cs : String}
      → (get_checksum kvdb s).0 ≡ ok cs
      → kvdb.checksum s.db ≡ ok cs
  unfolding get_checksum
  get_checksum-ok s h = ground arith

  checksum_slaves-AllSum :
      (links : ℕ → Link kvdb) (i : ℕ) (cs : String) (ss : List (KvService kvdb)) {r : String}
      → checksum_slaves kvdb links i cs ss ≡ ok r
      → (r ≡ cs) × AllSum cs ss
  unfolding checksum_slaves
  checksum_slaves-AllSum links i cs [] h = (ground arith, tt)
  checksum_slaves-AllSum links i cs (s ∷ ss) {r = r} h =
      elim (Result-cases (rpc kvdb (links i) (get_checksum kvdb) s).0) [
        | inl (e, failed) ↦ cc (rw (failed, checksum_slaves) at h)
        | inr (other, answered) ↦ elim (Bool-cases (other == cs)) [
          | inl same ↦
              let rest =
                checksum_slaves-AllSum links (suc i) cs ss
                  (rw (answered, checksum_slaves, same) at h) in
              let own = get_checksum-ok s (rpc-ok (links i) (get_checksum kvdb) s answered).0 in
              (rest.0, (own ∙ ap ok ((eq_iff other cs).0 same), rest.1))
          | inr apart ↦ cc (rw (answered, checksum_slaves, apart) at h)
        ]
      ]

  -- A checksum that is answered is that of the master, and of every slave.
  pub checksum-AllSum :
      (net : Net kvdb) (p : Proxy kvdb) (cs : String)
      → checksum kvdb net p ≡ ok cs
      → (kvdb.checksum p.master.db ≡ ok cs) × AllSum cs p.slaves
  unfolding checksum
  checksum-AllSum net p cs h =
      elim (Result-cases (rpc kvdb net.to_master (get_checksum kvdb) p.master).0) [
        | inl (e, failed) ↦ cc (rw (failed, checksum) at h)
        | inr (own, answered) ↦
            let rest =
              checksum_slaves-AllSum net.to_slave 0 own p.slaves (rw (answered, checksum) at h) in
            let master =
              get_checksum-ok p.master
                (rpc-ok net.to_master (get_checksum kvdb) p.master answered).0 in
            (master ∙ ap ok (sym rest.0), subst (λ x. AllSum x p.slaves) (sym rest.0) rest.1)
      ]
