-- ===== src/Kvzoo/Server/Table.antt =====
-- The map of a server's open transactions, as a list of pairs.
use gao_cloud.Prelude.{
  ℕ, ◌≤◌, ◌<◌, ◌≡◌, inl, inr, refl, false, none, some, List, [], ◌∷◌, arith, length, nat_eq,
  if◌then◌else◌, Bool-cases,
}
use gao_cloud.Kvzoo.Server.{find_tx, remove_tx, set_tx}

module _ {Tx : Type 0} where
  -- The open numbers are at most `n`.
  abbrev pub UpTo : ℕ → List (ℕ × Tx) → Type 0
  UpTo n [] = Unit
  UpTo n (entry ∷ txs) = (entry.0 ≤ n) × UpTo n txs

  pub UpTo-weaken : (m n : ℕ) (txs : List (ℕ × Tx)) → m ≤ n → UpTo m txs → UpTo n txs
  UpTo-weaken m n [] p h = tt
  UpTo-weaken m n (entry ∷ txs) p h = (omega (arith, h.0), UpTo-weaken m n txs p h.1)

  pub UpTo-remove_tx : (n id : ℕ) (txs : List (ℕ × Tx)) → UpTo n txs → UpTo n (remove_tx id txs)
  unfolding remove_tx
  UpTo-remove_tx n id [] h = tt
  UpTo-remove_tx n id (entry ∷ txs) h = elim (Bool-cases (nat_eq entry.0 id)) [
    | inl hit ↦ rw hit (UpTo-remove_tx n id txs h.1)
    | inr miss ↦ rw miss (h.0, UpTo-remove_tx n id txs h.1)
  ]

  pub UpTo-set_tx :
      (n id : ℕ) (tx : Tx) (txs : List (ℕ × Tx)) → UpTo n txs → UpTo n (set_tx id tx txs)
  unfolding set_tx
  UpTo-set_tx n id tx [] h = tt
  UpTo-set_tx n id tx (entry ∷ txs) h = elim (Bool-cases (nat_eq entry.0 id)) [
    | inl hit ↦ rw hit (ground (arith, hit, h.0), UpTo-set_tx n id tx txs h.1)
    | inr miss ↦ rw miss (h.0, UpTo-set_tx n id tx txs h.1)
  ]

  pub length-remove_tx : (id : ℕ) (txs : List (ℕ × Tx)) → length (remove_tx id txs) ≤ length txs
  unfolding remove_tx
  length-remove_tx id [] = omega arith
  length-remove_tx id (entry ∷ txs) = ground (arith, length-remove_tx id txs)

  pub length-set_tx :
      (id : ℕ) (tx : Tx) (txs : List (ℕ × Tx)) → length (set_tx id tx txs) ≡ length txs
  unfolding set_tx
  length-set_tx id tx [] = refl
  length-set_tx id tx (entry ∷ txs) = ground (arith, length-set_tx id tx txs)

  pub find_tx-UpTo : (n id : ℕ) (txs : List (ℕ × Tx)) → UpTo n txs → n < id → find_tx id txs ≡ none
  unfolding find_tx
  find_tx-UpTo n id [] h p = refl
  find_tx-UpTo n id (entry ∷ txs) h p = ground (arith, find_tx-UpTo n id txs h.1 p, h.0)

  pub find_tx-remove_tx :
      (id other : ℕ) (txs : List (ℕ × Tx))
      → find_tx other (remove_tx id txs) ≡ (if nat_eq id other then none else find_tx other txs)
  unfolding find_tx remove_tx
  find_tx-remove_tx id other [] = ground arith
  find_tx-remove_tx id other (entry ∷ txs) = ground (arith, find_tx-remove_tx id other txs)

  pub find_tx-set_tx_other :
      (id other : ℕ) (tx : Tx) (txs : List (ℕ × Tx))
      → nat_eq id other ≡ false
      → find_tx other (set_tx id tx txs) ≡ find_tx other txs
  unfolding find_tx set_tx
  find_tx-set_tx_other id other tx [] h = refl
  find_tx-set_tx_other id other tx (entry ∷ txs) h =
      ground (arith, find_tx-set_tx_other id other tx txs h)

  pub find_tx-set_tx :
      (id : ℕ) (tx : Tx) (txs : List (ℕ × Tx)) {old : Tx}
      → find_tx id txs ≡ some old
      → find_tx id (set_tx id tx txs) ≡ some tx
  unfolding find_tx set_tx
  find_tx-set_tx id tx [] h = cc h
  find_tx-set_tx id tx (entry ∷ txs) {old = old} h =
      ground (arith, find_tx-set_tx id tx txs {old = old})

  -- A write keeps what is open.
  pub none-set_tx :
      (id other : ℕ) (tx : Tx) (txs : List (ℕ × Tx))
      → find_tx other txs ≡ none
      → find_tx other (set_tx id tx txs) ≡ none
  unfolding find_tx set_tx
  none-set_tx id other tx [] h = refl
  none-set_tx id other tx (entry ∷ txs) h = ground (arith, none-set_tx id other tx txs)
