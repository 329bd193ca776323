-- ===== src/Window.antt =====
-- The bounded list of numbered items that pkg/k8seventwatcher/eventwatcher.go and
-- pkg/zke/zkelog/log_manager.go both keep: their code is the same but for the names and the type
-- of an item. A list node is the suffix of the list that starts at it, `nil` is `[]`, and `none`
-- stands for the panic of a read through `nil`.
pub mod Numbered
pub mod Lookup
pub mod Publish
pub mod Delivery
pub mod History
mod Examples
use mathlib.Core.List.{reverse}
use gao_cloud.Prelude.{
  ℕ, zero, suc, ◌+◌, ◌-◌, ◌%◌, ◌^◌, Option, none, some, List, [], ◌∷◌, ◌++◌, map, length, take,
  head?, last?, leb, ltb, nat_eq, if◌then◌else◌, Bool,
}

abbrev pub u64 : ℕ
u64 = 2 ^ 64

-- `uint64` addition and subtraction.
abbrev pub add64 : ℕ → ℕ → ℕ
add64 a b = (a + b) % u64

abbrev pub sub64 : ℕ → ℕ → ℕ
sub64 a b = (a + u64 - b) % u64

pub record Entry (A : Type 0) : Type 0 where
  pub id : ℕ
  pub content : A

pub record Watcher (A : Type 0) : Type 0 where
  pub last_id : ℕ
  pub max_size : ℕ
  pub entries : List (Entry A)

module _ {A : Type 0} where
  -- `if Len() > maxSize { Remove(Front()) }`
  unfoldable pub trim : ℕ → List (Entry A) → List (Entry A)
  trim size [] = []
  trim size (e ∷ es) = if ltb size (length (e ∷ es)) then es else e ∷ es

  unfoldable pub add : Watcher A → A → Watcher A
  add w a =
      let id : ℕ = add64 w.last_id 1 in
      record w {
        last_id = id;
        entries = trim w.max_size (w.entries ++ record { id = id; content = a } ∷ []);
      }

  -- The walk from the front: `for elem.id <= id { elem = elem.Next() }`.
  unfoldable pub skip_to : ℕ → List (Entry A) → Option (List (Entry A))
  skip_to id [] = none
  skip_to id (e ∷ es) = if leb e.id id then skip_to id es else some (e ∷ es)

  -- The walk from the back, over the reversed list: `for elem.id > id { elem = elem.Prev() }`, and
  -- then `Next()`. The accumulator is what follows the present node.
  unfoldable pub back_to : ℕ → List (Entry A) → List (Entry A) → Option (List (Entry A))
  back_to id [] after = none
  back_to id (e ∷ es) after = if ltb id e.id then back_to id es (e ∷ after) else some after

  -- The last number and the items of a batch; `ec-1` is an `int` that becomes a `uint64`.
  unfoldable pub from_elem : ℕ → List (Entry A) → Option (ℕ × List A)
  from_elem batch [] = none
  from_elem batch (e ∷ es) =
      let taken : List (Entry A) = take batch (e ∷ es) in
      some (add64 e.id (sub64 (length taken) 1), map (λ x. x.content) taken)

  unfoldable pub from_outdated : ℕ → ℕ → List (Entry A) → Option (ℕ × List A)
  from_outdated id batch es = elim (skip_to id es) [
    | none ↦ none
    | some rest ↦ from_elem batch rest
  ]

  unfoldable pub from_latest : ℕ → ℕ → List (Entry A) → Option (ℕ × List A)
  from_latest id batch es = elim (back_to id (reverse es) []) [
    | none ↦ none
    | some rest ↦ from_elem batch rest
  ]

  -- The nearer end is where the walk starts.
  unfoldable pub after_id : ℕ → ℕ → Watcher A → Option (ℕ × List A)
  after_id id batch w = elim (head? w.entries) [
    | none ↦ some (0, [])
    | some front ↦
        if ltb id front.id then from_outdated id batch w.entries else elim (last? w.entries) [
          | none ↦ some (0, [])
          | some back ↦
              if nat_eq id back.id
              then some (0, [])
              else if ltb (sub64 id front.id) (sub64 back.id id)
              then from_outdated id batch w.entries
              else from_latest id batch w.entries
        ]
  ]

  -- One round of the loop that serves a listener: the listener's new `lastID`, and what it is sent.
  -- Nothing is sent where nothing is new, and the loop waits for the next `Broadcast`.
  abbrev sent : ℕ → ℕ × List A → ℕ × List A
  sent id (last, []) = (id, [])
  sent id (last, x ∷ xs) = (last, x ∷ xs)

  unfoldable pub publish_round : ℕ → ℕ → Watcher A → Option (ℕ × List A)
  publish_round id batch w = elim (after_id id batch w) [ none ↦ none | some r ↦ some (sent id r) ]

  -- Rounds until nothing is new, over a list that does not change meanwhile: what the listener is
  -- sent, and its last number. The fuel bounds the rounds.
  unfoldable pub publish : ℕ → ℕ → ℕ → Watcher A → Option (ℕ × List A)
  publish zero id batch w = none
  publish (suc fuel) id batch w = elim (publish_round id batch w) [
    | none ↦ none
    | some (last, []) ↦ some (last, [])
    | some (last, x ∷ xs) ↦ elim (publish fuel last batch w) [
      | none ↦ none
      | some (end, rest) ↦ some (end, x ∷ xs ++ rest)
    ]
  ]
