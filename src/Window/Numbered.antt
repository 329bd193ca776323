-- ===== src/Window/Numbered.antt =====
-- The invariant of the list: its numbers are consecutive and end at the counter, and it is no
-- longer than its bound. Every `add` keeps it while the counter does not wrap.
use gao_cloud.Prelude.{
  ℕ, suc, ◌+◌, ◌≤◌, ◌<◌, ◌≡◌, refl, some, Bool, List, [], ◌∷◌, ◌++◌, arith, length, last?, ltb,
  keep, if◌then◌else◌, length-append, Bool-cases, inl, inr, ltb-ge,
}
use gao_cloud.Window.{Entry, Watcher, add, trim, u64, add64}

module _ {A : Type 0} where
  abbrev pub Numbered : ℕ → List (Entry A) → Type 0
  Numbered n [] = Unit
  Numbered n (e ∷ es) = (e.id ≡ n) × Numbered (suc n) es

  pub record IsWindow (first : ℕ) (w : Watcher A) : Type 0 where
    pub numbered : Numbered first w.entries
    pub ends : first + length w.entries ≡ suc w.last_id
    pub bounded : length w.entries ≤ w.max_size

  -- What a listener that has seen the numbers up to `id` still has to see.
  abbrev pub newer : ℕ → Entry A → Bool
  newer id e = ltb id e.id

  abbrev pub pending : ℕ → List (Entry A) → List (Entry A)
  pending id es = keep (newer id) es

  pub Numbered-append :
      (n : ℕ) (es : List (Entry A)) (e : Entry A)
      → Numbered n es
      → e.id ≡ n + length es
      → Numbered n (es ++ e ∷ [])
  Numbered-append n [] e h p = (omega arith, tt)
  Numbered-append n (x ∷ es) e h p = (h.0, Numbered-append (suc n) es e h.1 (omega arith))

  pub last?-id :
      (n : ℕ) (e : Entry A) (es : List (Entry A)) {b : Entry A}
      → Numbered n (e ∷ es)
      → last? (e ∷ es) ≡ some b
      → b.id ≡ n + length es
  last?-id n e [] h p = ground arith
  last?-id n e (x ∷ es) h p = omega (arith, last?-id (suc n) x es h.1 p)

  -- Everything is new to a listener that is behind the first number.
  pub pending-all : (id n : ℕ) (es : List (Entry A)) → Numbered n es → id < n → pending id es ≡ es
  pending-all id n [] h p = refl
  pending-all id n (e ∷ es) h p = ground (arith, pending-all id (suc n) es h.1 (omega arith))

  pub pending-append :
      (id : ℕ) (es : List (Entry A)) (e : Entry A)
      → id < e.id
      → pending id (es ++ e ∷ []) ≡ pending id es ++ e ∷ []
  pending-append id [] e h = ground arith
  pending-append id (x ∷ es) e h = ground (arith, pending-append id es e h)

  -- The first number that the list holds after an `add`.
  unfoldable pub next_first : ℕ → Watcher A → ℕ
  next_first first w = if ltb w.max_size (length w.entries + 1) then suc first else first

  tail-Numbered :
      (n : ℕ) (e : Entry A) (es : List (Entry A)) → Numbered n (e ∷ es) → Numbered (suc n) es
  tail-Numbered n e es h = h.1

  -- The front is dropped exactly when the list has grown past the bound.
  trim-IsWindow :
      (size first last : ℕ) (es : List (Entry A))
      → Numbered first es
      → first + length es ≡ suc last
      → length es ≤ suc size
      → IsWindow
          (if ltb size (length es) then suc first else first)
          (record { last_id = last; max_size = size; entries = trim size es })
  unfolding trim
  trim-IsWindow size first last [] h e b = record {
    numbered = tt;
    ends = ground arith;
    bounded = omega arith;
  }
  trim-IsWindow size first last (x ∷ es) h e b = elim (Bool-cases (ltb size (suc (length es)))) [
    | inl over ↦ rw over (record { numbered = h.1; ends = omega arith; bounded = omega arith })
    | inr fits ↦
        rw fits (record { numbered = h; ends = e; bounded = ltb-ge size (suc (length es)) fits })
  ]

  -- `add` to a window whose counter is below 2^64 - 1 gives a window: the numbers are consecutive,
  -- end at the counter, and are no more than the bound. The front is dropped exactly when the list
  -- was full.
  pub add-IsWindow :
      (first : ℕ) (w : Watcher A) (a : A)
      → IsWindow first w
      → w.last_id + 1 < u64
      → IsWindow (next_first first w) (add w a)
  unfolding add next_first
  add-IsWindow first w a h p =
      let new : Entry A = record { id = add64 w.last_id 1; content = a } in
      let n : length (w.entries ++ new ∷ []) ≡ length w.entries + 1 = length-append w.entries _ in
      let id : add64 w.last_id 1 ≡ suc w.last_id = omega arith in
      rw (← n) (
        trim-IsWindow w.max_size first (add64 w.last_id 1) (w.entries ++ new ∷ [])
          (Numbered-append first w.entries new h.numbered (omega (arith, h.ends)))
          (omega (arith, h.ends)) (omega (arith, h.bounded)))
