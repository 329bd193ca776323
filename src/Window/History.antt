-- ===== src/Window/History.antt =====
-- The list after any number of `add`s: it holds the newest items, numbered up to the counter.
use mathlib.Core.List.{append_assoc, append-nil, map-append}
use gao_cloud.Prelude.{
  ℕ, suc, ◌+◌, ◌-◌, ◌≤◌, ◌<◌, ◌≡◌, ◌∙◌, ap, refl, sym, List, [], ◌∷◌, ◌++◌, arith, length, drop,
  ltb, Bool-cases, inl, inr, length-append, ltb-ge, ltb→lt, length-drop, some,
}
use gao_cloud.Window.{Entry, Watcher, add, trim, u64, add64, publish}
use gao_cloud.Window.Lookup.{last_seen}
use gao_cloud.Window.Numbered.{pending, pending-all, IsWindow, next_first, add-IsWindow}
use gao_cloud.Window.Delivery.{contents, publish-pending}

module _ {A : Type 0} where
  -- What is left of a list that may hold `size` items, the oldest first to go.
  abbrev pub newest : ℕ → List A → List A
  newest size xs = drop (length xs - size) xs

  unfoldable pub add_all : Watcher A → List A → Watcher A
  add_all w [] = w
  add_all w (x ∷ xs) = add_all (add w x) xs

  length-contents : (es : List (Entry A)) → length (contents es) ≡ length es
  length-contents [] = refl
  length-contents (e ∷ es) = ap suc (length-contents es)

  newest-short : (size : ℕ) (xs : List A) → length xs ≤ size → newest size xs ≡ xs
  newest-short size xs h = let none_over : length xs - size ≡ 0 = omega arith in rw none_over refl

  contents-trim :
      (size : ℕ) (es : List (Entry A))
      → length es ≤ suc size
      → contents (trim size es) ≡ newest size (contents es)
  unfolding trim
  contents-trim size [] h = sym (newest-short size [] (omega arith))
  contents-trim size (e ∷ es) h = elim (Bool-cases (ltb size (suc (length es)))) [
    | inl over ↦
        let one : suc (length (contents es)) - size ≡ 1 =
          omega (arith, length-contents es, ltb→lt size (suc (length es)) over) in
        rw (over, one) refl
    | inr fits ↦
        let zero' : suc (length (contents es)) - size ≡ 0 =
          omega (arith, length-contents es, ltb-ge size (suc (length es)) fits) in
        rw (fits, zero') refl
  ]

  -- A trimmed front has no part in what is newest later.
  newest-newest :
      (size : ℕ) (xs ys : List A)
      → length xs ≤ suc size
      → newest size (newest size xs ++ ys) ≡ newest size (xs ++ ys)
  newest-newest size [] ys h = ap (λ l. newest size (l ++ ys)) (newest-short size [] (omega arith))
  newest-newest size (x ∷ xs) ys h = elim (Bool-cases (ltb size (suc (length xs)))) [
    | inl over ↦
        let one : suc (length xs) - size ≡ 1 = omega (arith, ltb→lt size (suc (length xs)) over) in
        let more : suc (length (xs ++ ys)) - size ≡ suc (length (xs ++ ys) - size) =
          omega (arith, length-append xs ys) in
        rw (one, more) refl
    | inr fits ↦
        let zero' : suc (length xs) - size ≡ 0 =
          omega (arith, ltb-ge size (suc (length xs)) fits) in
        rw zero' refl
  ]

  contents-add :
      (w : Watcher A) (a : A)
      → length w.entries ≤ w.max_size
      → contents (add w a).entries ≡ newest w.max_size (contents w.entries ++ a ∷ [])
  unfolding add
  contents-add w a h =
      let new : Entry A = record { id = add64 w.last_id 1; content = a } in
      contents-trim w.max_size (w.entries ++ new ∷ [])
        (omega (arith, length-append w.entries (new ∷ [])))
      ∙ ap (newest w.max_size) (map-append (λ e. e.content) w.entries (new ∷ []))

  pub last_id-add :
      (w : Watcher A) (a : A) → w.last_id + 1 < u64 → (add w a).last_id ≡ suc w.last_id
  unfolding add
  last_id-add w a h = omega arith

  pub max_size-add : (w : Watcher A) (a : A) → (add w a).max_size ≡ w.max_size
  unfolding add
  max_size-add w a = refl

  pub max_size-add_all : (w : Watcher A) (xs : List A) → (add_all w xs).max_size ≡ w.max_size
  unfolding add_all
  max_size-add_all w [] = refl
  max_size-add_all w (x ∷ xs) = max_size-add_all (add w x) xs ∙ max_size-add w x

  -- After any additions to a window, its list holds the newest items of what it held and what was
  -- added, in order, as many as the bound allows. The counter stays below 2^64.
  pub contents-add_all :
      (first : ℕ) (w : Watcher A) (xs : List A)
      → IsWindow first w
      → w.last_id + length xs < u64
      → contents (add_all w xs).entries ≡ newest w.max_size (contents w.entries ++ xs)
  unfolding add_all
  contents-add_all first w [] h p = sym (
      newest-short w.max_size (contents w.entries ++ [])
        (rw append-nil (omega (arith, length-contents w.entries, h.bounded)))
      ∙ append-nil (contents w.entries))
  contents-add_all first w (x ∷ xs) h p =
      let up = last_id-add w x (omega arith) in
      let size = w.max_size in
      contents-add_all (next_first first w) (add w x) xs (add-IsWindow first w x h (omega arith))
        (omega arith)
      ∙ ap (λ m. newest m (contents (add w x).entries ++ xs)) (max_size-add w x)
      ∙ ap (λ l. newest size (l ++ xs)) (contents-add w x h.bounded)
      ∙ newest-newest size (contents w.entries ++ x ∷ []) xs (
          omega (
            arith,
            h.bounded,
            length-append (contents w.entries) (x ∷ []),
            length-contents w.entries,
          ))
      ∙ ap (newest size) (append_assoc (contents w.entries) (x ∷ []) xs)

  next_first-ge : (first : ℕ) (w : Watcher A) → first ≤ next_first first w
  unfolding next_first
  next_first-ge first w = ground arith

  -- Its numbers are consecutive and end at the counter, which has counted every addition.
  pub add_all-IsWindow :
      (first : ℕ) (w : Watcher A) (xs : List A)
      → IsWindow first w
      → w.last_id + length xs < u64
      → (n : ℕ) × IsWindow n (add_all w xs)
        × ((add_all w xs).last_id ≡ w.last_id + length xs)
        × (first ≤ n)
  unfolding add_all
  add_all-IsWindow first w [] h p = (first, h, omega arith, omega arith)
  add_all-IsWindow first w (x ∷ xs) h p =
      let up = last_id-add w x (omega arith) in
      let (n, h', e, le) =
        add_all-IsWindow (next_first first w) (add w x) xs (add-IsWindow first w x h (omega arith))
          (omega arith) in
      (n, h', omega arith, omega (arith, next_first-ge first w))

  -- A listener that starts at 0 on a list that began empty is sent all that the list holds.
  pub publish-from_start :
      (fuel b first : ℕ) (w : Watcher A) (xs : List A)
      → IsWindow (suc first) w
      → w.entries ≡ []
      → w.last_id + length xs < u64
      → length xs < fuel
      → (last : ℕ) × (publish fuel 0 (suc b) (add_all w xs) ≡ some (last, newest w.max_size xs))
  publish-from_start fuel b first w xs h e p q =
      let (n, h', up, le) = add_all-IsWindow (suc first) w xs h p in
      let held =
        contents-add_all (suc first) w xs h p ∙ ap (λ l. newest w.max_size (contents l ++ xs)) e in
      let all : pending 0 (add_all w xs).entries ≡ (add_all w xs).entries =
        pending-all 0 n (add_all w xs).entries h'.numbered (omega arith) in
      (
        last_seen 0 (pending 0 (add_all w xs).entries),
        publish-pending fuel b 0 n (add_all w xs) h' (omega arith) (omega arith) (
              omega (
                arith,
                ap length all,
                ap length held,
                length-contents (add_all w xs).entries,
                length-drop (length xs - w.max_size) xs,
              ))
            ∙ ap (λ l. some (last_seen 0 (pending 0 (add_all w xs).entries), l))
                (ap contents all ∙ held),
      )
