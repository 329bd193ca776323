-- ===== src/Window/Lookup.antt =====
-- The walk from either end finds the same place, and the batch is the oldest of what is pending.
use mathlib.Core.List.{reverse, reverse-append, append_assoc}
use mathlib.Core.Path.{subst}
use gao_cloud.Prelude.{
  ℕ, zero, suc, ◌+◌, ◌-◌, ◌≤◌, ◌<◌, ◌≡◌, ◌∙◌, ap, min, refl, some, List, [], ◌∷◌, ◌++◌, map, arith,
  length, take, ltb, Bool-cases, inl, inr, length-take, ltb→lt, ltb-ge,
}
use gao_cloud.Window.{Entry, skip_to, back_to, from_elem, u64}
use gao_cloud.Window.Numbered.{Numbered, pending, pending-all}

module _ {A : Type 0} where
  -- From the front: the walk stops at the first number above `id`, if the last one is above it.
  pub skip_to-pending :
      (id n : ℕ) (e : Entry A) (es : List (Entry A))
      → Numbered n (e ∷ es)
      → id < n + length es
      → skip_to id (e ∷ es) ≡ some (pending id (e ∷ es))
  unfolding skip_to
  skip_to-pending id n e [] h p = ground arith
  skip_to-pending id n e (x ∷ es) h p =
      ground (arith, skip_to-pending id (suc n) x es h.1, pending-all id (suc n) (x ∷ es) h.1)

  -- From the back, over the entries that are all above `id`: the walk passes them.
  back_to-over :
      (id n : ℕ) (es rest after : List (Entry A))
      → Numbered n es
      → id < n
      → back_to id (reverse es ++ rest) after ≡ back_to id rest (es ++ after)
  unfolding back_to
  back_to-over id n [] rest after h p = refl
  back_to-over id n (e ∷ es) rest after h p =
      rw (reverse-append (e ∷ []) es, append_assoc)
        (back_to-over id (suc n) es (e ∷ rest) after h.1 (omega arith) ∙ ground arith)

  -- From the back: the walk stops where the number is not above `id`, if the first one is not.
  pub back_to-pending :
      (id n : ℕ) (e : Entry A) (es rest after : List (Entry A))
      → Numbered n (e ∷ es)
      → n ≤ id
      → back_to id (reverse (e ∷ es) ++ rest) after ≡ some (pending id (e ∷ es) ++ after)
  unfolding back_to
  back_to-pending id n e [] rest after h p = ground arith
  back_to-pending id n e (x ∷ es) rest after h p = elim (Bool-cases (ltb n id)) [
    | inl below ↦
        rw (reverse-append (e ∷ []) (x ∷ es), append_assoc)
          (back_to-pending id (suc n) x es (e ∷ rest) after h.1 (ltb→lt n id below) ∙ ground arith)
    | inr reached ↦
        let p' : id ≡ n = omega (arith, ltb-ge n id reached) in
        rw (reverse-append (e ∷ []) (x ∷ es), append_assoc)
          (back_to-over id (suc n) (x ∷ es) (e ∷ rest) after h.1 (omega arith)
            ∙ ground (arith, pending-all id (suc n) (x ∷ es) h.1))
  ]

  pub pending-none :
      (id n : ℕ) (es : List (Entry A)) → Numbered n es → n + length es ≤ suc id → pending id es ≡ []
  pending-none id n [] h p = refl
  pending-none id n (e ∷ es) h p = ground (arith, pending-none id (suc n) es h.1)

  -- The pending entries follow `id` without a gap, unless the list starts beyond that.
  pub pending-Numbered :
      (id n : ℕ) (es : List (Entry A))
      → Numbered n es
      → n ≤ suc id
      → Numbered (suc id) (pending id es)
  pending-Numbered id n [] h p = tt
  pending-Numbered id n (e ∷ es) h p = elim (Bool-cases (ltb id e.id)) [
    | inl new ↦
        let m : n ≡ suc id = omega (arith, ltb→lt id e.id new) in
        rw (pending-all id n (e ∷ es) h (omega arith)) (subst (λ k. Numbered k (e ∷ es)) m h)
    | inr old ↦ rw old (pending-Numbered id (suc n) es h.1 (omega (arith, ltb-ge id e.id old)))
  ]

  pub length-pending :
      (id n : ℕ) (es : List (Entry A))
      → Numbered n es
      → n ≤ suc id
      → length (pending id es) ≡ n + length es - suc id
  length-pending id n [] h p = omega arith
  length-pending id n (e ∷ es) h p = elim (Bool-cases (ltb id e.id)) [
    | inl new ↦
        rw (pending-all id n (e ∷ es) h (omega (arith, ltb→lt id e.id new)))
          (omega (arith, ltb→lt id e.id new))
    | inr old ↦
        rw old (omega (arith, length-pending id (suc n) es h.1 (omega (arith, ltb-ge id e.id old))))
  ]

  -- The number of the last entry, or `d` where there is none.
  abbrev pub last_seen : ℕ → List (Entry A) → ℕ
  last_seen d [] = d
  last_seen d (e ∷ es) = last_seen e.id es

  pub last_seen-Numbered :
      (d n : ℕ) (e : Entry A) (es : List (Entry A))
      → Numbered n (e ∷ es)
      → last_seen d (e ∷ es) ≡ n + length es
  last_seen-Numbered d n e [] h = omega arith
  last_seen-Numbered d n e (x ∷ es) h = omega (arith, last_seen-Numbered e.id (suc n) x es h.1)

  pub take-Numbered : (k n : ℕ) (es : List (Entry A)) → Numbered n es → Numbered n (take k es)
  take-Numbered zero n es h = tt
  take-Numbered (suc k) n [] h = tt
  take-Numbered (suc k) n (e ∷ es) h = (h.0, take-Numbered k (suc n) es h.1)

  pub from_elem-batch :
      (b n d : ℕ) (e : Entry A) (es : List (Entry A))
      → Numbered n (e ∷ es)
      → n + length es < u64
      → from_elem (suc b) (e ∷ es)
        ≡ some (last_seen d (take (suc b) (e ∷ es)), map (λ x. x.content) (take (suc b) (e ∷ es)))
  unfolding from_elem
  from_elem-batch b n d e es h p =
      let m : length (take b es) ≡ min b (length es) = length-take b es in
      let l = last_seen-Numbered d n e (take b es) (h.0, take-Numbered b (suc n) es h.1) in
      ap (λ k. some (k, map (λ x. x.content) (take (suc b) (e ∷ es)))) (omega arith)
