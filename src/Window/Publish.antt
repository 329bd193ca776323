-- ===== src/Window/Publish.antt =====
-- What a listener is sent: the oldest entries that it has not seen, in order, batch by batch, and
-- nothing twice.
use mathlib.Core.List.{reverse, append-nil}
use gao_cloud.Prelude.{
  ℕ, suc, ◌+◌, ◌≤◌, ◌<◌, ◌≡◌, ◌∙◌, ap, refl, sym, Option, some, List, [], ◌∷◌, map, arith, length,
  take, last?, ltb, Bool-cases, inl, inr, ◌⊎◌, ltb→lt, ltb-ge, lt→nat_eq, nat_eq_iff, le→ltb, false,
  if_both, last?-ne-none,
}
use gao_cloud.Window.{
  Entry, Watcher, sent, from_elem, from_outdated, from_latest, back_to, after_id, publish_round,
  u64, sub64,
}
use gao_cloud.Window.Numbered.{Numbered, IsWindow, pending, last?-id, pending-all}
use gao_cloud.Window.Lookup.{
  skip_to-pending, back_to-pending, pending-none, pending-Numbered, length-pending, last_seen,
  from_elem-batch,
}

module _ {A : Type 0} where
  -- The oldest entries above `id`, at most `size`: the last of their numbers, and their contents.
  abbrev pub batch_of : ℕ → ℕ → List (Entry A) → ℕ × List A
  batch_of size id es =
      let taken : List (Entry A) = take size (pending id es) in
      (last_seen id taken, map (λ x. x.content) taken)

  from_elem-nonempty :
      (b n d : ℕ) (es : List (Entry A))
      → Numbered n es
      → 0 < length es
      → n + length es ≤ u64
      → from_elem (suc b) es
        ≡ some (last_seen d (take (suc b) es), map (λ x. x.content) (take (suc b) es))
  from_elem-nonempty b n d [] h p q = absurd (omega arith)
  from_elem-nonempty b n d (e ∷ es) h p q = from_elem-batch b n d e es h (omega arith)

  module _ (b id n : ℕ) (e : Entry A) (es : List (Entry A)) (h : Numbered n (e ∷ es))
      (fits : n + length es < u64) (new : id < n + length es) where
    from_elem-pending :
        from_elem (suc b) (pending id (e ∷ es)) ≡ some (batch_of (suc b) id (e ∷ es))
    from_elem-pending = elim (Bool-cases (ltb id n)) [
      | inl behind ↦
          rw (pending-all id n (e ∷ es) h (ltb→lt id n behind)) (from_elem-batch b n id e es h fits)
      | inr inside ↦
          let near : n ≤ suc id = omega (arith, ltb-ge id n inside) in
          from_elem-nonempty b (suc id) id (pending id (e ∷ es))
            (pending-Numbered id n (e ∷ es) h near)
            (omega (arith, length-pending id n (e ∷ es) h near))
            (omega (arith, length-pending id n (e ∷ es) h near))
    ]

    from_outdated-batch : from_outdated id (suc b) (e ∷ es) ≡ some (batch_of (suc b) id (e ∷ es))
    unfolding from_outdated
    from_outdated-batch = rw (skip_to-pending id n e es h new, from_outdated) from_elem-pending

    from_latest-batch :
        n ≤ id → from_latest id (suc b) (e ∷ es) ≡ some (batch_of (suc b) id (e ∷ es))
    unfolding from_latest
    from_latest-batch inside =
        let walk = back_to-pending id n e es [] [] h inside in
        let walk' : back_to id (reverse (e ∷ es)) [] ≡ some (pending id (e ∷ es)) =
          ap (λ l. back_to id l []) (sym (append-nil (reverse (e ∷ es))))
          ∙ walk
          ∙ ap some (append-nil (pending id (e ∷ es))) in
        rw (walk', from_latest) from_elem-pending

  -- Where the last number is above `id`, the look-up is one of the two walks.
  after_id-walk :
      (size id : ℕ) (e : Entry A) (es : List (Entry A)) (l m : ℕ) {back : Entry A}
      {r : Option (ℕ × List A)}
      → last? (e ∷ es) ≡ some back
      → id < back.id
      → from_outdated id size (e ∷ es) ≡ r
      → (e.id ≤ id → from_latest id size (e ∷ es) ≡ r)
      → after_id id size (record { last_id = l; max_size = m; entries = e ∷ es }) ≡ r
  unfolding after_id
  after_id-walk size id e es l m {back = back} last new front rear =
      elim (Bool-cases (ltb id e.id)) [
        | inl behind ↦ rw behind front
        | inr inside ↦
            rw (inside, last, lt→nat_eq id back.id new)
              (if_both (ltb (sub64 id e.id) (sub64 back.id id)) front
                (rear (ltb-ge id e.id inside)))
      ]

  after_id-batch :
      (b id n : ℕ) (es : List (Entry A)) (l m : ℕ)
      → IsWindow n (record { last_id = l; max_size = m; entries = es })
      → l < u64
      → id < l
      → 0 < length es
      → after_id id (suc b) (record { last_id = l; max_size = m; entries = es })
        ≡ some (batch_of (suc b) id es)
  after_id-batch b id n [] l m h p q r = absurd (omega arith)
  after_id-batch b id n (e ∷ es) l m h p q r =
      let (back, last) = last?-ne-none e es in
      let i : back.id ≡ n + length es = last?-id n e es h.numbered last in
      let fits : n + length es < u64 = omega (arith, h.ends) in
      let new : id < n + length es = omega (arith, h.ends) in
      after_id-walk (suc b) id e es l m last (omega arith)
        (from_outdated-batch b id n e es h.numbered fits new)
        (λ inside. from_latest-batch b id n e es h.numbered fits new (omega (arith, h.numbered)))

  after_id-caught_up :
      (b id n : ℕ) (es : List (Entry A)) (l m : ℕ)
      → IsWindow n (record { last_id = l; max_size = m; entries = es })
      → id ≡ l
      → after_id id (suc b) (record { last_id = l; max_size = m; entries = es }) ≡ some (0, [])
  unfolding after_id
  after_id-caught_up b id n [] l m h p = refl
  after_id-caught_up b id n (e ∷ es) l m h p =
      let (back, last) = last?-ne-none e es in
      let i : back.id ≡ n + length es = last?-id n e es h.numbered last in
      let inside : ltb id e.id ≡ false = le→ltb id e.id (omega (arith, h.ends, h.numbered)) in
      rw (inside, last, (nat_eq_iff id back.id).1 (omega (arith, h.ends)))

  sent-batch :
      (b id : ℕ) (ps : List (Entry A))
      → let taken : List (Entry A) = take (suc b) ps in
        sent id (last_seen id taken, map (λ x. x.content) taken)
        ≡ (last_seen id taken, map (λ x. x.content) taken)
  sent-batch b id [] = refl
  sent-batch b id (e ∷ es) = refl

  publish_round-cases :
      (b id n : ℕ) (es : List (Entry A)) (l m : ℕ)
      → IsWindow n (record { last_id = l; max_size = m; entries = es })
      → l < u64
      → (id < l) ⊎ (id ≡ l)
      → publish_round id (suc b) (record { last_id = l; max_size = m; entries = es })
        ≡ some (batch_of (suc b) id es)
  unfolding publish_round
  publish_round-cases b id n [] l m h p q = unfold after_id in refl
  publish_round-cases b id n (e ∷ es) l m h p (inl new) =
      rw (after_id-batch b id n (e ∷ es) l m h p new (omega arith), publish_round)
        (ap some (sent-batch b id (pending id (e ∷ es))))
  publish_round-cases b id n (e ∷ es) l m h p (inr done) =
      rw
        (
          after_id-caught_up b id n (e ∷ es) l m h done,
          publish_round,
          pending-none id n (e ∷ es) h.numbered (omega (arith, h.ends)),
        )
        refl

  -- A round sends the oldest pending entries, as many as the batch holds, and moves the listener to
  -- the last of them; where nothing is pending it sends nothing and leaves the listener alone. It
  -- never reads through `nil`, from whichever end the walk starts. The list is a window whose
  -- counter is below 2^64, a batch has room for at least one item, and the listener is not past the
  -- counter.
  pub publish_round-batch :
      (b id first : ℕ) (w : Watcher A)
      → IsWindow first w
      → w.last_id < u64
      → id ≤ w.last_id
      → publish_round id (suc b) w ≡ some (batch_of (suc b) id w.entries)
  publish_round-batch b id first w h p q =
      publish_round-cases b id first w.entries w.last_id w.max_size h p (grind arith)
