-- ===== src/Window/Delivery.antt =====
-- A listener that is served until nothing is new, and what an `add` makes pending.
use mathlib.Core.List.{map-append}
use mathlib.Core.Path.{subst}
use gao_cloud.Prelude.{
  ℕ, zero, suc, ◌+◌, ◌≤◌, ◌<◌, ◌≡◌, ◌∙◌, ap, refl, sym, some, List, [], ◌∷◌, ◌++◌, map, arith,
  length, take, drop, take-append-drop, length-drop, length-take, ltb, Bool-cases, inl, inr, ltb→lt,
  ltb-ge, if◌then◌else◌, length-append,
}
use gao_cloud.Window.{Entry, Watcher, publish_round, publish, u64, add64, add, trim}
use gao_cloud.Window.Numbered.{
  Numbered, IsWindow, pending, pending-all, pending-append, next_first, Numbered-append,
}
use gao_cloud.Window.Lookup.{
  pending-Numbered, length-pending, last_seen, last_seen-Numbered, take-Numbered,
}
use gao_cloud.Window.Publish.{publish_round-batch}

module _ {A : Type 0} where
  -- The front that is dropped was not pending.
  pending-trim :
      (size id first : ℕ) (es : List (Entry A))
      → Numbered first es
      → (if ltb size (length es) then suc first else first) ≤ suc id
      → pending id (trim size es) ≡ pending id es
  unfolding trim
  pending-trim size id first [] h p = refl
  pending-trim size id first (e ∷ es) h p = elim (Bool-cases (ltb size (suc (length es)))) [
    | inl over ↦ rw over (ground (arith, rw over at p))
    | inr fits ↦ rw fits refl
  ]

  last_seen-ge :
      (k d n : ℕ) (es : List (Entry A)) → Numbered n es → d < n → d ≤ last_seen d (take k es)
  last_seen-ge zero d n es h p = omega arith
  last_seen-ge (suc k) d n [] h p = omega arith
  last_seen-ge (suc k) d n (e ∷ es) h p = omega (arith, last_seen-ge k e.id (suc n) es h.1)

  -- Once a batch is sent, what is pending is the rest.
  pending-batch :
      (k d n : ℕ) (es : List (Entry A))
      → Numbered n es
      → d < n
      → pending (last_seen d (take k es)) es ≡ drop k es
  pending-batch zero d n es h p = pending-all d n es h p
  pending-batch (suc k) d n [] h p = refl
  pending-batch (suc k) d n (e ∷ es) h p =
      ground (arith, last_seen-ge k e.id (suc n) es h.1, pending-batch k e.id (suc n) es h.1)

  pending-pending :
      (id id' : ℕ) (es : List (Entry A)) → id ≤ id' → pending id' (pending id es) ≡ pending id' es
  pending-pending id id' [] h = refl
  pending-pending id id' (e ∷ es) h = ground (arith, pending-pending id id' es h)

  -- The pending entries are numbered from somewhere above `id`, up to the counter.
  record Place (id last : ℕ) (ps : List (Entry A)) : Type 0 where
    start : ℕ
    numbered : Numbered start ps
    above : id < start
    ends : start + length ps ≤ suc last

  pending-Place :
      (id first : ℕ) (w : Watcher A)
      → IsWindow first w
      → id ≤ w.last_id
      → Place id w.last_id (pending id w.entries)
  pending-Place id first w h p = elim (Bool-cases (ltb id first)) [
    | inl behind ↦ rw (pending-all id first w.entries h.numbered (ltb→lt id first behind)) (record {
      start = first;
      numbered = h.numbered;
      above = ltb→lt id first behind;
      ends = omega (arith, h.ends);
    })
    | inr inside ↦
        let near : first ≤ suc id = omega (arith, ltb-ge id first inside) in
        record {
          start = suc id;
          numbered = pending-Numbered id first w.entries h.numbered near;
          above = omega arith;
          ends = omega (arith, h.ends, length-pending id first w.entries h.numbered near);
        }
  ]

  last_seen-le :
      (k id last : ℕ) (ps : List (Entry A))
      → Place id last ps
      → id ≤ last
      → last_seen id (take k ps) ≤ last
  last_seen-le zero id last ps pl p = p
  last_seen-le (suc k) id last [] pl p = p
  last_seen-le (suc k) id last (e ∷ es) pl p = omega (
    arith,
    pl.ends,
    length-take k es,
    last_seen-Numbered id pl.start e (take k es)
        (pl.numbered.0, take-Numbered k (suc pl.start) es pl.numbered.1),
  )

  last_seen-drop :
      (k d : ℕ) (es : List (Entry A))
      → last_seen (last_seen d (take k es)) (drop k es) ≡ last_seen d es
  last_seen-drop zero d es = refl
  last_seen-drop (suc k) d [] = refl
  last_seen-drop (suc k) d (e ∷ es) = last_seen-drop k e.id es

  abbrev pub contents : List (Entry A) → List A
  contents = map (λ e. e.content)

  contents-batch :
      (k : ℕ) (es : List (Entry A)) → contents (take k es) ++ contents (drop k es) ≡ contents es
  contents-batch k es =
      sym (map-append (λ e. e.content) (take k es) (drop k es))
      ∙ ap contents (take-append-drop k es)

  -- The batch that a round sends, followed by what the later rounds send.
  publish-step :
      (fuel b id : ℕ) (w : Watcher A) (e : Entry A) (es rest : List (Entry A))
      → publish_round id (suc b) w
        ≡ some (last_seen id (take (suc b) (e ∷ es)), contents (take (suc b) (e ∷ es)))
      → rest ≡ drop (suc b) (e ∷ es)
      → publish fuel (last_seen id (take (suc b) (e ∷ es))) (suc b) w
        ≡ some (last_seen (last_seen id (take (suc b) (e ∷ es))) rest, contents rest)
      → publish (suc fuel) id (suc b) w ≡ some (last_seen id (e ∷ es), contents (e ∷ es))
  unfolding publish
  publish-step fuel b id w e es rest round left later =
      rw (round, publish, later, left)
        (λ i. some (last_seen-drop b e.id es i, e.content ∷ contents-batch b es i))

  publish_round-of :
      (b id first : ℕ) (w : Watcher A)
      → IsWindow first w
      → w.last_id < u64
      → id ≤ w.last_id
      → (ps : List (Entry A)) → pending id w.entries ≡ ps
      → publish_round id (suc b) w
        ≡ some (last_seen id (take (suc b) ps), contents (take (suc b) ps))
  publish_round-of b id first w h p q ps e =
      publish_round-batch b id first w h p q
      ∙ ap (λ l. some (last_seen id (take (suc b) l), contents (take (suc b) l))) e

  -- The rounds from `id`, given what the rounds from a later number send.
  publish-rounds :
      (fuel b id first : ℕ) (w : Watcher A)
      → IsWindow first w
      → w.last_id < u64
      → id ≤ w.last_id
      → ((id' : ℕ)
          → id' ≤ w.last_id
          → length (pending id' w.entries) < fuel
          → publish fuel id' (suc b) w
            ≡ some (last_seen id' (pending id' w.entries), contents (pending id' w.entries)))
      → (ps : List (Entry A)) → length ps < suc fuel
      → pending id w.entries ≡ ps
      → publish (suc fuel) id (suc b) w ≡ some (last_seen id ps, contents ps)
  unfolding publish
  publish-rounds fuel b id first w h p q later [] r e =
      rw (publish_round-of b id first w h p q [] e, publish) refl
  publish-rounds fuel b id first w h p q later (x ∷ es) r e =
      let place : Place id w.last_id (x ∷ es) =
        subst (Place id w.last_id) e (pending-Place id first w h q) in
      let id' : ℕ = last_seen id (take (suc b) (x ∷ es)) in
      let up : id ≤ id' = last_seen-ge (suc b) id place.start (x ∷ es) place.numbered place.above in
      let left : pending id' w.entries ≡ drop (suc b) (x ∷ es) =
        sym (pending-pending id id' w.entries up)
        ∙ ap (pending id') e
        ∙ pending-batch (suc b) id place.start (x ∷ es) place.numbered place.above in
      publish-step fuel b id w x es (pending id' w.entries)
        (publish_round-of b id first w h p q (x ∷ es) e) left
        (later id' (last_seen-le (suc b) id w.last_id (x ∷ es) place q)
          (omega (arith, ap length left, length-drop (suc b) (x ∷ es))))

  -- With more fuel than entries are pending, the rounds end, and the listener has been sent exactly
  -- the pending entries, each once and in order, and stands at the last of them. The list is a
  -- window whose counter is below 2^64, a batch has room for at least one item, and the listener is
  -- not past the counter.
  pub publish-pending :
      (fuel b id first : ℕ) (w : Watcher A)
      → IsWindow first w
      → w.last_id < u64
      → id ≤ w.last_id
      → length (pending id w.entries) < fuel
      → publish fuel id (suc b) w
        ≡ some (last_seen id (pending id w.entries), contents (pending id w.entries))
  publish-pending zero b id first w h p q r = absurd (omega arith)
  publish-pending (suc fuel) b id first w h p q r =
      publish-rounds fuel b id first w h p q
        (λ id' q' r'. publish-pending fuel b id' first w h p q' r') (pending id w.entries) r refl

  -- Where the listener has seen the front that `add` drops, if it drops one, `add` appends the new
  -- entry to what is pending for the listener, and loses nothing. The list is a window whose
  -- counter is below 2^64 - 1, and the listener is not past it.
  pub pending-add :
      (id first : ℕ) (w : Watcher A) (a : A)
      → IsWindow first w
      → w.last_id + 1 < u64
      → id ≤ w.last_id
      → next_first first w ≤ suc id
      → pending id (add w a).entries
        ≡ pending id w.entries ++ record { id = suc w.last_id; content = a } ∷ []
  unfolding add next_first
  pending-add id first w a h p q r =
      let new : Entry A = record { id = suc w.last_id; content = a } in
      let n : add64 w.last_id 1 ≡ suc w.last_id = omega arith in
      let size = length-append w.entries (new ∷ []) in
      rw n (
        pending-trim w.max_size id first (w.entries ++ new ∷ [])
          (Numbered-append first w.entries new h.numbered (omega (arith, h.ends))) (rw size r)
        ∙ pending-append id w.entries new (omega arith))
