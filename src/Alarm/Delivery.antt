-- ===== src/Alarm/Delivery.antt =====
-- What a listener is sent: the alarms above its number, in order; and the look-up of an alarm.
use mathlib.Core.List.{reverse, reverse-cons, reverse-reverse}
use gao_cloud.Prelude.{
  ℕ, suc, ◌+◌, ◌-◌, ◌≤◌, ◌<◌, ◌≡◌, ◌∙◌, String, inl, inr, refl, sym, ap, some, none, List, [], ◌∷◌,
  ◌++◌, arith, length, ltb, nat_eq, Bool-cases, if◌then◌else◌, Map, last?-ne-none, if_both, keep,
  sort_by-Falling, Falling, AllBelow, AllBelow-append_one, turned,
}
use mathlib.Core.Path.{subst}
use gao_cloud.Window.{u64, add64, sub64}
use gao_cloud.Alarm.{
  Alarm, AlarmCache, newer_than, get_alarms_after_id, publish_event, find_uid, get_alarm_from_list,
}
use gao_cloud.Alarm.Store.{Numbered, IsRun}

abbrev uid_of : Alarm → ℕ
uid_of a = a.uid

-- The alarms above a number.
abbrev pub newer : ℕ → List Alarm → List Alarm
newer id = keep (λ a. ltb id a.uid)

keep-append_one :
    (id : ℕ) (xs : List Alarm) (a : Alarm)
    → newer id (xs ++ a ∷ []) ≡ newer id xs ++ (if ltb id a.uid then a ∷ [] else [])
keep-append_one id [] a = ground arith
keep-append_one id (x ∷ xs) a = ground (arith, keep-append_one id xs a)

turned-eq-reverse : (xs : List Alarm) → turned uid_of xs ≡ reverse xs
turned-eq-reverse [] = refl
turned-eq-reverse (x ∷ xs) = ap (λ l. l ++ x ∷ []) (turned-eq-reverse xs) ∙ sym (reverse-cons x xs)

turned-reverse : (xs : List Alarm) → turned uid_of (reverse xs) ≡ xs
turned-reverse xs = turned-eq-reverse (reverse xs) ∙ reverse-reverse xs

newer-below :
    (id : ℕ) (xs : List Alarm) → AllBelow uid_of (suc id) xs → newer id (turned uid_of xs) ≡ []
newer-below id [] h = refl
newer-below id (x ∷ xs) h =
    ground (arith, keep-append_one id (turned uid_of xs) x, newer-below id xs h.1)

AllBelow-weaken : (m n : ℕ) (xs : List Alarm) → m ≤ n → AllBelow uid_of m xs → AllBelow uid_of n xs
AllBelow-weaken m n [] p h = tt
AllBelow-weaken m n (x ∷ xs) p h = (omega (arith, h.0), AllBelow-weaken m n xs p h.1)

-- On a list whose numbers fall, the walk takes all that is above.
newer_than-turned :
    (id : ℕ) (xs : List Alarm)
    → Falling uid_of xs
    → turned uid_of (newer_than id xs) ≡ newer id (turned uid_of xs)
unfolding newer_than
newer_than-turned id [] h = refl
newer_than-turned id (x ∷ xs) h = elim (Bool-cases (ltb id x.uid)) [
  | inl above ↦
      let last = keep-append_one id (turned uid_of xs) x in
      let rest = newer_than-turned id xs h.1 in ground (arith, above, last, rest)
  | inr under ↦
      let none_left =
        newer-below id xs (AllBelow-weaken x.uid (suc id) xs (ground (arith, under)) h.0) in
      ground (arith, under, keep-append_one id (turned uid_of xs) x, none_left)
]

newer_than-AllBelow :
    (n id : ℕ) (xs : List Alarm) → AllBelow uid_of n xs → AllBelow uid_of n (newer_than id xs)
unfolding newer_than
newer_than-AllBelow n id [] h = tt
newer_than-AllBelow n id (x ∷ xs) h = elim (Bool-cases (ltb id x.uid)) [
  | inl above ↦ rw above (h.0, newer_than-AllBelow n id xs h.1)
  | inr under ↦ rw under tt
]

newer_than-Falling :
    (id : ℕ) (xs : List Alarm) → Falling uid_of xs → Falling uid_of (newer_than id xs)
unfolding newer_than
newer_than-Falling id [] h = tt
newer_than-Falling id (x ∷ xs) h = elim (Bool-cases (ltb id x.uid)) [
  | inl above ↦ rw above (newer_than-AllBelow x.uid id xs h.0, newer_than-Falling id xs h.1)
  | inr under ↦ rw under tt
]

abbrev AllAbove : ℕ → List Alarm → Type 0
AllAbove n [] = Unit
AllAbove n (x ∷ xs) = (n < x.uid) × AllAbove n xs

AllAbove-append_one :
    (n : ℕ) (xs : List Alarm) (a : Alarm) → AllAbove n xs → n < a.uid → AllAbove n (xs ++ a ∷ [])
AllAbove-append_one n [] a h p = (p, tt)
AllAbove-append_one n (x ∷ xs) a h p = (h.0, AllAbove-append_one n xs a h.1 p)

Falling-append_one :
    (xs : List Alarm) (a : Alarm)
    → Falling uid_of xs
    → AllAbove a.uid xs
    → Falling uid_of (xs ++ a ∷ [])
Falling-append_one [] a h p = (tt, tt)
Falling-append_one (x ∷ xs) a h p =
    (AllBelow-append_one uid_of x.uid xs a h.0 p.0, Falling-append_one xs a h.1 p.1)

Numbered-AllAbove :
    (m n : ℕ) (xs : List Alarm) → Numbered n xs → m < n → AllAbove m (turned uid_of xs)
Numbered-AllAbove m n [] h p = tt
Numbered-AllAbove m n (x ∷ xs) h p =
    AllAbove-append_one m (turned uid_of xs) x (Numbered-AllAbove m (suc n) xs h.1 (omega arith))
      (omega (arith, h.0))

Numbered-Falling : (n : ℕ) (xs : List Alarm) → Numbered n xs → Falling uid_of (turned uid_of xs)
Numbered-Falling n [] h = tt
Numbered-Falling n (x ∷ xs) h =
    Falling-append_one (turned uid_of xs) x (Numbered-Falling (suc n) xs h.1)
      (Numbered-AllAbove x.uid (suc n) xs h.1 (omega (arith, h.0)))

-- The walk from the back and the sort give the alarms above the number, in the order of the list.
pub get_alarms_after_id_lem :
    (id n : ℕ) (c : AlarmCache)
    → Numbered n c.alarm_list
    → get_alarms_after_id id c ≡ newer id c.alarm_list
unfolding get_alarms_after_id
get_alarms_after_id_lem id n c h =
    let falls : Falling uid_of (reverse c.alarm_list) =
      subst (Falling uid_of) (turned-eq-reverse c.alarm_list) (Numbered-Falling n c.alarm_list h) in
    sort_by-Falling uid_of (newer_than id (reverse c.alarm_list))
      (newer_than-Falling id (reverse c.alarm_list) falls)
    ∙ newer_than-turned id (reverse c.alarm_list) falls
    ∙ ap (newer id) (turned-reverse c.alarm_list)

length-newer :
    (id n : ℕ) (xs : List Alarm) → Numbered n xs → length (newer id xs) ≡ length xs - (suc id - n)
length-newer id n [] h = omega arith
length-newer id n (x ∷ xs) h = ground (arith, length-newer id (suc n) xs h.1)

-- Where the numbers are consecutive up to the counter, which has not wrapped, a listener that has not
-- fallen behind the front of the list is sent every alarm above its number, in order, and then stands
-- at the counter.
pub publish_event-caught_up :
    {uint_to_str : ℕ → String} (id first : ℕ) (c : AlarmCache)
    → IsRun uint_to_str first c
    → first ≤ suc id
    → id ≤ c.event_id
    → c.event_id < u64
    → publish_event id c ≡ (c.event_id, newer id c.alarm_list)
unfolding publish_event
publish_event-caught_up id first c h p q r =
    let sent = get_alarms_after_id_lem id first c h.numbered in
    rw (sent, publish_event) (λ i. (number i, newer id c.alarm_list))
  where
    number : add64 id (length (newer id c.alarm_list)) ≡ c.event_id
    number = omega (arith, length-newer id first c.alarm_list h.numbered, h.ends)

newer-all : (id n : ℕ) (xs : List Alarm) → Numbered n xs → id < n → newer id xs ≡ xs
newer-all id n [] h p = refl
newer-all id n (x ∷ xs) h p = ground (arith, newer-all id (suc n) xs h.1 (omega arith))

-- A listener that has fallen behind the front of a list with alarms counts too few: after a round that
-- sends it the whole list, the next round sends it alarms of that list again. The numbers are
-- consecutive up to the counter, which has not wrapped.
pub publish_event-again :
    {uint_to_str : ℕ → String} (id first : ℕ) (c : AlarmCache)
    → IsRun uint_to_str first c
    → suc id < first
    → 0 < length c.alarm_list
    → c.event_id < u64
    → let (id', sent) = publish_event id c in
      let (id'', again) = publish_event id' c in
      (sent ≡ c.alarm_list)
      × (id' < c.event_id)
      × (again ≡ newer id' c.alarm_list)
      × (0 < length again)
unfolding publish_event
publish_event-again id first c h p q r =
    let sent = get_alarms_after_id_lem id first c h.numbered in
    let whole = newer-all id first c.alarm_list h.numbered (omega arith) in
    let id' : ℕ = id + length c.alarm_list in
    let next : add64 id (length (get_alarms_after_id id c)) ≡ id' =
      omega (arith, ap length (sent ∙ whole), h.ends) in
    let again = get_alarms_after_id_lem id' first c h.numbered in
    (
      sent ∙ whole,
      omega (arith, next, h.ends),
      rw next again,
      rw (next, again) (omega (arith, length-newer id' first c.alarm_list h.numbered, h.ends)),
    )

find_uid-none : (id n : ℕ) (xs : List Alarm) → Numbered n xs → id < n → find_uid id xs ≡ none
unfolding find_uid
find_uid-none id n [] h p = refl
find_uid-none id n (x ∷ xs) h p = ground (arith, find_uid-none id (suc n) xs h.1 (omega arith))

find_uid-append :
    (id : ℕ) (xs ys : List Alarm)
    → find_uid id (xs ++ ys) ≡ (elim (find_uid id xs) [ none ↦ find_uid id ys | some a ↦ some a ])
unfolding find_uid
find_uid-append id [] ys = refl
find_uid-append id (x ∷ xs) ys = ground (arith, find_uid-append id xs ys)

find_uid-turned :
    (id n : ℕ) (xs : List Alarm) → Numbered n xs → find_uid id (turned uid_of xs) ≡ find_uid id xs
unfolding find_uid
find_uid-turned id n [] h = refl
find_uid-turned id n (x ∷ xs) h =
    let rest = find_uid-turned id (suc n) xs h.1 in
    let joined = find_uid-append id (turned uid_of xs) (x ∷ []) in
    elim (Bool-cases (nat_eq x.uid id)) [
      | inl here ↦
          let no_other = find_uid-none id (suc n) xs h.1 (ground (arith, here, h.0)) in
          ground (arith, rest, joined, no_other, here)
      | inr other ↦ ground (arith, rest, joined, other)
    ]

-- From whichever end the walk starts, the look-up in a list that is not empty finds the alarm of the
-- number where there is one. The numbers are consecutive.
pub get_alarm_from_list_lem :
    (id n e : ℕ) (t : Map Alarm) (a : Alarm) (rest : List Alarm)
    → Numbered n (a ∷ rest)
    → get_alarm_from_list id (record { alarms_table = t; alarm_list = a ∷ rest; event_id = e })
      ≡ some (find_uid id (a ∷ rest))
unfolding get_alarm_from_list
get_alarm_from_list_lem id n e t a rest h =
    let (back, last) = last?-ne-none a rest in
    let turn : find_uid id (reverse (a ∷ rest)) ≡ find_uid id (a ∷ rest) =
      ap (find_uid id) (sym (turned-eq-reverse (a ∷ rest))) ∙ find_uid-turned id n (a ∷ rest) h in
    rw (last, get_alarm_from_list)
      (ap some (if_both (ltb (sub64 id a.uid) (sub64 back.uid id)) refl turn))
