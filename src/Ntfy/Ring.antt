-- ===== src/Ntfy/Ring.antt =====
-- The ring against a list of cards, newest first.
use sticks3_buddy.Prelude.{
  ℕ, zero, suc, ◌+◌, ◌-◌, ◌%◌, ◌≤◌, ◌<◌, ◌≡◌, refl, ap, ◌∙◌, inl, inr, Option, none, some, List,
  arith, ltb, leb, ◌==◌, if◌then◌else◌, Bool-cases, length, get_or, set, replicate, length-set,
  Bytes, copy_loop, get_or-set_self, get_or-set_ne, set_cases, length-copy_loop, copy_loop_inside,
  before,
}
use sticks3_buddy.Ntfy.{
  NtfyCard, NtfyStore, no_card, new_card, push, card_at, phys, keep, keep_loop, repack, dismiss,
}

-- The array is full size, and the counters are in range.
pub record IsValid (n : NtfyStore) : Type 0 where
  pub full : length n.card ≡ 4
  pub head_fits : n.head < 4
  pub count_fits : n.count ≤ 4
  pub seen : n.unread ≤ n.count

-- A push leaves a valid ring.
pub push-IsValid :
    (n : NtfyStore) (kind title body : Option Bytes) (ts : ℕ)
    → IsValid n
    → IsValid (push n kind title body ts)
unfolding push
push-IsValid n kind title body ts v = record {
  full = length-set n.card n.head (new_card kind title body ts) ∙ v.full;
  head_fits = omega arith;
  count_fits = ground (arith, v.count_fits);
  seen = ground (arith, v.count_fits, v.seen);
}

-- After a push view 0 is the new card, view j + 1 is the card that was at view j, and the fifth
-- card is gone.
pub card_at-push :
    (n : NtfyStore) (kind title body : Option Bytes) (ts : ℕ) (j : ℕ)
    → IsValid n
    → (card_at (push n kind title body ts) 0 ≡ some (new_card kind title body ts))
      × (card_at (push n kind title body ts) (suc j) ≡ (if ltb j 3 then card_at n j else none))
unfolding push card_at
card_at-push n kind title body ts j v = (
  ground
      (arith, slot0, get_or-set_self n.card n.head c no_card (omega (arith, v.full, v.head_fits))),
  ground (arith, v.count_fits, slot, written),
)
  where
    c : NtfyCard
    c = new_card kind title body ts

    slot0 : ((n.head + 1) % 4 + 3 - 0) % 4 ≡ n.head
    slot0 = omega (arith, v.head_fits)

    slot : j < 3 → ((n.head + 1) % 4 + 3 - suc j) % 4 ≡ (n.head + 3 - j) % 4
    slot l = omega (arith, v.head_fits)

    written :
        j < 3
        → get_or (set n.card n.head c) ((n.head + 3 - j) % 4) no_card
          ≡ get_or n.card ((n.head + 3 - j) % 4) no_card
    written l =
        get_or-set_ne n.card n.head ((n.head + 3 - j) % 4) c no_card (omega (arith, v.head_fits))

-- The place of the oldest-first order that a dismissal of view `v` leaves out.
abbrev gap : NtfyStore → ℕ → ℕ
gap n v = n.count - 1 - v

-- The cards copied before round i.
abbrev kept : ℕ → ℕ → ℕ
kept g i = if ltb g i then i - 1 else i

module _ (n : NtfyStore) (v : ℕ) (h : v < n.count) (fits : n.count ≤ 4) where
  abbrev source : ℕ → NtfyCard
  source m = get_or n.card (phys n m) no_card

  keep_loop-count :
      (rounds i k : ℕ) (tmp : List NtfyCard)
      → rounds + i ≡ n.count
      → k ≡ kept (gap n v) i
      → (keep_loop rounds i n v tmp k).1 ≡ n.count - 1
  unfolding keep_loop keep
  keep_loop-count zero i k tmp e q = ground arith
  keep_loop-count (suc rounds) i k tmp e q = elim (Bool-cases (n.count - 1 - i == v)) [
    | inl out ↦
        rw (keep_loop, keep, out)
          (keep_loop-count rounds (suc i) k tmp (omega arith) (ground arith))
    | inr copied ↦
        rw (keep_loop, keep, copied)
          (keep_loop-count rounds (suc i) (k + 1) (set tmp k (source i)) (omega arith)
            (ground arith))
  ]

  keep_loop-entries :
      (rounds i k m : ℕ) (tmp : List NtfyCard)
      → length tmp ≡ 4
      → rounds + i ≡ n.count
      → k ≡ kept (gap n v) i
      → ((j : ℕ) → j < k → get_or tmp j no_card ≡ source (before (gap n v) j))
      → m < n.count - 1
      → get_or (keep_loop rounds i n v tmp k).0 m no_card ≡ source (before (gap n v) m)
  unfolding keep_loop keep
  keep_loop-entries zero i k m tmp f e q old l = old m (ground arith)
  keep_loop-entries (suc rounds) i k m tmp f e q old l = elim (Bool-cases (n.count - 1 - i == v)) [
    | inl out ↦
        rw (keep_loop, keep, out)
          (keep_loop-entries rounds (suc i) k m tmp f (omega arith) (ground arith) old l)
    | inr copied ↦
        rw (keep_loop, keep, copied)
          (keep_loop-entries rounds (suc i) (k + 1) m (set tmp k (source i))
            (length-set tmp k (source i) ∙ f) (omega arith) (ground arith)
            (λ j a.
              set_cases (λ x. x ≡ source (before (gap n v) j)) tmp k j (source i) no_card
                (ground arith) (λ same. ap source (ground arith)) (λ ne. old j (omega arith)))
            l)
  ]

-- What is copied for a dismissal.
abbrev copied : NtfyStore → ℕ → List NtfyCard × ℕ
copied n v = keep_loop n.count 0 n v (replicate 4 no_card) 0

-- A dismissal in range takes out the card of that view: view j of the ring that is left is the old
-- view j before the gap and the old view j + 1 from the gap on, with nothing behind the last.
pub card_at-dismiss :
    (n : NtfyStore) (v j : ℕ)
    → IsValid n
    → v < n.count
    → card_at (dismiss n v).0 j ≡ card_at n (before v j)
unfolding dismiss card_at repack
card_at-dismiss n v j w h = ground (arith, k, w.count_fits, entry, slots)
  where
    k : (copied n v).1 ≡ n.count - 1
    k =
        keep_loop-count n v h w.count_fits n.count 0 0 (replicate 4 no_card) (omega arith)
          (ground arith)

    entry :
        j < n.count - 1
        → get_or
            (copy_loop (copied n v).1 0 n.card (copied n v).0 no_card)
            (((copied n v).1 + 3 - j) % 4)
            no_card
          ≡ get_or n.card (phys n (before (gap n v) (n.count - 2 - j))) no_card
    entry l =
        ap (λ (x : ℕ). get_or (copy_loop (copied n v).1 0 n.card (copied n v).0 no_card) x no_card)
          (omega (arith, k, w.count_fits))
        ∙ copy_loop_inside (copied n v).1 0 n.card (copied n v).0 no_card (n.count - 2 - j)
            (omega arith) (omega (arith, k)) (omega (arith, k, w.full, w.count_fits))
        ∙ keep_loop-entries n v h w.count_fits n.count 0 0 (n.count - 2 - j) (replicate 4 no_card)
            refl (omega arith) (ground arith) (λ i b. absurd (omega arith)) (omega arith)

    slots :
        j < n.count - 1
        → phys n (before (gap n v) (n.count - 2 - j)) ≡ (n.head + 3 - before v j) % 4
    slots l = ground (arith, w.count_fits, w.head_fits)

-- A dismissal leaves a valid ring, and it reports whether the view was in range.
pub dismiss-IsValid :
    (n : NtfyStore) (v : ℕ)
    → IsValid n
    → IsValid (dismiss n v).0 × ((dismiss n v).1 ≡ ltb v n.count)
unfolding dismiss repack
dismiss-IsValid n v w = elim (Bool-cases (leb n.count v)) [
  | inl out ↦ rw out (w, ground arith)
  | inr within ↦ rw within (
    repacked (
        keep_loop-count n v (ground arith) w.count_fits n.count 0 0 (replicate 4 no_card)
          (omega arith) (ground arith)),
    ground arith,
  )
]
  where
    repacked : (copied n v).1 ≡ n.count - 1 → IsValid (repack n (copied n v))
    repacked k = record {
      full = length-copy_loop (copied n v).1 0 n.card (copied n v).0 no_card ∙ w.full;
      head_fits = omega (arith, k, w.count_fits);
      count_fits = omega (arith, k, w.count_fits);
      seen = ground arith;
    }
