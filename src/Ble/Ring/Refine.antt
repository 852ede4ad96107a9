-- ===== src/Ble/Ring/Refine.antt =====
-- The ring is the bounded queue of the bytes that it holds.
use sticks3_buddy.Prelude.{
  ℕ, zero, suc, ◌+◌, ◌-◌, ◌%◌, ◌<◌, ◌≡◌, refl, sym, ap, ◌∙◌, ◌≢◌, true, Option, none, some, List,
  [], ◌∷◌, ◌++◌, arith, ltb, leb, ◌==◌, if◌then◌else◌, if_split, if_false, lt→ltb, ==_iff, length,
  get_or, set, take, length-append, length-set, take-nil, Bytes, get_or-set_self, get_or-set_ne,
}
use mathlib.Core.List.{append-nil, append_assoc}
use native.Mathlib.Nat.{mod-eq_of_lt, mod-eq-sub-mod}
use native.Mathlib.Decide.{dec_lt}
use sticks3_buddy.Ble.Ring.Queue
use sticks3_buddy.Ble.Ring.{Ring, push, available, read, Call, pushed, reads, run}

pub record IsValid (cap : ℕ) (r : Ring) : Type 0 where
  pub head_in : r.head < cap
  pub tail_in : r.tail < cap
  pub whole : length r.buf ≡ cap

-- The place `n` after `h`.
abbrev place : ℕ → ℕ → ℕ → ℕ
place cap h n = if ltb (h + n) cap then h + n else h + n - cap

mod_place : (cap a : ℕ) → 0 < cap → a < cap + cap → a % cap ≡ (if ltb a cap then a else a - cap)
mod_place cap a z h = elim (dec_lt a cap) [
  | yes p ↦ rw (mod-eq_of_lt p, lt→ltb a cap p)
  | no p ↦
      rw
        (
          mod-eq-sub-mod {n = a} {m = cap} (omega arith),
          mod-eq_of_lt {n = a - cap} {m = cap} (omega arith),
        )
        (sym (if_false (ltb a cap) a (a - cap) (ground (arith, p))))
]

module _ (cap : ℕ) where
  -- The `n` bytes from the place `h` on.
  window : List ℕ → ℕ → ℕ → Bytes
  window buf h zero = []
  window buf h (suc n) = get_or buf h 0 ∷ window buf (place cap h 1) n

  window-set :
      (buf : List ℕ) (h n i b : ℕ)
      → length buf ≡ cap
      → h < cap
      → n < cap
      → i ≡ place cap h n
      → window (set buf i b) h (suc n) ≡ window buf h n ++ (b ∷ [])
  unfolding window
  window-set buf h zero i b w p q e =
      rw (e ∙ here) (ap (λ x. x ∷ []) (get_or-set_self buf h b 0 (omega arith)))
    where
      here : place cap h 0 ≡ h
      here = ground arith
  window-set buf h (suc n) i b w p q e = λ k.
      get_or-set_ne buf i h b 0 away k
      ∷ window-set buf (place cap h 1) n i b w (ground arith) (omega arith) (e ∙ later) k
    where
      away : i ≢ h
      away = rw e (ground arith)

      later : place cap h (suc n) ≡ place cap (place cap h 1) n
      later = ground arith

  abbrev count : Ring → ℕ
  count r = if leb r.tail r.head then r.head - r.tail else r.head + cap - r.tail

  available-count : (r : Ring) → IsValid cap r → available cap r ≡ count r
  unfolding available
  available-count r v =
      mod_place cap (r.head + cap - r.tail) (omega (arith, v.head_in))
        (omega (arith, v.head_in, v.tail_in))
      ∙ ground (arith, v.head_in, v.tail_in)

  -- The bytes that the ring holds, the oldest first.
  pub contents : Ring → Bytes
  contents r = window r.buf r.tail (count r)

  length-window : (buf : List ℕ) (h n : ℕ) → length (window buf h n) ≡ n
  unfolding window
  length-window buf h zero = refl
  length-window buf h (suc n) = ap suc (length-window buf (place cap h 1) n)

  next_place : (h : ℕ) → h < cap → (h + 1) % cap ≡ place cap h 1
  next_place h p = mod_place cap (h + 1) (omega arith) (omega arith)

  -- One byte in front of a head that does not meet the tail.
  abbrev stored : ℕ → Ring → Ring
  stored b r = record r { buf = set r.buf r.head b; head = place cap r.head 1 }

  stored-IsValid : (b : ℕ) (r : Ring) → IsValid cap r → IsValid cap (stored b r)
  stored-IsValid b r v = record {
    head_in = ground (arith, v.head_in);
    tail_in = v.tail_in;
    whole = length-set r.buf r.head b ∙ v.whole;
  }

  count-stored :
      (b : ℕ) (r : Ring)
      → IsValid cap r
      → place cap r.head 1 ≢ r.tail
      → (count (stored b r) ≡ suc (count r)) × (count r < cap - 1)
  count-stored b r v ne =
      (ground (arith, v.head_in, v.tail_in), ground (arith, v.head_in, v.tail_in))

  count_full : (r : Ring) → IsValid cap r → place cap r.head 1 ≡ r.tail → count r ≡ cap - 1
  count_full r v e = ground (arith, v.head_in, v.tail_in)

  contents-stored :
      (b : ℕ) (r : Ring)
      → IsValid cap r
      → place cap r.head 1 ≢ r.tail
      → contents (stored b r) ≡ contents r ++ (b ∷ [])
  unfolding contents
  contents-stored b r v ne =
      ap (window (set r.buf r.head b) r.tail) (count-stored b r v ne).0
      ∙ window-set r.buf r.tail (count r) r.head b v.whole v.tail_in
          (omega (arith, (count-stored b r v ne).1)) (ground (arith, v.head_in, v.tail_in))

  length-contents : (r : Ring) → length (contents r) ≡ count r
  unfolding contents
  length-contents r = length-window r.buf r.tail (count r)

  -- A byte that fits goes to the end of the queue.
  push_fits :
      (b m : ℕ) (q p : Bytes)
      → cap - 1 - length q ≡ suc m
      → Queue.push cap p (q ++ (b ∷ [])) ≡ Queue.push cap (b ∷ p) q
  unfolding Queue.push
  push_fits b m q p e =
      append_assoc q (b ∷ []) (take (cap - 1 - length (q ++ (b ∷ []))) p)
      ∙ ap (λ n. q ++ (b ∷ take n p)) left
      ∙ ap (λ n. q ++ take n (b ∷ p)) (sym e)
    where
      left : cap - 1 - length (q ++ (b ∷ [])) ≡ m
      left = omega (arith, length-append q (b ∷ []), e)

  push_full : (p q : Bytes) → cap - 1 - length q ≡ 0 → Queue.push cap p q ≡ q
  unfolding Queue.push
  push_full p q e = ap (λ n. q ++ take n p) e ∙ append-nil q

  push-Refines :
      (p : Bytes) (r : Ring)
      → IsValid cap r
      → IsValid cap (push cap p r) × (contents (push cap p r) ≡ Queue.push cap p (contents r))
  unfolding push
  push-Refines [] r v = (
    v,
    sym (unfold Queue.push in ap (λ t. contents r ++ t) (take-nil _) ∙ append-nil (contents r)),
  )
  push-Refines (b ∷ p) r v =
      let after = push-Refines p (stored b r) (stored-IsValid b r v) in
      rw (next_place r.head v.head_in) (
        if_split (λ s. IsValid cap s × (contents s ≡ Queue.push cap (b ∷ p) (contents r)))
          (place cap r.head 1 == r.tail) (λ e. (v, sym (full e)))
          (λ e. (after.0, after.1 ∙ one (ground (arith, e)))))
    where
      full :
          (place cap r.head 1 == r.tail) ≡ true → Queue.push cap (b ∷ p) (contents r) ≡ contents r
      full e =
          push_full (b ∷ p) (contents r)
            (omega (arith, length-contents r, count_full r v ((==_iff _ _).0 e)))

      one :
          place cap r.head 1 ≢ r.tail
          → Queue.push cap p (contents (stored b r)) ≡ Queue.push cap (b ∷ p) (contents r)
      one ne =
          ap (Queue.push cap p) (contents-stored b r v ne)
          ∙ push_fits b (cap - 2 - count r) (contents r) p
              (omega (arith, length-contents r, (count-stored b r v ne).1))

  -- The ring after a read of a byte.
  abbrev taken : Ring → Ring
  taken r = record r { tail = place cap r.tail 1 }

  contents_empty : (r : Ring) → r.head ≡ r.tail → contents r ≡ []
  unfolding contents window
  contents_empty r e = ap (window r.buf r.tail) none_left
    where
      none_left : count r ≡ 0
      none_left = ground (arith, e)

  contents-taken :
      (r : Ring)
      → IsValid cap r
      → r.head ≢ r.tail
      → contents r ≡ get_or r.buf r.tail 0 ∷ contents (taken r)
  unfolding contents window
  contents-taken r v ne = ap (window r.buf r.tail) one_more
    where
      one_more : count r ≡ suc (count (taken r))
      one_more = ground (arith, v.head_in, v.tail_in)

  read-Refines :
      (r : Ring)
      → IsValid cap r
      → IsValid cap (read cap r).0
        × ((contents (read cap r).0, (read cap r).1) ≡ Queue.read (contents r))
  unfolding read Queue.read
  read-Refines r v = rw (next_place r.tail v.tail_in) (
      if_split
        (λ (s : Ring × Option ℕ). IsValid cap s.0 × ((contents s.0, s.1) ≡ Queue.read (contents r)))
        (r.head == r.tail) (λ e. (v, empty ((==_iff _ _).0 e)))
        (λ e. (valid, one (ground (arith, e)))))
    where
      valid : IsValid cap (taken r)
      valid = record { head_in = v.head_in; tail_in = ground (arith, v.tail_in); whole = v.whole }

      empty : r.head ≡ r.tail → (contents r, none) ≡ Queue.read (contents r)
      empty e = ap (λ q. (q, none)) (contents_empty r e) ∙ ap Queue.read (sym (contents_empty r e))

      one :
          r.head ≢ r.tail
          → (contents (taken r), some (get_or r.buf r.tail 0)) ≡ Queue.read (contents r)
      one ne = ap Queue.read (sym (contents-taken r v ne))

  -- However the writes of the BLE task and the reads of the main loop are interleaved, the reads
  -- return what a first-in first-out queue of `cap - 1` bytes returns, which drops what does not
  -- fit: no byte is reordered, repeated or made up.
  pub run-Refines :
      (calls : List Call) (r : Ring)
      → IsValid cap r
      → (run cap r calls).1 ≡ Queue.run cap (contents r) calls
  unfolding run Queue.run
  run-Refines [] r v = refl
  run-Refines (pushed p ∷ calls) r v =
      let (valid, same) = push-Refines p r v in
      run-Refines calls (push cap p r) valid ∙ ap (λ q. Queue.run cap q calls) same
  run-Refines (reads ∷ calls) r v =
      let (valid, same) = read-Refines r v in
      ap (λ bs. (read cap r).1 ∷ bs) (run-Refines calls (read cap r).0 valid)
      ∙ ap (λ (s : Bytes × Option ℕ). s.1 ∷ Queue.run cap s.0 calls) same

  -- bleAvailable counts them.
  pub available-contents : (r : Ring) → IsValid cap r → available cap r ≡ length (contents r)
  available-contents r v = available-count r v ∙ sym (length-contents r)
