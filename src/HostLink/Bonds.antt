-- ===== src/HostLink/Bonds.antt =====
-- More bonds than records: where a bond in a list has no record, the list is longer than the table.
use sticks3_buddy.Prelude.{
  ℕ, zero, suc, ◌+◌, ◌-◌, ◌≤◌, ◌<◌, ◌≡◌, sym, ap, ◌∙◌, ◌≢◌, ◌⊎◌, inl, inr, true, none, List, [],
  ◌∷◌, arith, ltb, ◌==◌, if◌then◌else◌, Bool-cases, length, Bytes, bytes_eq, bytes_eq→eq,
  bytes_eq-of_eq, before, before-injective, before-ne, before_lt,
}
use sticks3_buddy.Hosts.{HostTable, host, find_bda}
use sticks3_buddy.Hosts.Keys.{IsValid, find_bda-none}
use sticks3_buddy.HostLink.Reconcile.{bonded}

found :
    (n : ℕ) (f : ℕ → Bytes) (c : Bytes)
    → ((i : ℕ) × (i < n) × (f i ≡ c)) ⊎ ((i : ℕ) → i < n → f i ≢ c)
found zero f c = inr (λ i l. absurd (omega arith))
found (suc n) f c = elim (found n f c) [
  | inl (i, l, e) ↦ inl (i, omega arith, e)
  | inr none_below ↦ elim (Bool-cases (bytes_eq (f n) c)) [
    | inl e ↦ inl (n, omega arith, bytes_eq→eq (f n) c e)
    | inr ne ↦ inr (λ i l e. elim (Bool-cases (i == n)) [
      | inl h ↦
          let same : f n ≡ c = ap f {y = i} (ground (arith, h)) ∙ e in
          absurd (cc (bytes_eq-of_eq (f n) c same, ne))
      | inr h ↦ none_below i (ground (arith, h)) e
    ])
  ]
]

bonded-tail :
    (c : Bytes) (cs : List Bytes) (x : Bytes)
    → bonded (c ∷ cs) x ≡ true
    → x ≢ c
    → bonded cs x ≡ true
unfolding bonded
bonded-tail c cs x h ne = elim (Bool-cases (bytes_eq x c)) [
  | inl e ↦ absurd (ne (bytes_eq→eq x c e))
  | inr e ↦ rw e at h
]

-- A list that holds n different keys has n elements at least.
distinct_le :
    (cs : List Bytes) (n : ℕ) (f : ℕ → Bytes)
    → ((i j : ℕ) → i < n → j < n → f i ≡ f j → i ≡ j)
    → ((i : ℕ) → i < n → bonded cs (f i) ≡ true)
    → n ≤ length cs
distinct_le [] zero f inj own = omega arith
distinct_le [] (suc n) f inj own = absurd (unfold bonded in cc (own 0 (omega arith)))
distinct_le (c ∷ cs) n f inj own = elim (found n f c) [
  | inr other ↦
      let rest = distinct_le cs n f inj (λ i l. bonded-tail c cs (f i) (own i l) (other i l)) in
      omega (arith, rest)
  | inl (k, l, e) ↦
      let rest =
        distinct_le cs (n - 1) (λ j. f (before k j))
          (λ i j p q h. before-injective k i j (inj _ _ (before_lt n k i p) (before_lt n k j q) h))
          (λ i p.
            bonded-tail c cs (f (before k i)) (own _ (before_lt n k i p))
              (λ h. before-ne k i (inj _ _ (before_lt n k i p) l (h ∙ sym e)))) in
      omega (arith, rest)
]

-- The addresses of the records, and behind them one more.
abbrev address : HostTable → Bytes → ℕ → Bytes
address t b i = if ltb i t.count then (host t i).bda else b

address-host : (t : HostTable) (b : Bytes) (i : ℕ) → i < t.count → address t b i ≡ (host t i).bda
address-host t b i l = ground arith

address_new : (t : HostTable) (b : Bytes) (i : ℕ) → t.count ≤ i → address t b i ≡ b
address_new t b i l = ground arith

pub new-bond :
    (bonds : List Bytes) (t : HostTable) (b : Bytes)
    → IsValid t
    → ((j : ℕ) → j < t.count → bonded bonds (host t j).bda ≡ true)
    → find_bda t b ≡ none
    → bonded bonds b ≡ true
    → t.count < length bonds
new-bond bonds t b v all fresh own =
    let enough = distinct_le bonds (t.count + 1) (address t b) inj each in omega (arith, enough)
  where
    each : (i : ℕ) → i < t.count + 1 → bonded bonds (address t b i) ≡ true
    each i l = elim (Bool-cases (ltb i t.count)) [
      | inl r ↦
          ap (bonded bonds) (address-host t b i (ground (arith, r))) ∙ all i (ground (arith, r))
      | inr r ↦ ap (bonded bonds) (address_new t b i (ground (arith, r))) ∙ own
    ]

    new_one : (i j : ℕ) → i < t.count → t.count ≤ j → address t b i ≢ address t b j
    new_one i j l r e =
        find_bda-none t b i fresh l (sym (address-host t b i l) ∙ e ∙ address_new t b j r)

    inj : (i j : ℕ) → i < t.count + 1 → j < t.count + 1 → address t b i ≡ address t b j → i ≡ j
    inj i j l r e = elim (Bool-cases (ltb i t.count)) [
      | inl p ↦ elim (Bool-cases (ltb j t.count)) [
        | inl q ↦ v.unique i j (ground (arith, p)) (ground (arith, q)) (
            sym (address-host t b i (ground (arith, p)))
            ∙ e
            ∙ address-host t b j (ground (arith, q)))
        | inr q ↦ absurd (new_one i j (ground (arith, p)) (ground (arith, q)) e)
      ]
      | inr p ↦ elim (Bool-cases (ltb j t.count)) [
        | inl q ↦ absurd (new_one j i (ground (arith, q)) (ground (arith, p)) (sym e))
        | inr q ↦ ground (arith, p, q)
      ]
    ]
