-- ===== src/Text/Utf8/Prefix.antt =====
-- Truncation between code points: the longest prefix that fits and ends at a boundary.
use sticks3_buddy.Prelude.{
  ℕ, zero, suc, ◌+◌, ◌-◌, ◌≤◌, ◌<◌, ◌≡◌, refl, ◌∙◌, ◌≢◌, ◌⊎◌, inl, inr, some, [], ◌∷◌, arith, ltb,
  Bool-cases, length, drop, length-drop, Bytes,
}
use native.Mathlib.Nat.{zero-add}
use sticks3_buddy.Text.Utf8.{codepoint_bytes, step_bytes, prefix_loop, safe_prefix_bytes}

-- The places between the code points of a text.
pub data Boundary : Bytes → ℕ → Type 0 where
  start : {s : Bytes} → Boundary s 0
  next :
      {s : Bytes} {m : ℕ} (n : ℕ)
      → s ≢ []
      → Boundary (drop (step_bytes s) s) n
      → m ≡ step_bytes s + n
      → Boundary s m

step_bytes_pos : (s : Bytes) → 1 ≤ step_bytes s
unfolding step_bytes codepoint_bytes
step_bytes_pos [] = omega arith
step_bytes_pos (c ∷ rest) = ground arith

-- What a longer boundary needs.
Boundary-cases :
    {s : Bytes} {m : ℕ}
    → Boundary s m
    → (m ≡ 0) ⊎ ((n : ℕ) × (s ≢ []) × Boundary (drop (step_bytes s) s) n × (m ≡ step_bytes s + n))
Boundary-cases start = inl refl
Boundary-cases (next n h b e) = inr (n, h, b, e)

-- From `used` on, the loop goes `n` bytes further, to the last boundary within the limit.
abbrev Greedy : ℕ → Bytes → ℕ → ℕ → Type 0
Greedy limit text used r =
    (n : ℕ) × (r ≡ used + n)
    × Boundary text n
    × (used + n ≤ limit)
    × ((m : ℕ) → Boundary text m → used + m ≤ limit → m ≤ n)

stops :
    (limit used : ℕ) (text : Bytes)
    → used ≤ limit
    → ((m : ℕ) → Boundary text m → used + m ≤ limit → m ≤ 0)
    → Greedy limit text used used
stops limit used text h most = (0, omega arith, start, omega arith, most)

Boundary-nil : {m : ℕ} → Boundary [] m → m ≤ 0
Boundary-nil b = elim (Boundary-cases b) [
  | inl e ↦ omega arith
  | inr (n, h, c, e) ↦ absurd (h refl)
]

-- No boundary but the first stands before the end of the first code point.
Boundary-short : (s : Bytes) (m k : ℕ) → Boundary s m → k < step_bytes s → m ≤ k → m ≤ 0
Boundary-short s m k b h l = elim (Boundary-cases b) [
  | inl e ↦ omega arith
  | inr (n, q, c, e) ↦ omega arith
]

extend :
    (limit used : ℕ) (s : Bytes) {r : ℕ}
    → s ≢ []
    → Greedy limit (drop (step_bytes s) s) (used + step_bytes s) r
    → Greedy limit s used r
extend limit used s ne (n, e, b, l, most) =
    (step_bytes s + n, omega arith, next n ne b refl, omega arith, longest)
  where
    longest : (m : ℕ) → Boundary s m → used + m ≤ limit → m ≤ step_bytes s + n
    longest m c h = elim (Boundary-cases c) [
      | inl q ↦ omega arith
      | inr (k, q, d, p) ↦ omega (arith, most k d (omega arith))
    ]

prefix_loop-Greedy :
    (fuel limit : ℕ) (text : Bytes) (used : ℕ)
    → length text ≤ fuel
    → used ≤ limit
    → Greedy limit text used (prefix_loop fuel limit text used)
unfolding prefix_loop
prefix_loop-Greedy zero limit [] used f h = stops limit used [] h (λ m b l. Boundary-nil b)
prefix_loop-Greedy zero limit (c ∷ rest) used f h = absurd (omega arith)
prefix_loop-Greedy (suc fuel) limit [] used f h = stops limit used [] h (λ m b l. Boundary-nil b)
prefix_loop-Greedy (suc fuel) limit (c ∷ rest) used f h = elim (Bool-cases (ltb used limit)) [
  | inr full ↦ rw full (stops limit used (c ∷ rest) h (λ m b l. ground arith))
  | inl room ↦ elim (Bool-cases (ltb limit (used + step_bytes (c ∷ rest)))) [
    | inl over ↦
        rw (room, over)
          (stops limit used (c ∷ rest) h
            (λ m b l. Boundary-short (c ∷ rest) m (limit - used) b (ground arith) (omega arith)))
    | inr fits ↦
        rw (room, fits)
          (extend limit used (c ∷ rest) (λ e. cc)
            (prefix_loop-Greedy fuel limit (drop (step_bytes (c ∷ rest)) (c ∷ rest))
              (used + step_bytes (c ∷ rest))
              (omega
                (arith, step_bytes_pos (c ∷ rest), length-drop (step_bytes (c ∷ rest)) (c ∷ rest)))
              (ground arith)))
  ]
]

-- The prefix fits the limit, ends between two code points, and is the longest such prefix.
pub safe_prefix_bytes-Boundary :
    (text : Bytes) (limit : ℕ)
    → Boundary text (safe_prefix_bytes (some text) limit)
      × (safe_prefix_bytes (some text) limit ≤ limit)
      × ((m : ℕ) → Boundary text m → m ≤ limit → m ≤ safe_prefix_bytes (some text) limit)
unfolding safe_prefix_bytes
safe_prefix_bytes-Boundary text limit =
    let (n, e, b, l, most) =
      prefix_loop-Greedy (length text) limit text 0 (omega arith) (omega arith) in
    rw (e ∙ zero-add n) (b, omega arith, λ m c h. most m c (omega arith))
