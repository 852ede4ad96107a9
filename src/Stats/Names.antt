-- ===== src/Stats/Names.antt =====
-- What is stored as a name cannot break the JSON text that it is printed into.
use sticks3_buddy.Prelude.{
  ℕ, ◌-◌, ◌≤◌, ◌<◌, ◌≡◌, ◌≢◌, inl, inr, true, not, ◌&&◌, [], ◌∷◌, ◌++◌, arith, ltb, leb, ◌==◌,
  Bool-cases, length, All, All-append, length-append, Bytes,
}
use sticks3_buddy.Stats.{safe_copy, safe_copy_loop}

-- Neither a quote nor a backslash nor a control byte.
abbrev pub IsPlain : ℕ → Type 0
IsPlain c = (c ≢ b'"') × (c ≢ b'\\') × (0x20 ≤ c)

safe_copy_loop-IsPlain :
    (src : Bytes) (room : ℕ) (out : Bytes)
    → All IsPlain out
    → length out ≤ room
    → All IsPlain (safe_copy_loop src room out) × (length (safe_copy_loop src room out) ≤ room)
unfolding safe_copy_loop
safe_copy_loop-IsPlain [] room out h k = (h, k)
safe_copy_loop-IsPlain (c ∷ rest) room out h k = elim (Bool-cases (ltb (length out) room)) [
  | inr full ↦ rw full (h, k)
  | inl space ↦ elim (Bool-cases (not (c == b'"') && not (c == b'\\') && leb 0x20 c)) [
    | inr other ↦ rw (space, other) (safe_copy_loop-IsPlain rest room out h k)
    | inl plain ↦
        rw (space, plain)
          (safe_copy_loop-IsPlain rest room (out ++ (c ∷ []))
            (All-append IsPlain out (c ∷ []) h (is_plain plain, tt))
            (ground (arith, length-append out (c ∷ []), space)))
  ]
]
  where
    is_plain : (not (c == b'"') && not (c == b'\\') && leb 0x20 c) ≡ true → IsPlain c
    is_plain e = ground arith

-- A stored name holds only plain bytes and leaves room for its terminator, whatever was sent.
pub safe_copy-IsPlain :
    (dst_len : ℕ) (src : Bytes)
    → 0 < dst_len
    → All IsPlain (safe_copy dst_len src) × (length (safe_copy dst_len src) < dst_len)
unfolding safe_copy
safe_copy-IsPlain dst_len src h =
    let (a, b) = safe_copy_loop-IsPlain src (dst_len - 1) [] tt (omega arith) in
    (a, omega (arith, b))
