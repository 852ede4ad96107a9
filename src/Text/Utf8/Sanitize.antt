-- ===== src/Text/Utf8/Sanitize.antt =====
-- What the displays get: printable ASCII that fits the buffer, and nothing else.
use sticks3_buddy.Prelude.{
  ℕ, zero, suc, ◌-◌, ◌≤◌, ◌<◌, ◌≡◌, ap, ◌∙◌, inl, inr, Option, none, some, [], ◌∷◌, ◌++◌, arith,
  ltb, ◌==◌, Bool-cases, Option-cases, length, take, drop, All, All-append, All-take, length-append,
  length-take_le, take-nil, take_of_length_le, Bytes,
}
use mathlib.Core.List.{append_assoc, append-nil}
use sticks3_buddy.Text.Utf8.{
  lead_byte, decode, replacement, display_byte, render, sanitize_loop, sanitize,
}

abbrev pub IsPrintable : ℕ → Type 0
IsPrintable c = (0x20 ≤ c) × (c < 0x7F)

replacement-IsPrintable : (cp : ℕ) → All IsPrintable (replacement cp)
unfolding replacement
replacement-IsPrintable cp = ground arith

display_byte-IsPrintable : (c : ℕ) → IsPrintable (display_byte c)
display_byte-IsPrintable c = ground arith

render-IsPrintable : (c : ℕ) (rest : Bytes) → All IsPrintable (render c rest).0
unfolding render
render-IsPrintable c rest = elim (Bool-cases (ltb c 0x80)) [
  | inl e ↦ rw e (display_byte-IsPrintable c, tt)
  | inr e ↦ elim (Option-cases (lead_byte c)) [
    | inl q ↦ rw (e, q) tt
    | inr (p, q) ↦ rw (e, q) (replacement-IsPrintable (decode (p.1 - 1) rest p.0 1).0)
  ]
]

sanitize_loop-IsPrintable :
    (fuel limit : ℕ) (src out : Bytes)
    → All IsPrintable out
    → All IsPrintable (sanitize_loop fuel limit src out)
unfolding sanitize_loop
sanitize_loop-IsPrintable zero limit src out h = h
sanitize_loop-IsPrintable (suc fuel) limit [] out h = h
sanitize_loop-IsPrintable (suc fuel) limit (c ∷ rest) out h =
    elim (Bool-cases (ltb (length out) limit)) [
      | inl e ↦ rw e (
          sanitize_loop-IsPrintable fuel limit (drop (render c rest).1 (c ∷ rest))
            (out ++ take (limit - length out) (render c rest).0)
            (All-append IsPrintable out _ h
              (All-take IsPrintable (limit - length out) _ (render-IsPrintable c rest))))
      | inr e ↦ rw e h
    ]

length-sanitize_loop :
    (fuel limit : ℕ) (src out : Bytes)
    → length out ≤ limit
    → length (sanitize_loop fuel limit src out) ≤ limit
unfolding sanitize_loop
length-sanitize_loop zero limit src out h = h
length-sanitize_loop (suc fuel) limit [] out h = h
length-sanitize_loop (suc fuel) limit (c ∷ rest) out h =
    elim (Bool-cases (ltb (length out) limit)) [
      | inl e ↦ rw e (
          length-sanitize_loop fuel limit (drop (render c rest).1 (c ∷ rest))
            (out ++ take (limit - length out) (render c rest).0)
            (omega (
              arith,
              length-append out (take (limit - length out) (render c rest).0),
              length-take_le (limit - length out) (render c rest).0,
            )))
      | inr e ↦ rw e h
    ]

-- Whatever bytes come in, the buffer holds printable ASCII, and its terminator fits.
pub sanitize-IsPrintable :
    (cap : ℕ) (src : Option Bytes)
    → All IsPrintable (sanitize cap src) × (length (sanitize cap src) ≤ cap - 1)
unfolding sanitize
sanitize-IsPrintable cap none = (tt, omega arith)
sanitize-IsPrintable cap (some src) = elim (Bool-cases (cap == 0)) [
  | inl e ↦ rw e (tt, omega arith)
  | inr e ↦ rw e (
    sanitize_loop-IsPrintable (length src) (cap - 1) src [] tt,
    length-sanitize_loop (length src) (cap - 1) src [] (omega arith),
  )
]

render_ascii : (c : ℕ) (rest : Bytes) → IsPrintable c → render c rest ≡ (c ∷ [], 1)
unfolding render
render_ascii c rest h = ground arith

-- With fuel for every byte, printable text is copied as far as it fits.
sanitize_loop_ascii :
    (fuel limit : ℕ) (src out : Bytes)
    → length src ≤ fuel
    → All IsPrintable src
    → sanitize_loop fuel limit src out ≡ out ++ take (limit - length out) src
unfolding sanitize_loop
sanitize_loop_ascii zero limit [] out f p = rw (take-nil, append-nil)
sanitize_loop_ascii zero limit (c ∷ rest) out f p = absurd (omega arith)
sanitize_loop_ascii (suc fuel) limit [] out f p = rw (take-nil, append-nil)
sanitize_loop_ascii (suc fuel) limit (c ∷ rest) out f p =
    elim (Bool-cases (ltb (length out) limit)) [
      | inl e ↦
          rw (e, render_ascii c rest p.0)
            (copied (limit - length out - 1) (ground arith)
              (sanitize_loop_ascii fuel limit rest (out ++ c ∷ []) (omega arith) p.1))
      | inr e ↦ rw e (full (limit - length out) (ground arith))
    ]
  where
    copied :
        (k : ℕ)
        → limit - length out ≡ suc k
        → sanitize_loop fuel limit rest (out ++ c ∷ [])
          ≡ (out ++ c ∷ []) ++ take (limit - length (out ++ c ∷ [])) rest
        → sanitize_loop fuel limit rest (out ++ take (limit - length out) (c ∷ []))
          ≡ out ++ take (limit - length out) (c ∷ rest)
    copied k e ih =
        rw (e, take-nil)
          (ih
            ∙ append_assoc out (c ∷ []) _
            ∙ ap (λ (n : ℕ). out ++ c ∷ take n rest) (omega (arith, length-append out (c ∷ []))))

    full : (k : ℕ) → k ≡ 0 → out ≡ out ++ take k (c ∷ rest)
    full k e = rw (e, append-nil)

-- Printable text is kept as it is, cut to the buffer.
pub sanitize_ascii :
    (cap : ℕ) (src : Bytes) → All IsPrintable src → sanitize cap (some src) ≡ take (cap - 1) src
unfolding sanitize
sanitize_ascii size src p = elim (Bool-cases (size == 0)) [
  | inl e ↦ rw e (empty (size - 1) (ground arith))
  | inr e ↦ rw e (
      sanitize_loop_ascii (length src) (size - 1) src [] (omega arith) p
      ∙ ap (λ (n : ℕ). take n src) (omega arith))
]
  where
    empty : (k : ℕ) → k ≡ 0 → [] ≡ take k src
    empty k e = rw e

-- So text that was sanitized once passes a second time unchanged.
pub sanitize-sanitize :
    (cap : ℕ) (src : Option Bytes) → sanitize cap (some (sanitize cap src)) ≡ sanitize cap src
sanitize-sanitize cap src =
    sanitize_ascii cap (sanitize cap src) (sanitize-IsPrintable cap src).0
    ∙ take_of_length_le (cap - 1) (sanitize cap src) (sanitize-IsPrintable cap src).1
