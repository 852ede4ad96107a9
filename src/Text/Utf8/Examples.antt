-- ===== src/Text/Utf8/Examples.antt =====
-- The text functions at concrete inputs.
use sticks3_buddy.Prelude.{ℕ, ◌≤◌, ◌≡◌, refl, true, some, [], ◌∷◌, arith, length, All, Bytes, codes}
use sticks3_buddy.Text.Utf8.{
  codepoint_bytes, step_bytes, continues, prefix_loop, safe_prefix_bytes, lead_byte, decode,
  replacement, render, sanitize_loop, sanitize, contains_non_ascii,
}
use sticks3_buddy.Text.Utf8.Sanitize.{
  IsPrintable, sanitize-IsPrintable, sanitize_ascii, sanitize-sanitize,
}
use sticks3_buddy.Text.Utf8.Prefix.{Boundary, safe_prefix_bytes-Boundary}

-- "a" and an em dash, then a stray byte, a tab and "z".
abbrev mixed : Bytes
mixed = 97 ∷ 0xE2 ∷ 0x80 ∷ 0x94 ∷ 0x80 ∷ 9 ∷ 122 ∷ []

sanitize_runs : sanitize 24 (some mixed) ≡ codes "a- z"
unfolding sanitize sanitize_loop render lead_byte decode replacement
sanitize_runs = refl

sanitize_cut : sanitize 3 (some mixed) ≡ codes "a-"
unfolding sanitize sanitize_loop render lead_byte decode replacement
sanitize_cut = refl

safe_prefix_runs : safe_prefix_bytes (some mixed) 3 ≡ 1
unfolding safe_prefix_bytes prefix_loop step_bytes codepoint_bytes continues
safe_prefix_runs = refl

non_ascii_runs : contains_non_ascii (some mixed) ≡ true
unfolding contains_non_ascii
non_ascii_runs = refl

sanitize-IsPrintable_example :
    All IsPrintable (sanitize 3 (some mixed)) × (length (sanitize 3 (some mixed)) ≤ 2)
sanitize-IsPrintable_example = sanitize-IsPrintable 3 (some mixed)

sanitize_ascii_test : sanitize 4 (some (codes "hello")) ≡ codes "hel"
sanitize_ascii_test = sanitize_ascii 4 (codes "hello") (omega arith)

sanitize-sanitize_test : sanitize 3 (some (sanitize 3 (some mixed))) ≡ sanitize 3 (some mixed)
sanitize-sanitize_test = sanitize-sanitize 3 (some mixed)

safe_prefix_bytes-Boundary_test :
    Boundary mixed (safe_prefix_bytes (some mixed) 3)
    × (safe_prefix_bytes (some mixed) 3 ≤ 3)
    × ((m : ℕ) → Boundary mixed m → m ≤ 3 → m ≤ safe_prefix_bytes (some mixed) 3)
safe_prefix_bytes-Boundary_test = safe_prefix_bytes-Boundary mixed 3
