-- ===== src/Prelude/Texts.antt =====
-- C strings: the bytes before the terminator, as a list. A null pointer is `none`.
use Prim.Native.Nat.{ℕ, ◌-◌}
use Prim.Native.Char.{code}
use Prim.Native.String.{String}
use mathlib.Core.Path.{◌≡◌, refl}
use mathlib.Core.Bool.{Bool, true, false, ◌&&◌}
use mathlib.Core.Option.{Option, none, some}
use mathlib.Core.List.{List, [], ◌∷◌}
use native.Mathlib.Omega.{arith}
use sticks3_buddy.Prelude.Tests.{◌==◌, if◌then◌else◌}
use sticks3_buddy.Prelude.Lists.{take}

abbrev pub Bytes : Type 0
Bytes = List ℕ

-- The bytes of an ASCII literal.
abbrev pub codes : String → Bytes
codes String.[] = []
codes (String.◌∷◌ c s) = code c ∷ codes s

-- strcmp(a, b) == 0
unfoldable pub bytes_eq : Bytes → Bytes → Bool
bytes_eq [] [] = true
bytes_eq [] (y ∷ ys) = false
bytes_eq (x ∷ xs) [] = false
bytes_eq (x ∷ xs) (y ∷ ys) = (x == y) && bytes_eq xs ys

pub bytes_eq_refl : (a : Bytes) → bytes_eq a a ≡ true
unfolding bytes_eq
bytes_eq_refl [] = refl
bytes_eq_refl (x ∷ xs) = ground (arith, bytes_eq_refl xs)

pub bytes_eq→eq : (a b : Bytes) → bytes_eq a b ≡ true → a ≡ b
unfolding bytes_eq
bytes_eq→eq [] [] h = refl
bytes_eq→eq [] (y ∷ ys) h = cc
bytes_eq→eq (x ∷ xs) [] h = cc
bytes_eq→eq (x ∷ xs) (y ∷ ys) h = ground (arith, bytes_eq→eq xs ys)

pub bytes_eq-of_eq : (a b : Bytes) → a ≡ b → bytes_eq a b ≡ true
bytes_eq-of_eq a b e = rw (e, bytes_eq_refl b)

-- s[0] != 0
abbrev pub non_empty : Bytes → Bool
non_empty [] = false
non_empty (x ∷ xs) = true

-- strncpy(dst, src, cap - 1); dst[cap - 1] = 0, read back as a string.
abbrev pub strncpy : ℕ → Bytes → Bytes
strncpy cap src = take (cap - 1) src

-- A test of a pointer that may be null: s && strcmp(s, lit) == 0.
abbrev pub is_str : Option Bytes → Bytes → Bool
is_str none lit = false
is_str (some s) lit = bytes_eq s lit

-- The string that a byte array holds: what stands before the first 0.
unfoldable pub until_nul : Bytes → Bytes
until_nul [] = []
until_nul (c ∷ s) = let rest = until_nul s in if c == 0 then [] else c ∷ rest
