-- ===== src/Prelude/Keyed.antt =====
-- Arrays whose first `n` entries are in use and have distinct keys: a write, and the removal of an
-- entry by moving down those behind it.
use Prim.Native.Nat.{ℕ, suc, ◌-◌, ◌≤◌, ◌<◌}
use mathlib.Core.Path.{◌≡◌, sym, ◌∙◌}
use mathlib.Core.Logic.{◌≢◌, inl, inr}
use mathlib.Core.List.{List}
use native.Mathlib.Omega.{arith}
use sticks3_buddy.Prelude.Tests.{ltb, if◌then◌else◌, Bool-cases}
use sticks3_buddy.Prelude.Lists.{length, get_or, set, length-set}
use sticks3_buddy.Prelude.Arrays.{
  shift_loop, set_cases, get_or-set_ne, length-shift_loop, shift_loop_below, shift_loop_above,
}

-- The place that the entry at a later place `j` had before entry `i` was removed.
abbrev pub before : ℕ → ℕ → ℕ
before i j = if ltb j i then j else suc j

pub before-injective : (i j k : ℕ) → before i j ≡ before i k → j ≡ k
before-injective i j k e = ground arith

pub before-ne : (i j : ℕ) → before i j ≢ i
before-ne i j e = ground arith

pub before_lt : (n i j : ℕ) → j < n - 1 → before i j < n
before_lt n i j h = ground arith

module _ {ℓ} {A : Type ℓ} where
  -- The first `n` entries without entry `i`; the place that falls free takes `z`.
  abbrev pub close_gap : ℕ → ℕ → List A → A → List A
  close_gap n i xs z = set (shift_loop (n - 1 - i) i xs z) (n - 1) z

  pub length-close_gap : (n i : ℕ) (xs : List A) (z : A) → length (close_gap n i xs z) ≡ length xs
  length-close_gap n i xs z =
      length-set (shift_loop (n - 1 - i) i xs z) (n - 1) z ∙ length-shift_loop (n - 1 - i) i xs z

  pub get_or-close_gap :
      (n i j : ℕ) (xs : List A) (z : A)
      → n ≤ length xs
      → i < n
      → j < n - 1
      → get_or (close_gap n i xs z) j z ≡ get_or xs (before i j) z
  get_or-close_gap n i j xs z v h l =
      get_or-set_ne (shift_loop (n - 1 - i) i xs z) (n - 1) j z z (omega arith)
      ∙ elim (Bool-cases (ltb j i)) [
        | inl below ↦ rw below (shift_loop_below (n - 1 - i) i xs z j (ground arith))
        | inr above ↦
            rw above
              (shift_loop_above (n - 1 - i) i xs z j (ground arith) (omega arith) (omega arith))
      ]

  module _ {κ} {K : Type κ} (key : A → K) where
    -- A write that brings in a key of no other entry keeps the keys distinct.
    pub distinct-set :
        (xs : List A) (p n : ℕ) (x d : A)
        → p < length xs
        → ((j : ℕ) → j < n → p ≢ j → key (get_or xs j d) ≢ key x)
        → ((j k : ℕ)
            → j < n
            → k < n
            → p ≢ j
            → p ≢ k
            → key (get_or xs j d) ≡ key (get_or xs k d)
            → j ≡ k)
        → (j k : ℕ) → j < n
        → k < n
        → key (get_or (set xs p x) j d) ≡ key (get_or (set xs p x) k d)
        → j ≡ k
    distinct-set xs p n x d h new old j k a b =
        set_cases (λ y. key y ≡ key (get_or (set xs p x) k d) → j ≡ k) xs p j x d h
          (λ e.
            set_cases (λ y. key x ≡ key y → j ≡ k) xs p k x d h (λ f q. sym e ∙ f)
              (λ ne q. absurd (new k b ne (sym q))))
          (λ ne.
            set_cases (λ y. key (get_or xs j d) ≡ key y → j ≡ k) xs p k x d h
              (λ f q. absurd (new j a ne q)) (λ nf q. old j k a b ne nf q))
