-- ===== src/Prelude/Arrays.antt =====
-- The loops over a fixed array that the tables share: linear search, copy, fill, and the shift
-- that closes a gap. `i` is the loop's index and the first argument the rounds that are left.
use Prim.Native.Nat.{ℕ, zero, suc, ◌+◌, ◌≤◌, ◌<◌}
use mathlib.Core.Path.{subst, sym, ◌≡◌, refl, ap, ◌∙◌}
use mathlib.Core.Logic.{◌≢◌, ◌⊎◌, inl, inr}
use mathlib.Core.Bool.{Bool, true, false}
use mathlib.Core.List.{List, [], ◌∷◌}
use mathlib.Core.Option.{Option, none, some}
use native.Mathlib.Omega.{arith}
use sticks3_buddy.Prelude.Tests.{◌==◌, if◌then◌else◌, Bool-cases}
use sticks3_buddy.Prelude.Lists.{length, get_or, set, length-set}

module _ {ℓ} {A : Type ℓ} where
  -- for (; i < end; i++) if (test(xs[i])) return i; return -1;
  unfoldable pub first_index : (A → Bool) → ℕ → ℕ → List A → A → Option ℕ
  first_index test zero i xs d = none
  first_index test (suc k) i xs d =
      let rest = first_index test k (suc i) xs d in if test (get_or xs i d) then some i else rest

  -- for (; i < end; i++) dst[i] = src[i];
  unfoldable pub copy_loop : ℕ → ℕ → List A → List A → A → List A
  copy_loop zero i dst src d = dst
  copy_loop (suc k) i dst src d = copy_loop k (suc i) (set dst i (get_or src i d)) src d

  -- for (; i < end; i++) dst[i] = v;
  unfoldable pub fill_loop : ℕ → ℕ → List A → A → List A
  fill_loop zero i dst v = dst
  fill_loop (suc k) i dst v = fill_loop k (suc i) (set dst i v) v

  -- for (; i + 1 < count; i++) xs[i] = xs[i + 1];
  unfoldable pub shift_loop : ℕ → ℕ → List A → A → List A
  shift_loop zero i xs d = xs
  shift_loop (suc k) i xs d = shift_loop k (suc i) (set xs i (get_or xs (suc i) d)) d

module _ {ℓ} {A : Type ℓ} where
  pub get_or-set_self :
      (xs : List A) (i : ℕ) (v d : A) → i < length xs → get_or (set xs i v) i d ≡ v
  get_or-set_self [] i v d h = elim h [ ]
  get_or-set_self (x ∷ xs) zero v d h = refl
  get_or-set_self (x ∷ xs) (suc i) v d h = get_or-set_self xs i v d (omega arith)

  pub get_or-set_ne :
      (xs : List A) (i j : ℕ) (v d : A) → i ≢ j → get_or (set xs i v) j d ≡ get_or xs j d
  get_or-set_ne [] i j v d h = refl
  get_or-set_ne (x ∷ xs) zero zero v d h = absurd (h refl)
  get_or-set_ne (x ∷ xs) zero (suc j) v d h = refl
  get_or-set_ne (x ∷ xs) (suc i) zero v d h = refl
  get_or-set_ne (x ∷ xs) (suc i) (suc j) v d h = get_or-set_ne xs i j v d (λ e. h (ap suc e))

  -- What holds of the written value at its place, and of the old one elsewhere, holds of a read.
  pub set_cases {κ} :
      (P : A → Type κ) (xs : List A) (i j : ℕ) (v d : A)
      → i < length xs
      → (i ≡ j → P v)
      → (i ≢ j → P (get_or xs j d))
      → P (get_or (set xs i v) j d)
  set_cases P xs i j v d h here there = elim (Bool-cases (i == j)) [
    | inl q ↦
        let e : i ≡ j = ground arith in
        subst P (sym (ap (λ (k : ℕ). get_or (set xs i v) k d) (sym e) ∙ get_or-set_self xs i v d h))
          (here e)
    | inr q ↦
        let ne : i ≢ j = ground arith in subst P (sym (get_or-set_ne xs i j v d ne)) (there ne)
  ]

  -- A search that succeeds returns a place in range whose entry passes the test.
  pub first_index_sound :
      (test : A → Bool) (k i : ℕ) (xs : List A) (d : A) (j : ℕ)
      → first_index test k i xs d ≡ some j
      → (i ≤ j) × (j < i + k) × (test (get_or xs j d) ≡ true)
  unfolding first_index
  first_index_sound test zero i xs d j h = cc
  first_index_sound test (suc k) i xs d j h =
      ground (arith, first_index_sound test k (suc i) xs d j)

  -- It is the first such place.
  pub first_index_first :
      (test : A → Bool) (k i : ℕ) (xs : List A) (d : A) (j m : ℕ)
      → first_index test k i xs d ≡ some j
      → i ≤ m
      → m < j
      → test (get_or xs m d) ≡ false
  unfolding first_index
  first_index_first test zero i xs d j m h l r = cc
  first_index_first test (suc k) i xs d j m h l r =
      ground (arith, first_index_first test k (suc i) xs d j m)

  pub first_index-none :
      (test : A → Bool) (k i : ℕ) (xs : List A) (d : A) (m : ℕ)
      → first_index test k i xs d ≡ none
      → i ≤ m
      → m < i + k
      → test (get_or xs m d) ≡ false
  unfolding first_index
  first_index-none test zero i xs d m h l r = absurd (omega arith)
  first_index-none test (suc k) i xs d m h l r =
      ground (arith, first_index-none test k (suc i) xs d m)

  -- A search with an entry to find finds one.
  pub first_index_finds :
      (test : A → Bool) (k i : ℕ) (xs : List A) (d : A) (m : ℕ)
      → i ≤ m
      → m < i + k
      → test (get_or xs m d) ≡ true
      → (j : ℕ) × (first_index test k i xs d ≡ some j)
  first_index_finds test k i xs d m l r t = found (first_index test k i xs d) refl
    where
      found :
          (o : Option ℕ)
          → first_index test k i xs d ≡ o
          → (j : ℕ) × (first_index test k i xs d ≡ some j)
      found none e = cc (first_index-none test k i xs d m e l r)
      found (some j) e = (j, e)

  -- Where one entry alone passes, the search finds that one.
  pub first_index_unique :
      (test : A → Bool) (k i : ℕ) (xs : List A) (d : A) (m : ℕ)
      → i ≤ m
      → m < i + k
      → test (get_or xs m d) ≡ true
      → ((j : ℕ) → j < i + k → test (get_or xs j d) ≡ true → j ≡ m)
      → first_index test k i xs d ≡ some m
  first_index_unique test k i xs d m l r t only =
      let (j, e) = first_index_finds test k i xs d m l r t in
      let (_, b, p) = first_index_sound test k i xs d j e in e ∙ ap some (only j b p)

  pub length-copy_loop :
      (k i : ℕ) (dst src : List A) (d : A) → length (copy_loop k i dst src d) ≡ length dst
  unfolding copy_loop
  length-copy_loop zero i dst src d = refl
  length-copy_loop (suc k) i dst src d =
      length-copy_loop k (suc i) (set dst i (get_or src i d)) src d
      ∙ length-set dst i (get_or src i d)

  pub length-fill_loop :
      (k i : ℕ) (dst : List A) (v : A) → length (fill_loop k i dst v) ≡ length dst
  unfolding fill_loop
  length-fill_loop zero i dst v = refl
  length-fill_loop (suc k) i dst v = length-fill_loop k (suc i) (set dst i v) v ∙ length-set dst i v

  pub length-shift_loop : (k i : ℕ) (xs : List A) (d : A) → length (shift_loop k i xs d) ≡ length xs
  unfolding shift_loop
  length-shift_loop zero i xs d = refl
  length-shift_loop (suc k) i xs d =
      length-shift_loop k (suc i) (set xs i (get_or xs (suc i) d)) d
      ∙ length-set xs i (get_or xs (suc i) d)

  -- What stands below the loop's index, or from its end on, is not touched.
  pub fill_loop_outside :
      (k i : ℕ) (dst : List A) (v d : A) (j : ℕ)
      → (j < i) ⊎ (i + k ≤ j)
      → get_or (fill_loop k i dst v) j d ≡ get_or dst j d
  unfolding fill_loop
  fill_loop_outside zero i dst v d j h = refl
  fill_loop_outside (suc k) i dst v d j h =
      fill_loop_outside k (suc i) (set dst i v) v d j (omega arith)
      ∙ get_or-set_ne dst i j v d (omega arith)

  pub fill_loop_inside :
      (k i : ℕ) (dst : List A) (v d : A) (j : ℕ)
      → i ≤ j
      → j < i + k
      → i + k ≤ length dst
      → get_or (fill_loop k i dst v) j d ≡ v
  unfolding fill_loop
  fill_loop_inside zero i dst v d j l r h = absurd (omega arith)
  fill_loop_inside (suc k) i dst v d j l r h = elim (Bool-cases (i == j)) [
    | inl here ↦
        fill_loop_outside k (suc i) (set dst i v) v d j (ground arith)
        ∙ rw (same here) (get_or-set_self dst j v d (omega arith))
    | inr later ↦
        fill_loop_inside k (suc i) (set dst i v) v d j (ground arith) (omega arith)
          (omega (arith, length-set dst i v))
  ]
    where
      same : (i == j) ≡ true → i ≡ j
      same e = ground arith

  pub copy_loop_outside :
      (k i : ℕ) (dst src : List A) (d : A) (j : ℕ)
      → (j < i) ⊎ (i + k ≤ j)
      → get_or (copy_loop k i dst src d) j d ≡ get_or dst j d
  unfolding copy_loop
  copy_loop_outside zero i dst src d j h = refl
  copy_loop_outside (suc k) i dst src d j h =
      copy_loop_outside k (suc i) (set dst i (get_or src i d)) src d j (omega arith)
      ∙ get_or-set_ne dst i j (get_or src i d) d (omega arith)

  pub copy_loop_inside :
      (k i : ℕ) (dst src : List A) (d : A) (j : ℕ)
      → i ≤ j
      → j < i + k
      → i + k ≤ length dst
      → get_or (copy_loop k i dst src d) j d ≡ get_or src j d
  unfolding copy_loop
  copy_loop_inside zero i dst src d j l r h = absurd (omega arith)
  copy_loop_inside (suc k) i dst src d j l r h = elim (Bool-cases (i == j)) [
    | inl here ↦
        copy_loop_outside k (suc i) (set dst i (get_or src i d)) src d j (ground arith)
        ∙ rw (same here) (get_or-set_self dst j (get_or src j d) d (omega arith))
    | inr later ↦
        copy_loop_inside k (suc i) (set dst i (get_or src i d)) src d j (ground arith) (omega arith)
          (omega (arith, length-set dst i (get_or src i d)))
  ]
    where
      same : (i == j) ≡ true → i ≡ j
      same e = ground arith

  -- Below the gap the array is as it was; past it, each entry has moved down by one.
  pub shift_loop_below :
      (k i : ℕ) (xs : List A) (d : A) (j : ℕ)
      → j < i
      → get_or (shift_loop k i xs d) j d ≡ get_or xs j d
  unfolding shift_loop
  shift_loop_below zero i xs d j h = refl
  shift_loop_below (suc k) i xs d j h =
      shift_loop_below k (suc i) (set xs i (get_or xs (suc i) d)) d j (omega arith)
      ∙ get_or-set_ne xs i j (get_or xs (suc i) d) d (omega arith)

  pub shift_loop_above :
      (k i : ℕ) (xs : List A) (d : A) (j : ℕ)
      → i ≤ j
      → j < i + k
      → i + k < length xs
      → get_or (shift_loop k i xs d) j d ≡ get_or xs (suc j) d
  unfolding shift_loop
  shift_loop_above zero i xs d j l r h = absurd (omega arith)
  shift_loop_above (suc k) i xs d j l r h = elim (Bool-cases (i == j)) [
    | inl here ↦
        shift_loop_below k (suc i) (set xs i (get_or xs (suc i) d)) d j (ground arith)
        ∙ rw (same here) (get_or-set_self xs j (get_or xs (suc j) d) d (omega arith))
    | inr later ↦
        shift_loop_above k (suc i) (set xs i (get_or xs (suc i) d)) d j (ground arith) (omega arith)
          (omega (arith, length-set xs i (get_or xs (suc i) d)))
        ∙ get_or-set_ne xs i (suc j) (get_or xs (suc i) d) d (omega arith)
  ]
    where
      same : (i == j) ≡ true → i ≡ j
      same e = ground arith
