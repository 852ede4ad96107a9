-- ===== src/Sessions/Cursor.antt =====
-- The selection cursor: where it stands, how it moves, and that a reordered list does not move it.
use sticks3_buddy.Prelude.{
  ℕ, zero, suc, ◌+◌, ◌%◌, ◌<◌, ◌≡◌, refl, ap, ◌∙◌, inl, inr, some, arith, ◌==◌, Bool-cases,
  Option-cases, take, take_of_length_le,
}
use native.Mathlib.Nat.{mod-add-mod}
use sticks3_buddy.Sessions.{SessionTable, find_sid, sel_idx, select_next}
use sticks3_buddy.Sessions.Rows.{row, IsValid, find_sid_sound, find_sid_unique}

-- No two live rows have one id.
abbrev pub IsDistinct : SessionTable → Type 0
IsDistinct t = (i j : ℕ) → i < t.count → j < t.count → (row t i).sid ≡ (row t j).sid → i ≡ j

pub sel_idx_lt : (t : SessionTable) (i : ℕ) → sel_idx t ≡ some i → i < t.count
unfolding sel_idx
sel_idx_lt t i h = elim (Option-cases (find_sid t (some t.sel_sid))) [
  | inl e ↦ ground arith
  | inr (j, e) ↦ ground (arith, find_sid_sound t t.sel_sid j e)
]

-- The id of row `i`, stored in the selection, is found again at row `i`.
pub sel_idx_of_row :
    (t : SessionTable) (i : ℕ)
    → IsValid t
    → IsDistinct t
    → i < t.count
    → t.sel_sid ≡ (row t i).sid
    → sel_idx t ≡ some i
unfolding sel_idx
sel_idx_of_row t i v d h e = ground (arith, at_row)
  where
    at_row : find_sid t (some t.sel_sid) ≡ some i
    at_row = simp e (find_sid_unique t (row t i).sid i (v.named i h) h refl (λ j l q. d j i l h q))

select_next_at : SessionTable → ℕ → SessionTable
select_next_at t n = record t { sel_sid = (row t n).sid }

select_next_lem :
    (t : SessionTable) (i : ℕ)
    → IsValid t
    → sel_idx t ≡ some i
    → select_next t ≡ select_next_at t ((i + 1) % t.count)
unfolding select_next select_next_at
select_next_lem t i v h = elim (Bool-cases (t.count == 0)) [
  | inl empty ↦ absurd (ground (arith, sel_idx_lt t i h))
  | inr some_row ↦ rw (some_row, h, select_next) (ap (λ s. record t { sel_sid = s }) short)
]
  where
    next_lt : (i + 1) % t.count < t.count
    next_lt = grind (arith, sel_idx_lt t i h)

    short : take 11 (row t ((i + 1) % t.count)).sid ≡ (row t ((i + 1) % t.count)).sid
    short =
        take_of_length_le 11 (row t ((i + 1) % t.count)).sid
          (omega (arith, v.short ((i + 1) % t.count) next_lt))

select_next_at-advances :
    (t : SessionTable) (n : ℕ)
    → IsValid t
    → IsDistinct t
    → n < t.count
    → sel_idx (select_next_at t n) ≡ some n
unfolding select_next_at
select_next_at-advances t n v d h =
    sel_idx_of_row (record t { sel_sid = (row t n).sid }) n
      (record { full = v.full; fits = v.fits; named = v.named; short = v.short }) d h refl

-- One press moves the cursor to the next row, and from the last row to row 0; the rows stay.
pub select_next_advances :
    (t : SessionTable) (i : ℕ)
    → IsValid t
    → IsDistinct t
    → sel_idx t ≡ some i
    → (sel_idx (select_next t) ≡ some ((i + 1) % t.count))
      × ((select_next t).rows ≡ t.rows)
      × ((select_next t).count ≡ t.count)
unfolding select_next_at
select_next_advances t i v d h = rw (select_next_lem t i v h) (
  select_next_at-advances t ((i + 1) % t.count) v d (grind (arith, sel_idx_lt t i h)),
  refl,
  refl,
)

-- `k` presses.
unfoldable pub presses : ℕ → SessionTable → SessionTable
presses zero t = t
presses (suc k) t = presses k (select_next t)

-- Pressing moves through the rows in their order and round: after `k` presses the cursor is `k`
-- rows further, modulo the number of rows.
pub presses-sel_idx :
    (k : ℕ) (t : SessionTable) (i : ℕ)
    → IsValid t
    → IsDistinct t
    → sel_idx t ≡ some i
    → sel_idx (presses k t) ≡ some ((i + k) % t.count)
unfolding presses select_next_at
presses-sel_idx zero t i v d h = h ∙ ap some (grind (arith, sel_idx_lt t i h))
presses-sel_idx (suc k) t i v d h = rw (select_next_lem t i v h) (
    presses-sel_idx k (select_next_at t next) next
      (record { full = v.full; fits = v.fits; named = v.named; short = v.short }) d
      (select_next_at-advances t next v d (grind (arith, sel_idx_lt t i h)))
    ∙ ap some (mod-add-mod (i + 1) t.count k ∙ ap (λ (x : ℕ). x % t.count) (omega arith)))
  where
    next : ℕ
    next = (i + 1) % t.count
