-- ===== src/Sessions/Pin.antt =====
-- The focus pin: toggled at the cursor, kept by session id.
use sticks3_buddy.Prelude.{
  ℕ, ◌<◌, ◌≡◌, refl, sym, ap, ◌∙◌, ◌≢◌, inl, inr, Bool, true, false, not, ◌&&◌, none, some, [],
  arith, ◌==◌, if◌then◌else◌, Bool-cases, Option-cases, take, take_of_length_le, Bytes, bytes_eq,
  bytes_eq→eq, bytes_eq-of_eq, non_empty,
}
use sticks3_buddy.Sessions.{SessionTable, find_sid, sel_idx, pin_idx, toggle_pin, toggle_at}
use sticks3_buddy.Sessions.Rows.{row, IsValid, find_sid_sound, find_sid_unique}
use sticks3_buddy.Sessions.Cursor.{IsDistinct, sel_idx_lt}

-- The table with another pin.
abbrev pub with_pin : SessionTable → Bytes → SessionTable
with_pin t sid = record t { pin_sid = sid }

-- The pin stands at row `i`.
abbrev pub pinned_at : SessionTable → ℕ → Bool
pinned_at t i = elim (pin_idx t) [ none ↦ false | some j ↦ j == i ]

-- The code's test, by text, is whether the pin stands at the row.
pinned_at-bytes_eq :
    (t : SessionTable) (i : ℕ)
    → IsValid t
    → IsDistinct t
    → i < t.count
    → (non_empty t.pin_sid && bytes_eq t.pin_sid (row t i).sid) ≡ pinned_at t i
unfolding pin_idx
pinned_at-bytes_eq t i v d h = elim (Bool-cases (bytes_eq t.pin_sid (row t i).sid)) [
  | inl e ↦ ground (arith, e, named (bytes_eq→eq _ _ e), at_row (bytes_eq→eq _ _ e))
  | inr e ↦ elim (Option-cases (find_sid t (some t.pin_sid))) [
    | inl q ↦ ground (arith, e, q)
    | inr (j, q) ↦ ground (arith, e, q, other j q e)
  ]
]
  where
    named : t.pin_sid ≡ (row t i).sid → non_empty t.pin_sid ≡ true
    named e = ap non_empty e ∙ v.named i h

    at_row : t.pin_sid ≡ (row t i).sid → find_sid t (some t.pin_sid) ≡ some i
    at_row e = find_sid_unique t t.pin_sid i (named e) h (sym e) (λ j l q. d j i l h (q ∙ e))

    other :
        (j : ℕ)
        → find_sid t (some t.pin_sid) ≡ some j
        → bytes_eq t.pin_sid (row t i).sid ≡ false
        → j ≢ i
    other j q e same = cc (
      e,
      bytes_eq-of_eq t.pin_sid (row t i).sid
          (sym (find_sid_sound t t.pin_sid j q).1 ∙ ap (λ (m : ℕ). (row t m).sid) same),
    )

toggle_pin-eq :
    (t : SessionTable) (i : ℕ)
    → IsValid t
    → IsDistinct t
    → sel_idx t ≡ some i
    → toggle_pin t
      ≡ (if pinned_at t i then (with_pin t [], false) else (with_pin t (row t i).sid, true))
unfolding toggle_pin toggle_at
toggle_pin-eq t i v d h = rw (h, pinned_at-bytes_eq t i v d here, short) refl
  where
    here : i < t.count
    here = sel_idx_lt t i h

    short : take 11 (row t i).sid ≡ (row t i).sid
    short = take_of_length_le 11 (row t i).sid (omega (arith, v.short i here))

-- With the cursor on row `i`: a pin at that row is taken away, and any other, or none, gives way
-- to one at row `i`. The flag says whether a pin is left, and the rows and the cursor stay.
pub toggle_pin-pin_idx :
    (t : SessionTable) (i : ℕ)
    → IsValid t
    → IsDistinct t
    → sel_idx t ≡ some i
    → (pin_idx (toggle_pin t).0 ≡ (if pinned_at t i then none else some i))
      × ((toggle_pin t).1 ≡ not (pinned_at t i))
      × (with_pin (toggle_pin t).0 t.pin_sid ≡ t)
toggle_pin-pin_idx t i v d h = rw (toggle_pin-eq t i v d h) (elim (Bool-cases (pinned_at t i)) [
  | inl e ↦ rw e (unpinned, refl, refl)
  | inr e ↦ rw e (pinned, refl, refl)
])
  where
    unpinned : pin_idx (with_pin t []) ≡ none
    unpinned = unfold pin_idx find_sid in refl

    pinned : pin_idx (with_pin t (row t i).sid) ≡ some i
    pinned =
        unfold pin_idx in
        find_sid_unique (with_pin t (row t i).sid) (row t i).sid i (v.named i (sel_idx_lt t i h))
          (sel_idx_lt t i h) refl (λ j l q. d j i l (sel_idx_lt t i h) q)
