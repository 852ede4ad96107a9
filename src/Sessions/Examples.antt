-- ===== src/Sessions/Examples.antt =====
-- The session table at concrete inputs.
use sticks3_buddy.Prelude.{
  ℕ, zero, suc, ◌<◌, ◌≡◌, refl, true, not, none, some, List, [], ◌∷◌, ◌++◌, arith, if◌then◌else◌,
  length, replicate, Bytes, codes, bytes_eq, non_empty, first_index, copy_loop, fill_loop,
}
use sticks3_buddy.Sessions.{
  Session, SessionTable, ses_wait, no_session, reset, commit, state_from_str, find_sid, sel_idx,
  toggle_pin, pin_idx,
}
use sticks3_buddy.Sessions.Rows.{row, IsValid, commit-IsValid}
use sticks3_buddy.Sessions.Cursor.{IsDistinct, presses, presses-sel_idx}
use sticks3_buddy.Sessions.Pin.{with_pin, pinned_at, toggle_pin-pin_idx}

abbrev named : Bytes → Session
named sid = record no_session { sid = sid }

abbrev three : List Session
three = named (codes "a1") ∷ named (codes "b2") ∷ named (codes "c3") ∷ []

abbrev table : SessionTable
table = record {
  rows = three ++ replicate 3 no_session;
  count = 3;
  sel_sid = codes "b2";
  pin_sid = [];
}

commit_runs : commit reset three 3 ≡ record table { sel_sid = [] }
unfolding commit reset copy_loop fill_loop
commit_runs = refl

sel_runs : sel_idx table ≡ some 1
unfolding sel_idx find_sid first_index bytes_eq
sel_runs = refl

state_from_str_runs : state_from_str (some (codes "wait")) ≡ ses_wait
unfolding state_from_str
state_from_str_runs = refl

table-IsValid : IsValid table
table-IsValid = record { full = refl; fits = omega arith; named = names; short = lengths }
  where
    names : (i : ℕ) → i < 3 → non_empty (row table i).sid ≡ true
    names zero h = refl
    names (suc zero) h = refl
    names (suc (suc zero)) h = refl
    names (suc (suc (suc i))) h = absurd (omega arith)

    lengths : (i : ℕ) → i < 3 → length (row table i).sid < 12
    lengths zero h = omega arith
    lengths (suc zero) h = omega arith
    lengths (suc (suc zero)) h = omega arith
    lengths (suc (suc (suc i))) h = absurd (omega arith)

table-IsDistinct : IsDistinct table
table-IsDistinct zero zero h k e = refl
table-IsDistinct zero (suc zero) h k e = ground arith
table-IsDistinct zero (suc (suc zero)) h k e = ground arith
table-IsDistinct (suc zero) zero h k e = ground arith
table-IsDistinct (suc zero) (suc zero) h k e = refl
table-IsDistinct (suc zero) (suc (suc zero)) h k e = ground arith
table-IsDistinct (suc (suc zero)) zero h k e = ground arith
table-IsDistinct (suc (suc zero)) (suc zero) h k e = ground arith
table-IsDistinct (suc (suc zero)) (suc (suc zero)) h k e = refl
table-IsDistinct (suc (suc (suc i))) j h k e = absurd (omega arith)
table-IsDistinct i (suc (suc (suc j))) h k e = absurd (omega arith)

presses-sel_idx_test : sel_idx (presses 5 table) ≡ some 0
presses-sel_idx_test = presses-sel_idx 5 table 1 table-IsValid table-IsDistinct sel_runs

toggle_pin-pin_idx_test :
    (pin_idx (toggle_pin table).0 ≡ (if pinned_at table 1 then none else some 1))
    × ((toggle_pin table).1 ≡ not (pinned_at table 1))
    × (with_pin (toggle_pin table).0 [] ≡ table)
toggle_pin-pin_idx_test = toggle_pin-pin_idx table 1 table-IsValid table-IsDistinct sel_runs

commit-IsValid_test : IsValid (commit reset table.rows 3)
commit-IsValid_test =
    commit-IsValid reset table.rows 3 (unfold reset in refl) table-IsValid.named table-IsValid.short
