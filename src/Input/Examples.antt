-- ===== src/Input/Examples.antt =====
-- The buttons at concrete inputs.
use sticks3_buddy.Prelude.{◌≡◌, refl, true, false, not, ◌&&◌, ◌||◌, [], ◌∷◌, arith, if◌then◌else◌}
use sticks3_buddy.Input.Button
use sticks3_buddy.Input.Button.{Button}
use sticks3_buddy.Input.Chord
use sticks3_buddy.Input.Chord.{Chord}

abbrev released : Button
released = record {
  raw = false;
  state = false;
  prev = false;
  last_edge_ms = 0;
  down_since_ms = 0;
  now_ms = 0;
}

hold_runs : Button.is_pressed (Button.hold released true (100 ∷ 110 ∷ 115 ∷ [])) ≡ true
unfolding Button.hold Button.update Button.is_pressed
hold_runs = refl

hold-state_example :
    (Button.hold released true (100 ∷ 105 ∷ 114 ∷ [])).state
    ≡ (if Button.any_late 100 (105 ∷ 114 ∷ []) then true else false)
hold-state_example = Button.hold-state released 100 (105 ∷ 114 ∷ []) refl (omega arith)

update_edges_test :
    let c = Button.update released true 20 in
    (Button.was_pressed c ≡ (not false && c.state))
    × (Button.was_released c ≡ (false && not c.state))
update_edges_test = Button.update_edges released true 20

fires_once_test :
    Chord.fires (Chord.init 800) (0 ∷ 400 ∷ 900 ∷ 1800 ∷ [])
    ≡ (if Chord.any_held (Chord.init 800) 0 (0 ∷ 400 ∷ 900 ∷ 1800 ∷ []) then 1 else 0)
fires_once_test =
    Chord.fires_once (Chord.init 800) 0 (400 ∷ 900 ∷ 1800 ∷ []) (unfold Chord.init in refl)

engaged_until_test :
    (Chord.update (Chord.init 800) true false 5).0.engaged
    ≡ ((true && false) || ((Chord.init 800).engaged && (true || false)))
engaged_until_test = Chord.engaged_until (Chord.init 800) true false 5
