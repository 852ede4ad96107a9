-- ===== src/Input/Button.antt =====
-- The debounced button (class Button of src/logic/button_logic.h).
use sticks3_buddy.Prelude.{
  ℕ, ◌<◌, ◌≡◌, refl, Bool, true, false, not, ◌&&◌, ◌||◌, List, [], ◌∷◌, arith, leb, if◌then◌else◌,
  u32_mod, sub32,
}

-- DEBOUNCE_MS
abbrev pub debounce_ms : ℕ
debounce_ms = 15

pub record Button : Type 0 where
  pub raw : Bool
  pub state : Bool
  pub prev : Bool
  pub last_edge_ms : ℕ
  pub down_since_ms : ℕ
  pub now_ms : ℕ

abbrev differ : Bool → Bool → Bool
differ true b = not b
differ false b = b

-- The new raw level, with the time of its edge.
sampled : Button → Bool → ℕ → Button
sampled b phys now = if differ phys b.raw then record b { raw = phys; last_edge_ms = now } else b

-- The raw level is taken over once it has stood for the debounce time.
settled : Button → ℕ → Button
settled b now =
    if differ b.state b.raw && leb debounce_ms (sub32 now b.last_edge_ms)
    then record b { state = b.raw; down_since_ms = if b.raw then now else b.down_since_ms }
    else b

unfoldable pub update : Button → Bool → ℕ → Button
unfolding sampled settled
update b phys now = record (settled (sampled (record b { prev = b.state }) phys now) now) {
  now_ms = now;
}

unfoldable pub is_pressed : Button → Bool
is_pressed b = b.state

unfoldable pub was_pressed : Button → Bool
was_pressed b = b.state && not b.prev

unfoldable pub was_released : Button → Bool
was_released b = not b.state && b.prev

unfoldable pub pressed_for : Button → ℕ → Bool
pressed_for b ms = b.state && leb ms (sub32 b.now_ms b.down_since_ms)

-- The samples of one level, at the given times.
unfoldable pub hold : Button → Bool → List ℕ → Button
hold b level [] = b
hold b level (t ∷ ts) = hold (update b level t) level ts

-- Some sample is at least the debounce time after `t0`.
abbrev pub any_late : ℕ → List ℕ → Bool
any_late t0 [] = false
any_late t0 (t ∷ ts) = leb debounce_ms (sub32 t t0) || any_late t0 ts

-- While the level stands, the state follows from the last edge.
update_steady :
    (b : Button) (level : Bool) (now : ℕ)
    → b.raw ≡ level
    → ((update b level now).raw ≡ level)
      × ((update b level now).last_edge_ms ≡ b.last_edge_ms)
      × ((update b level now).state
          ≡ (if leb debounce_ms (sub32 now b.last_edge_ms) then level else b.state))
unfolding update
update_steady b level now e = ground arith

hold_steady :
    (b : Button) (level : Bool) (ts : List ℕ)
    → b.raw ≡ level
    → (hold b level ts).state ≡ (if any_late b.last_edge_ms ts then level else b.state)
unfolding hold
hold_steady b level [] e = refl
hold_steady b level (t ∷ ts) e =
    let (raw, edge, state) = update_steady b level t e in
    ground (arith, hold_steady (update b level t) level ts raw, edge, state)

update_first :
    (b : Button) (t0 : ℕ)
    → b.raw ≡ b.state
    → t0 < u32_mod
    → let c = update b (not b.state) t0 in
      (c.raw ≡ not b.state) × (c.last_edge_ms ≡ t0) × (c.state ≡ b.state)
unfolding update
update_first b t0 e h = ground arith

-- A button at rest that is sampled at another level takes that level over exactly if one of the
-- samples comes the debounce time after the first: a shorter glitch never shows, however often it
-- is sampled, and a level that lasts always does.
pub hold-state :
    (b : Button) (t0 : ℕ) (ts : List ℕ)
    → b.raw ≡ b.state
    → t0 < u32_mod
    → (hold b (not b.state) (t0 ∷ ts)).state ≡ (if any_late t0 ts then not b.state else b.state)
unfolding hold
hold-state b t0 ts e h =
    let (raw, edge, state) = update_first b t0 e h in
    ground (arith, hold_steady (update b (not b.state) t0) (not b.state) ts raw, edge, state)

-- The two edges are reported in the round in which the state changes, and in no other.
pub update_edges :
    (b : Button) (phys : Bool) (now : ℕ)
    → let c = update b phys now in
      (was_pressed c ≡ (not b.state && c.state)) × (was_released c ≡ (b.state && not c.state))
unfolding update was_pressed was_released
update_edges b phys now = ground arith
