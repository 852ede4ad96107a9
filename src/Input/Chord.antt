-- ===== src/Input/Chord.antt =====
-- The A+B chord (class Chord of src/logic/button_logic.h).
use sticks3_buddy.Prelude.{
  ℕ, ◌+◌, ◌≡◌, refl, Bool, true, false, not, ◌&&◌, ◌||◌, List, [], ◌∷◌, arith, leb, if◌then◌else◌,
  sub32,
}

pub record Chord : Type 0 where
  pub hold_ms : ℕ
  pub both_since_ms : ℕ
  pub both_down : Bool
  pub engaged : Bool
  pub fired : Bool

unfoldable pub init : ℕ → Chord
init hold_ms = record {
  hold_ms = hold_ms;
  both_since_ms = 0;
  both_down = false;
  engaged = false;
  fired = false;
}

-- The start of a hold of both buttons.
begin_hold : Chord → ℕ → Chord
begin_hold c now =
    if c.both_down then c else record c { both_down = true; fired = false; both_since_ms = now }

fire : Chord → ℕ → Chord × Bool
fire c now =
    if not c.fired && leb c.hold_ms (sub32 now c.both_since_ms)
    then (record c { fired = true }, true)
    else (c, false)

unfoldable pub update : Chord → Bool → Bool → ℕ → Chord × Bool
unfolding begin_hold fire
update c a_down b_down now =
    if a_down && b_down then fire (record (begin_hold c now) { engaged = true }) now else (
      record c {
        both_down = false;
        engaged = if not a_down && not b_down then false else c.engaged;
      },
      false,
    )

abbrev count : Bool → ℕ
count true = 1
count false = 0

-- Both buttons down at the given times: how often the chord fires.
unfoldable pub fires : Chord → List ℕ → ℕ
fires c [] = 0
fires c (t ∷ ts) = count (update c true true t).1 + fires (update c true true t).0 ts

abbrev pub any_held : Chord → ℕ → List ℕ → Bool
any_held c t0 [] = false
any_held c t0 (t ∷ ts) = leb c.hold_ms (sub32 t t0) || any_held c t0 ts

fires_after : (c : Chord) (ts : List ℕ) → c.both_down ≡ true → c.fired ≡ true → fires c ts ≡ 0
unfolding fires update
fires_after c [] d f = refl
fires_after c (t ∷ ts) d f = ground (arith, fires_after (update c true true t).0 ts)

fires_held :
    (c : Chord) (ts : List ℕ)
    → c.both_down ≡ true
    → c.fired ≡ false
    → fires c ts ≡ (if any_held c c.both_since_ms ts then 1 else 0)
unfolding fires update
fires_held c [] d f = refl
fires_held c (t ∷ ts) d f =
    ground (arith, fires_after (update c true true t).0 ts, fires_held (update c true true t).0 ts)

-- One engagement fires once if some sample comes the hold time after the first, and else never.
pub fires_once :
    (c : Chord) (t0 : ℕ) (ts : List ℕ)
    → c.both_down ≡ false
    → fires c (t0 ∷ ts) ≡ (if any_held c t0 (t0 ∷ ts) then 1 else 0)
unfolding fires update
fires_once c t0 ts d =
    ground
      (arith, fires_after (update c true true t0).0 ts, fires_held (update c true true t0).0 ts)

-- After a chord the single buttons stay silenced until both are up, and are then free.
pub engaged_until :
    (c : Chord) (a_down b_down : Bool) (now : ℕ)
    → (update c a_down b_down now).0.engaged
      ≡ ((a_down && b_down) || (c.engaged && (a_down || b_down)))
unfolding update
engaged_until c a_down b_down now = ground arith
