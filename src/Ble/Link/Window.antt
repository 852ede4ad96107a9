-- ===== src/Ble/Link/Window.antt =====
-- The pairing window: whom the gate lets in, and for how long.
use sticks3_buddy.Prelude.{
  Bool-cases, ltb, ◌⊎◌, inl, inr, ◌≢◌, ℕ, zero, suc, ◌<◌, ◌≡◌, refl, ap, ◌∙◌, Bool, true, false,
  not, ◌&&◌, none, some, arith, ◌==◌, if◌then◌else◌, if_false, u32_mod, add32, before32, pos,
  clamp_int, Bytes,
}
use sticks3_buddy.Screen.{pairing_gate_decision, pairgate_accept, pairgate_reject}
use sticks3_buddy.Ble.Link.{
  Bridge, BondStore, ask, drop_link, is_bonded, pair_window_open, apply_conn_params, admit,
  on_connect, disconnect, allow_pairing, pairing_tick,
}

abbrev until_of : ℕ → ℕ → ℕ
until_of now ms = if add32 now ms == 0 then 1 else add32 now ms

until-allow_pairing :
    (b : Bridge) (now ms : ℕ) → (allow_pairing now true ms b).pair_win_until ≡ until_of now ms
unfolding allow_pairing disconnect
until-allow_pairing b now ms = ground arith

open_inside :
    (now ms d u : ℕ)
    → now < u32_mod
    → ms < 2147483648
    → d < ms
    → u ≡ until_of now ms
    → not (u == 0) && before32 (add32 now d) u ≡ true
open_inside now ms d u h k l e = ground arith

shut_outside :
    (now ms d u : ℕ)
    → now < u32_mod
    → ms < d
    → d < 2147483648
    → u ≡ until_of now ms
    → not (u == 0) && before32 (add32 now d) u ≡ false
shut_outside now ms d u h k l e = ground arith

-- What the gate does with a central.
abbrev pub let_in : Bytes → Bridge → Bridge
let_in who b =
    apply_conn_params (record b { peer = some who; pid = none; auth = none; connected = true })

admit_new :
    (bonded : Bool) (n : ℕ) (who : Bytes) (id : ℕ) (w : Bridge)
    → admit (pairing_gate_decision true bonded (pos n)) who id w
      ≡ (if bonded then ask (drop_link id) w else let_in who w)
unfolding admit pairing_gate_decision
admit_new true n who id w = refl
admit_new false n who id w = refl

admit_old :
    (bonded : Bool) (n : ℕ) (who : Bytes) (id : ℕ) (w : Bridge)
    → 0 < n
    → admit (pairing_gate_decision false bonded (pos n)) who id w
      ≡ (if bonded then let_in who w else ask (drop_link id) w)
unfolding admit pairing_gate_decision
admit_old true zero who id w h = absurd (omega arith)
admit_old false zero who id w h = absurd (omega arith)
admit_old true (suc n) who id w h =
    rw (if_false (clamp_int 0 1 (pos (suc n)) == 0) pairgate_accept pairgate_accept (ground arith))
      refl
admit_old false (suc n) who id w h =
    rw (if_false (clamp_int 0 1 (pos (suc n)) == 0) pairgate_accept pairgate_reject (ground arith))
      refl

tick_closes :
    (t : ℕ) (b : Bridge)
    → not (b.pair_win_until == 0) ≡ true
    → not (b.pair_win_until == 0) && before32 t b.pair_win_until ≡ false
    → (pairing_tick t b).pair_win_until ≡ 0
unfolding pairing_tick
tick_closes t b h k = ground arith

-- Within a pairing window of less than 2^31 ms a bonded central is turned away and an unbonded one
-- is let in; later than the end of the window by a millisecond or more, it is the other way round
-- where there are bonds, and the tick closes the window.
pub pairing_window_gates :
    (b : Bridge) (store : BondStore) (who : Bytes) (now ms d id : ℕ)
    → now < u32_mod
    → ms < 2147483648
    → 0 < store.num
    → d < 2147483648
    → d ≢ ms
    → let w = allow_pairing now true ms b in
      let t = add32 now d in
      ((d < ms)
        × (on_connect t store who id w
            ≡ (if is_bonded store who then ask (drop_link id) w else let_in who w)))
      ⊎ ((ms < d)
          × (on_connect t store who id w
              ≡ (if is_bonded store who then let_in who w else ask (drop_link id) w))
          × ((pairing_tick t w).pair_win_until ≡ 0))
unfolding on_connect pair_window_open
pairing_window_gates b store who now ms d id h k p m ne = elim (Bool-cases (ltb d ms)) [
  | inl l ↦ inl (ground (arith, l), inside (ground (arith, l)))
  | inr l ↦ inr (outside (ground (arith, l, ne)))
]
  where
    w : Bridge
    w = allow_pairing now true ms b

    t : ℕ
    t = add32 now d

    inside :
        d < ms
        → on_connect t store who id w
          ≡ (if is_bonded store who then ask (drop_link id) w else let_in who w)
    inside l =
        ap (λ o. admit (pairing_gate_decision o (is_bonded store who) (pos store.num)) who id w)
          (open_inside now ms d w.pair_win_until h k l (until-allow_pairing b now ms))
        ∙ admit_new (is_bonded store who) store.num who id w

    outside :
        ms < d
        → (ms < d)
          × (on_connect t store who id w
              ≡ (if is_bonded store who then let_in who w else ask (drop_link id) w))
          × ((pairing_tick t w).pair_win_until ≡ 0)
    outside l = (
      l,
      ap (λ o. admit (pairing_gate_decision o (is_bonded store who) (pos store.num)) who id w) late
          ∙ admit_old (is_bonded store who) store.num who id w p,
      tick_closes t w (until_pos w.pair_win_until (until-allow_pairing b now ms)) late,
    )
      where
        until_pos : (u : ℕ) → u ≡ until_of now ms → not (u == 0) ≡ true
        until_pos u e = ground arith

        late : not (w.pair_win_until == 0) && before32 t w.pair_win_until ≡ false
        late = shut_outside now ms d w.pair_win_until h l m (until-allow_pairing b now ms)
