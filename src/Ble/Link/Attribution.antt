-- ===== src/Ble/Link/Attribution.antt =====
-- Whose link the bridge takes an event for.
use sticks3_buddy.Prelude.{
  ◌⊎◌, inl, inr, pos, ℕ, ◌≡◌, sym, ap, Bool, true, false, Option, none, some, [], arith, is_some,
  Bytes, bytes_eq, bytes_eq→eq,
}
use sticks3_buddy.Screen.{PairGateDecision, pairgate_accept, pairgate_reject, pairing_gate_decision}
use sticks3_buddy.Ble.Link.{
  Bridge, BondStore, is_bonded, pair_window_open, is_peer, apply_conn_params, admit, on_connect,
  on_disconnect, on_mtu_changed, on_pass_key_notify, on_authentication_complete, gap_key_watch,
  conn_params_mode, disconnect, allow_pairing, pairing_tick,
}

-- What the stack and the main loop may do next. A central that connects while a link is up is one
-- that the gate rejects: the stack stops advertising on a connection, and the bridge starts it again
-- when the link ends.
pub data Step : Bridge → Bridge → Type 0 where
  connects :
      (b : Bridge) (now : ℕ) (store : BondStore) (who : Bytes) (id : ℕ)
      → (b.connected ≡ false)
        ⊎ (pairing_gate_decision (pair_window_open now b) (is_bonded store who) (pos store.num)
            ≡ pairgate_reject)
      → Step b (on_connect now store who id b)
  disconnects : (b : Bridge) (bda : Bytes) → Step b (on_disconnect bda b)
  authenticates :
      (b : Bridge) (bda : Bytes) (success : Bool)
      → Step b (on_authentication_complete bda success b)
  distributes :
      (b : Bridge) (bda : Bytes) (is_pid : Bool) (identity : Bytes)
      → Step b (gap_key_watch bda is_pid identity b)
  changes_mtu : (b : Bridge) (mtu : ℕ) → Step b (on_mtu_changed mtu b)
  shows_passkey : (b : Bridge) (pk : ℕ) → Step b (on_pass_key_notify pk b)
  relaxes : (b : Bridge) (relaxed : Bool) → Step b (conn_params_mode relaxed b)
  pairs : (b : Bridge) (now ms : ℕ) (opens : Bool) → Step b (allow_pairing now opens ms b)
  ticks : (b : Bridge) (now : ℕ) → Step b (pairing_tick now b)

pub data Reach (s : Bridge) : Bridge → Type 0 where
  here : Reach s s
  next : {b c : Bridge} → Reach s b → Step b c → Reach s c

abbrev pub boot : Bridge
boot = record {
  connected = false;
  secure = false;
  passkey = 0;
  mtu = 23;
  peer = none;
  pid = none;
  auth = none;
  pair_win_until = 0;
  adv_kick_at = 0;
  link_relaxed = false;
  started = true;
  done = [];
}

-- A secure link is one that is up and whose own peer has authenticated; key material is kept only
-- for a link that is up, and an authenticated address is the peer's.
pub record IsAttributed (b : Bridge) : Type 0 where
  pub up : b.secure ≡ true → b.connected ≡ true
  pub known : b.connected ≡ true → is_some b.peer ≡ true
  pub own : b.secure ≡ true → b.auth ≡ b.peer
  pub fresh : b.connected ≡ false → (b.auth ≡ none) × (b.pid ≡ none)
  pub candidate : is_some b.auth ≡ true → b.auth ≡ b.peer

params-IsAttributed : (b : Bridge) → IsAttributed b → IsAttributed (apply_conn_params b)
unfolding apply_conn_params
params-IsAttributed b v = ground arith

admit-IsAttributed :
    (d : PairGateDecision) (who : Bytes) (id : ℕ) (b : Bridge)
    → (b.connected ≡ false) ⊎ (d ≡ pairgate_reject)
    → IsAttributed b
    → IsAttributed (admit d who id b)
unfolding admit
admit-IsAttributed pairgate_reject who id b h v = ground arith
admit-IsAttributed pairgate_accept who id b (inl h) v =
    params-IsAttributed (record b { peer = some who; pid = none; auth = none; connected = true })
      (ground arith)
admit-IsAttributed pairgate_accept who id b (inr e) v = cc e

is_peer-eq : (b : Bridge) (bda : Bytes) → is_peer b bda ≡ true → b.peer ≡ some bda
is_peer-eq b bda h = of (b.peer) h
  where
    of :
        (p : Option Bytes)
        → (elim p [ none ↦ false | some q ↦ bytes_eq bda q ]) ≡ true
        → p ≡ some bda
    of none e = cc e
    of (some q) e = ap some (sym (bytes_eq→eq bda q e))

authentication-IsAttributed :
    (b : Bridge) (bda : Bytes) (success : Bool)
    → IsAttributed b
    → IsAttributed (on_authentication_complete bda success b)
unfolding on_authentication_complete
authentication-IsAttributed b bda success v = ground (arith, is_peer-eq b bda)

key-IsAttributed :
    (b : Bridge) (bda : Bytes) (is_pid : Bool) (identity : Bytes)
    → IsAttributed b
    → IsAttributed (gap_key_watch bda is_pid identity b)
unfolding gap_key_watch
key-IsAttributed b bda is_pid identity v = ground arith

Step-IsAttributed : {b c : Bridge} → Step b c → IsAttributed b → IsAttributed c
Step-IsAttributed (connects b now store who id h) v =
    unfold on_connect in admit-IsAttributed _ who id b h v
Step-IsAttributed (disconnects b bda) v = unfold on_disconnect in ground arith
Step-IsAttributed (authenticates b bda success) v = authentication-IsAttributed b bda success v
Step-IsAttributed (distributes b bda is_pid identity) v = key-IsAttributed b bda is_pid identity v
Step-IsAttributed (changes_mtu b mtu) v = unfold on_mtu_changed in ground arith
Step-IsAttributed (shows_passkey b pk) v = unfold on_pass_key_notify in ground arith
Step-IsAttributed (relaxes b relaxed) v =
    unfold conn_params_mode in
    params-IsAttributed (record b { link_relaxed = relaxed }) (ground arith)
Step-IsAttributed (pairs b now ms opens) v = unfold allow_pairing disconnect in ground arith
Step-IsAttributed (ticks b now) v = unfold pairing_tick in ground arith

boot-IsAttributed : IsAttributed boot
boot-IsAttributed = ground arith

-- However connections, rejected or accepted, disconnections, authentications, key events, timers
-- and pairing windows interleave after boot, of whatever peers, where none is accepted while a link
-- is up: a link counts as secure only while it is up and its own peer has authenticated, and no
-- authenticated address of another link is kept.
pub Reach-IsAttributed : {b : Bridge} → Reach boot b → IsAttributed b
Reach-IsAttributed here = boot-IsAttributed
Reach-IsAttributed (next r s) = Step-IsAttributed s (Reach-IsAttributed r)
