-- ===== src/Ble/Link.antt =====
-- The link of the BLE bridge (src/ble_bridge.cpp): the callbacks of the BLE stack and the pairing
-- window. The stack is an input of each call (the time, the bond list and
-- the events); what is asked of it is recorded in order. Log lines are left out.
use sticks3_buddy.Prelude.{
  ℕ, Bool, true, false, not, ◌&&◌, ◌||◌, Option, none, some, List, [], ◌∷◌, ◌++◌, ltb, ◌==◌,
  if◌then◌else◌, is_some, take, add32, sub32, before32, pos, Bytes, bytes_eq,
}
pub mod Attribution
pub mod Window
use sticks3_buddy.Screen.{PairGateDecision, pairgate_accept, pairgate_reject, pairing_gate_decision}

pub data Request : Type 0 where
  -- Disconnect the link of that id; `drop_newest` takes getConnId().
  drop_link : ℕ → Request
  drop_newest advertise : Request
  -- esp_ble_gap_update_conn_params: min_int, max_int, latency, timeout.
  conn_params : Bytes → ℕ → ℕ → ℕ → ℕ → Request
  remove_bond : Bytes → Request

-- The static variables of the file. An address that is not set is `none`; a time of 0 is no
-- deadline.
pub record Bridge : Type 0 where
  pub connected : Bool
  pub secure : Bool
  pub passkey : ℕ
  pub mtu : ℕ
  pub peer : Option Bytes
  pub pid : Option Bytes
  pub auth : Option Bytes
  pub pair_win_until : ℕ
  pub adv_kick_at : ℕ
  pub link_relaxed : Bool
  -- The server and its characteristic exist.
  pub started : Bool
  pub done : List Request

abbrev pub ask : Request → Bridge → Bridge
ask r b = record b { done = b.done ++ (r ∷ []) }

-- esp_ble_bond_dev_t: the key of the store, and the identity where the peer distributed one.
pub record Bond : Type 0 where
  pub addr : Bytes
  pub identity : Option Bytes

-- The bond store: the number of bonds, and the list where the call for it succeeds.
pub record BondStore : Type 0 where
  pub num : ℕ
  pub list : Option (List Bond)

-- The static buffer holds BUDDY_MAX_HOSTS + 2 bonds.
abbrev pub bond_buffer : ℕ
bond_buffer = 9

-- The bonds that a call reads into the buffer.
abbrev pub read_bonds : BondStore → Option (List Bond)
read_bonds store = elim store.list [ none ↦ none | some bonds ↦ some (take bond_buffer bonds) ]

unfoldable pub any_bond : (Bond → Bool) → List Bond → Bool
any_bond test [] = false
any_bond test (d ∷ ds) = test d || any_bond test ds

-- _isBonded: fails open where the list cannot be read.
unfoldable pub is_bonded : BondStore → Bytes → Bool
unfolding any_bond
is_bonded store bda = if store.num == 0 then false else elim (read_bonds store) [
  | none ↦ true
  | some bonds ↦ any_bond (λ d. bytes_eq bda d.addr) bonds
]

unfoldable pub pair_window_open : ℕ → Bridge → Bool
pair_window_open now b = not (b.pair_win_until == 0) && before32 now b.pair_win_until

unfoldable pub apply_conn_params : Bridge → Bridge
apply_conn_params b = elim b.peer [
  | none ↦ b
  | some bda ↦
      if not b.connected
      then b
      else if b.link_relaxed
      then ask (conn_params bda 96 160 4 600) b
      else ask (conn_params bda 12 24 0 400) b
]

-- onConnect: the address is committed only on acceptance.
unfoldable pub admit : PairGateDecision → Bytes → ℕ → Bridge → Bridge
unfolding apply_conn_params
admit pairgate_reject who conn_id b = ask (drop_link conn_id) b
admit pairgate_accept who conn_id b =
    apply_conn_params (record b { peer = some who; pid = none; auth = none; connected = true })

unfoldable pub on_connect : ℕ → BondStore → Bytes → ℕ → Bridge → Bridge
on_connect now store who conn_id b =
    admit (pairing_gate_decision (pair_window_open now b) (is_bonded store who) (pos store.num)) who
      conn_id b

-- memcmp with the address of the accepted link.
abbrev pub is_peer : Bridge → Bytes → Bool
is_peer b bda = elim b.peer [ none ↦ false | some p ↦ bytes_eq bda p ]

abbrev pub link_down : Bridge → Bridge
link_down b = record b {
  connected = false;
  secure = false;
  passkey = 0;
  mtu = 23;
  peer = none;
  pid = none;
  auth = none;
  adv_kick_at = 0;
}

-- onDisconnect: the end of a link that was never accepted changes nothing.
unfoldable pub on_disconnect : Bytes → Bridge → Bridge
on_disconnect bda b =
    if b.connected && is_some b.peer && not (is_peer b bda) then b else ask advertise (link_down b)

unfoldable pub on_mtu_changed : ℕ → Bridge → Bridge
on_mtu_changed mtu b = record b { mtu = mtu }

unfoldable pub on_pass_key_notify : ℕ → Bridge → Bridge
on_pass_key_notify pk b = record b { passkey = pk }

-- onAuthenticationComplete: an event of another link is ignored.
unfoldable pub on_authentication_complete : Bytes → Bool → Bridge → Bridge
on_authentication_complete bda success b =
    if not b.connected || not (is_peer b bda)
    then b
    else if success
    then record b { passkey = 0; auth = some bda; secure = true }
    else let failed = record b { passkey = 0; secure = false } in
      if b.started then ask drop_newest failed else failed

-- _gapKeyWatch, for a key event: the address of the link, whether it is an identity key, and the
-- identity.
unfoldable pub gap_key_watch : Bytes → Bool → Bytes → Bridge → Bridge
gap_key_watch bda is_pid identity b =
    if not b.connected || not (is_peer b bda)
    then b
    else if is_pid
    then record b { pid = some identity }
    else b

unfoldable pub conn_params_mode : Bool → Bridge → Bridge
unfolding apply_conn_params
conn_params_mode relaxed b = apply_conn_params (record b { link_relaxed = relaxed })

unfoldable pub disconnect : Bridge → Bridge
disconnect b = if b.started && b.connected then ask drop_newest b else b

-- bleAllowPairing
unfoldable pub allow_pairing : ℕ → Bool → ℕ → Bridge → Bridge
unfolding disconnect
allow_pairing now open_win window_ms b =
    let until = add32 now window_ms in
    let opened = record b { pair_win_until = if until == 0 then 1 else until } in
    if open_win
    then if b.connected
      then disconnect (record opened { adv_kick_at = add32 now 500 })
      else ask advertise opened
    else record b { pair_win_until = 0; adv_kick_at = 0 }

-- blePairingTick: the natural end of the window, and the fallback for a late disconnect event.
abbrev pub expired : ℕ → ℕ → Bool
expired now t = not (t == 0) && not (before32 now t)

unfoldable pub pairing_tick : ℕ → Bridge → Bridge
pairing_tick now b =
    let c =
      if expired now b.pair_win_until
      then record b { pair_win_until = 0; adv_kick_at = 0 }
      else b in
    if expired now c.adv_kick_at
    then if c.connected
      then record c { adv_kick_at = 0 }
      else ask advertise (record c { adv_kick_at = 0 })
    else c

-- blePairingRemainingMs
unfoldable pub pairing_remaining_ms : ℕ → Bridge → ℕ
pairing_remaining_ms now b =
    let left = sub32 b.pair_win_until now in
    if b.pair_win_until == 0 then 0 else if ltb left 2147483648 then left else 0
