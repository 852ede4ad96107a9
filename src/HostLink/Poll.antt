-- ===== src/HostLink/Poll.antt =====
-- The poll of the link (hostGluePoll of src/host_registry.cpp), without the whitelist build flag.
use sticks3_buddy.Prelude.{
  ℕ, Bool, true, false, not, ◌&&◌, Option, none, some, [], leb, ◌==◌, if◌then◌else◌, is_some, add32,
  before32, Bytes, bytes_eq, non_empty, strncpy,
}
use sticks3_buddy.Hosts.{HostTable, max_hosts, host, find_bda, touch, adopt, rekey, lru}
use sticks3_buddy.HostLink.{Glue, Radio, disconnect, allow_pairing, ask, peer_key, evict}
use sticks3_buddy.HostLink.Store.{save_glue}

-- strncpy into a name of 24 bytes
abbrev pub shown_name : HostTable → ℕ → Bytes
shown_name t i = strncpy 24 (host t i).name

-- A known host that is not the pinned one, with no fallback and no pairing window.
abbrev pub rejected : Option ℕ → ℕ → Bool → ℕ → Bool
rejected none i fallback pairing_ms = false
rejected (some pin) i fallback pairing_ms = not fallback && (pairing_ms == 0) && not (i == pin)

abbrev pub known_slot : HostTable → Option Bytes → Option ℕ
known_slot t none = none
known_slot t (some bda) = find_bda t bda

-- The link is up, from a host of the given slot or from an unknown one.
unfoldable pub arrive : ℕ → Radio → Glue → Option ℕ → Glue
arrive now r g none = record g {
  doom_at = 0;
  conn_selected = true;
  conn_slot = none;
  ble_name = [];
}
arrive now r g (some i) =
    let out = rejected g.pin i g.fallback r.pairing_ms in
    record g {
      conn_slot = some i;
      ble_name = shown_name g.table i;
      conn_selected = not out;
      doom_at = if out then add32 now 1000 else 0;
    }

unfoldable pub link_up : ℕ → Radio → Glue → Glue
unfolding arrive
link_up now r g = arrive now r g (known_slot g.table r.peer_bda)

unfoldable pub link_down : ℕ → Glue → Glue
link_down now g = record g {
  conn_slot = none;
  ble_name = [];
  doom_at = 0;
  conn_selected = true;
  pin_wait_until = if is_some g.pin then add32 now 30000 else g.pin_wait_until;
  fallback = if is_some g.pin then false else g.fallback;
}

-- The record of the connect-time address moves to the identity address.
unfoldable pub move_record : Bytes → ℕ → Glue → Glue × Option ℕ
move_record bda old g =
    let (t, ok) = rekey g.table (some old) bda in
    if ok
    then (
      ask (allow_pairing false 0) (record g { table = t; paired_name = shown_name t old }),
      some old,
    )
    else (g, none)

unfoldable pub rekey_known : Radio → Bytes → Glue → Option ℕ → Glue × Option ℕ
unfolding move_record
rekey_known r bda g (some i) = (g, some i)
rekey_known r bda g none = elim r.peer_bda [
  | none ↦ (g, none)
  | some conn ↦
      if bytes_eq conn bda
      then (g, none)
      else elim (find_bda g.table conn) [ none ↦ (g, none) | some old ↦ move_record bda old g ]
]

unfoldable pub make_room : Glue → Glue
make_room g =
    if leb max_hosts g.table.count then elim (lru g.table) [ none ↦ g | some v ↦ evict v g ] else g

-- A new host: a slot, the end of the pairing window, and the pending toast.
unfoldable pub adopt_new : Bytes → Glue → Option ℕ → Glue × Option ℕ
unfolding make_room
adopt_new bda g (some i) = (g, some i)
adopt_new bda g none =
    let g1 = make_room g in
    let (t, idx) = adopt g1.table bda in
    (
      ask (allow_pairing false 0) (record g1 {
        table = t;
        paired_name = elim idx [ none ↦ g1.paired_name | some i ↦ shown_name t i ];
      }),
      idx,
    )

unfoldable pub settle : Option ℕ → Glue → Glue
settle none g = g
settle (some i) g = save_glue (record g {
  table = touch g.table (some i);
  conn_slot = some i;
  ble_name = if non_empty g.ble_name then g.ble_name else shown_name g.table i;
})

-- The link has become secure.
unfoldable pub secured : Radio → Glue → Glue
unfolding rekey_known adopt_new settle
secured r g = elim (peer_key r) [
  | none ↦ g
  | some bda ↦
      let (g1, idx1) = rekey_known r bda g (find_bda g.table bda) in
      let (g2, idx2) = adopt_new bda g1 idx1 in settle idx2 g2
]

-- A pending disconnect whose time has come.
unfoldable pub run_doom : ℕ → Radio → Glue → Glue
run_doom now r g =
    if not (g.doom_at == 0) && r.connected && not (before32 now g.doom_at)
    then ask disconnect (record g { doom_at = 0 })
    else g

-- The pinned host has not shown up in time.
unfoldable pub run_fallback : ℕ → Radio → Glue → Glue
run_fallback now r g =
    if is_some g.pin
      && not r.connected
      && g.fb_auto
      && not g.fallback
      && not (g.pin_wait_until == 0)
      && not (before32 now g.pin_wait_until)
    then record g { fallback = true }
    else g

unfoldable pub on_link : ℕ → Radio → Glue → Glue
unfolding link_up link_down
on_link now r g =
    if r.connected && not g.was_conn
    then link_up now r g
    else if not r.connected && g.was_conn
    then link_down now g
    else g

unfoldable pub on_secure : Radio → Glue → Glue
unfolding secured
on_secure r g = if (r.connected && r.secure) && not g.was_secure then secured r g else g

unfoldable pub poll : ℕ → Radio → Glue → Glue
unfolding on_link on_secure run_doom run_fallback
poll now r g =
    let g1 = on_secure r (on_link now r g) in
    run_fallback now r
      (run_doom now r (record g1 { was_conn = r.connected; was_secure = r.connected && r.secure }))
