-- ===== src/HostLink/Controls.antt =====
-- The hello, the pin, the pairing window and the removals (src/host_registry.cpp), without the
-- whitelist build flag.
use sticks3_buddy.Prelude.{
  ℕ, ◌-◌, Bool, true, false, not, ◌&&◌, ◌||◌, Option, none, some, [], ◌∷◌, ◌++◌, ltb, leb, ◌==◌,
  if◌then◌else◌, or_else, replicate, add32, Bytes, non_empty, strncpy,
}
use sticks3_buddy.Text.Utf8.{sanitize}
use sticks3_buddy.Hosts
use sticks3_buddy.Hosts.{
  HostRec, HostTable, max_hosts, no_host, host, flag_used, given, find_bda, touch, adopt,
  hello_route, rekey, lru, drop_host, remap_pin,
}
use sticks3_buddy.HostLink.{
  Glue, Radio, disconnect, clear_bonds, remove_bond, allow_pairing, ask, peer_key, drop_slot,
}
use sticks3_buddy.HostLink.Store.{save_glue}
use sticks3_buddy.HostLink.Reconcile.{in_range}
use sticks3_buddy.HostLink.Poll.{shown_name}

-- A name for display alone, where no record takes it.
abbrev pub display_only : Option Bytes → Glue → Glue
display_only name g = if given name then record g { ble_name = sanitize 24 name } else g

unfoldable pub ble_hello : Option Bytes → Option Bytes → Option Bytes → Radio → Glue → Glue
ble_hello host_id name app r g = elim (peer_key r) [
  | none ↦ display_only name g
  | some bda ↦
      let (t, idx) = hello_route g.table bda host_id name app in
      elim idx [
        | none ↦ display_only name (record g { table = t })
        | some i ↦ save_glue (record g { table = t; conn_slot = some i; ble_name = shown_name t i })
      ]
]

-- The flag is `data.sel` of the acknowledgement.
unfoldable pub on_hello :
    Option Bytes → Option Bytes → Option Bytes → Bool → ℕ → Radio → Glue → Glue × Bool
unfolding ble_hello
on_hello host_id name app false now r g =
    (record g { usb_name = sanitize 24 (some (or_else name [])) }, true)
on_hello host_id name app true now r g =
    let u = ble_hello host_id name app r g in
    (record u { doom_at = if u.conn_selected then u.doom_at else add32 now 300 }, u.conn_selected)

-- The current link is not the pinned one.
abbrev pub elsewhere : Option ℕ → Option ℕ → Bool
elsewhere none conn_slot = false
elsewhere (some pin) none = true
elsewhere (some pin) (some slot) = not (slot == pin)

unfoldable pub set_pin : Option ℕ → ℕ → Radio → Glue → Glue
set_pin slot now r g =
    let pin = in_range g.table slot in
    let pinned = record g { pin = pin; fallback = false; pin_wait_until = add32 now 30000 } in
    if r.connected && elsewhere pin g.conn_slot then ask disconnect pinned else pinned

unfoldable pub pair_window : Bool → Glue → Glue
pair_window open_it g = ask (allow_pairing open_it 60000) g

-- The pending toast, once; `none` is a null buffer.
unfoldable pub take_paired : Option ℕ → Glue → Glue × Option Bytes
take_paired none g = (g, none)
take_paired (some size) g =
    if not (non_empty g.paired_name) || (size == 0)
    then (g, none)
    else (record g { paired_name = [] }, some (strncpy size g.paired_name))

abbrev pub is_slot : Option ℕ → ℕ → Bool
is_slot none slot = false
is_slot (some i) slot = i == slot

abbrev pub shifted : Option ℕ → ℕ → Option ℕ
shifted none slot = none
shifted (some i) slot = some (if ltb slot i then i - 1 else i)

-- The link of the forgotten host is dropped.
unfoldable pub drop_link : ℕ → Glue → Glue
drop_link slot g =
    let same = is_slot g.conn_slot slot in
    record g {
      conn_slot = if same then none else g.conn_slot;
      ble_name = if same then [] else g.ble_name;
      done = if same then g.done ++ (disconnect ∷ []) else g.done;
    }

unfoldable pub forget : ℕ → Glue → Glue
unfolding drop_link
forget slot g =
    let g1 = ask (remove_bond (host g.table slot).bda) (drop_link slot g) in
    let g2 = record (drop_slot slot g1) { conn_slot = shifted g1.conn_slot slot } in
    if leb g.table.count slot then g else save_glue g2

unfoldable pub forget_all : Radio → Glue → Glue
forget_all r g =
    let g1 = ask clear_bonds (if r.connected then ask disconnect g else g) in
    record g1 {
      table = Hosts.init;
      pin = none;
      fallback = false;
      conn_slot = none;
      ble_name = [];
      nvs = record { exists = true; n = 0; seq = 0; blobs = replicate max_hosts none };
    }

unfoldable pub connected_slot : Radio → Glue → Option ℕ
connected_slot r g = if r.connected then g.conn_slot else none

unfoldable pub active_name : Radio → Glue → Bytes
active_name r g = if r.connected && non_empty g.ble_name then g.ble_name else g.usb_name
