-- ===== src/HostLink.antt =====
-- The connection policy over the host registry (src/host_registry.cpp). The radio is an input of
-- each call, what is asked of it is recorded in order, and log lines are left out.
use sticks3_buddy.Prelude.{ℕ, Bool, Option, none, some, List, [], ◌∷◌, ◌++◌, Bytes}
use sticks3_buddy.Hosts
use sticks3_buddy.Hosts.{HostRec, HostTable, host, drop_host, remap_pin}
pub mod Store
pub mod Reconcile
pub mod Poll
pub mod Controls
mod Persist
mod Pinning
mod Bonds
mod Sound
mod Examples

-- What the code asks of the radio and of its bond store.
pub data Action : Type 0 where
  disconnect clear_bonds : Action
  remove_bond : Bytes → Action
  allow_pairing : Bool → ℕ → Action

-- bleConnected, bleSecure, blePeerBda, bleBondKeyBda and blePairingRemainingMs.
pub record Radio : Type 0 where
  pub connected : Bool
  pub secure : Bool
  pub peer_bda : Option Bytes
  pub bond_key : Option Bytes
  pub pairing_ms : ℕ

-- The NVS namespace "hosts": the used count, the counter and the blobs h0 to h6.
pub record Nvs : Type 0 where
  pub exists : Bool
  pub n : ℕ
  pub seq : ℕ
  pub blobs : List (Option HostRec)

-- The static variables of the file. A time of 0 is no deadline.
pub record Glue : Type 0 where
  pub table : HostTable
  pub nvs : Nvs
  pub pin : Option ℕ
  pub fb_auto : Bool
  pub fallback : Bool
  pub pin_wait_until : ℕ
  pub doom_at : ℕ
  pub conn_selected : Bool
  pub conn_slot : Option ℕ
  pub ble_name : Bytes
  pub usb_name : Bytes
  pub was_conn : Bool
  pub was_secure : Bool
  pub paired_name : Bytes
  pub done : List Action

abbrev pub ask : Action → Glue → Glue
ask a g = record g { done = g.done ++ (a ∷ []) }

-- _peerKeyBda: the bond store's key, else the address of the link.
unfoldable pub peer_key : Radio → Option Bytes
peer_key r = elim r.bond_key [ none ↦ r.peer_bda | some bda ↦ some bda ]

-- A removal, with the pin moved along.
unfoldable pub drop_slot : ℕ → Glue → Glue
drop_slot i g = record g { pin = remap_pin g.pin i; table = (drop_host g.table (some i)).0 }

-- The least recently seen host makes room: its bond goes too.
unfoldable pub evict : ℕ → Glue → Glue
unfolding drop_slot
evict v g = drop_slot v (ask (remove_bond (host g.table v).bda) g)
