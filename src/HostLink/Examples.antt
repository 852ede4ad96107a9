-- ===== src/HostLink/Examples.antt =====
-- The connection policy at concrete inputs.
use sticks3_buddy.Prelude.{
  ◌⊎◌, List, map, take, ℕ, zero, suc, ◌<◌, ◌≡◌, refl, true, false, Option, none, some, [], ◌∷◌,
  ◌++◌, arith, replicate, Bytes, bytes_eq, first_index, shift_loop,
}
use sticks3_buddy.Hosts
use sticks3_buddy.Hosts.{
  HostRec, HostTable, max_hosts, no_host, host, flag_used, given, find_bda, touch, adopt,
  hello_route, rekey, lru, lru_loop, drop_host, remap_pin,
}
use sticks3_buddy.Hosts.Keys.{IsValid, init-IsValid, adopt-IsValid}
use sticks3_buddy.Hosts.Removal.{pinned_host}
use sticks3_buddy.HostLink.{evict, Glue, Nvs, Radio, remove_bond, drop_slot}
use sticks3_buddy.HostLink.Store.{is_used, save, save_loop, save_glue, load, load_loop, read_blob}
use sticks3_buddy.HostLink.Reconcile.{
  adopt_bond, bonded, reconcile, drop_stale, adopt_unknown, init,
}
use sticks3_buddy.HostLink.Controls.{forget, drop_link}
use sticks3_buddy.HostLink.Persist.{load-save}
use sticks3_buddy.HostLink.Pinning.{forget-pinned}
use sticks3_buddy.HostLink.Sound.{reconcile-Bonded}

abbrev desk : Bytes
desk = 1 ∷ 2 ∷ 3 ∷ 4 ∷ 5 ∷ 6 ∷ []

abbrev laptop : Bytes
laptop = 9 ∷ 2 ∷ 3 ∷ 4 ∷ 5 ∷ 6 ∷ []

abbrev two : HostTable
two = (adopt (adopt Hosts.init desk).0 laptop).0

two-IsValid : IsValid two
two-IsValid =
    adopt-IsValid (adopt Hosts.init desk).0 laptop
      (adopt-IsValid Hosts.init desk init-IsValid
        (unfold Hosts.init find_bda first_index bytes_eq in refl)
        (unfold Hosts.init in omega arith))
      (unfold Hosts.init adopt find_bda first_index bytes_eq in refl)
      (unfold Hosts.init adopt in omega arith)

abbrev empty_nvs : Nvs
empty_nvs = record { exists = false; n = 0; seq = 0; blobs = replicate 7 none }

abbrev glue : Option ℕ → Option ℕ → Glue
glue pin conn = record {
  table = two;
  nvs = save two empty_nvs;
  pin = pin;
  fb_auto = true;
  fallback = false;
  pin_wait_until = 0;
  doom_at = 0;
  conn_selected = true;
  conn_slot = conn;
  ble_name = [];
  usb_name = [];
  was_conn = false;
  was_secure = false;
  paired_name = [];
  done = [];
}

abbrev from : Bytes → Radio
from bda = record {
  connected = true;
  secure = false;
  peer_bda = some bda;
  bond_key = none;
  pairing_ms = 0;
}

load-save_example :
    let u = load (save two empty_nvs) in
    (u.count ≡ two.count) × (u.seq ≡ two.seq) × (take u.count u.hosts ≡ take two.count two.hosts)
load-save_example =
    load-save two empty_nvs two-IsValid used refl (unfold adopt Hosts.init in omega arith)
  where
    used : (i : ℕ) → i < two.count → is_used (host two i) ≡ true
    used zero h = unfold adopt Hosts.init in refl
    used (suc zero) h = unfold adopt Hosts.init in refl
    used (suc (suc i)) h = absurd (unfold adopt Hosts.init in omega arith)

-- The desk, whose link is secured before its second is over.
abbrev secured_desk : Radio
secured_desk = record (from desk) { secure = true }

forget-pinned_example :
    let u = forget 0 (glue (some 1) (some 0)) in
    IsValid u.table
    × (pinned_host u.table u.pin ≡ pinned_host two (some 1))
    × (pinned_host u.table u.conn_slot ≡ none)
    × (u.done ≡ (drop_link 0 (glue (some 1) (some 0))).done ++ (remove_bond (host two 0).bda ∷ []))
    × (u.nvs ≡ save u.table (save two empty_nvs))
forget-pinned_example =
    forget-pinned (glue (some 1) (some 0)) 0 two-IsValid (unfold adopt Hosts.init in omega arith)

reconcile-Bonded_example :
    let u = reconcile (some (laptop ∷ [])) (glue none none) in
    IsValid u.table
    × ((j : ℕ) → j < u.table.count → bonded (laptop ∷ []) (host u.table j).bda ≡ true)
    × ((u.done ≡ []) ⊎ (7 < 1))
reconcile-Bonded_example =
    reconcile-Bonded (laptop ∷ []) (glue none none) two-IsValid
      (unfold adopt Hosts.init in omega arith)

-- Seven hosts and a bond more than there are places: each adoption evicts the host that comes next in
-- the list, and in the end every bond has been removed.
abbrev address : ℕ → Bytes
address n = n ∷ 0 ∷ 0 ∷ 0 ∷ 0 ∷ 0 ∷ []

seven : ℕ → HostTable
seven zero = Hosts.init
seven (suc n) = (adopt (seven n) (address (suc n))).0

abbrev crowd : List Bytes
crowd = map address (8 ∷ 1 ∷ 2 ∷ 3 ∷ 4 ∷ 5 ∷ 6 ∷ 7 ∷ [])

bonds_lost_test :
    let u = reconcile (some crowd) (record (glue none none) { table = seven 7 }) in
    (u.done ≡ map (λ n. remove_bond (address n)) (1 ∷ 2 ∷ 3 ∷ 4 ∷ 5 ∷ 6 ∷ 7 ∷ 8 ∷ []))
    × (u.table.count ≡ 7)
unfolding adopt Hosts.init reconcile save_glue drop_stale drop_slot drop_host adopt_unknown
    adopt_bond evict bonded shift_loop find_bda first_index bytes_eq seven lru lru_loop
bonds_lost_test = (refl, refl)

-- The pin of the settings is taken after the reconcile: when the bond of the first host is gone,
-- a pin on the second slot is out of range, although that host is still there.
pin_after_stale_test : (init (some 1) true (some (laptop ∷ [])) 0 (glue none none)).pin ≡ none
unfolding adopt Hosts.init init reconcile load load_loop read_blob save save_loop save_glue
    drop_stale drop_slot drop_host adopt_unknown bonded shift_loop find_bda first_index bytes_eq
pin_after_stale_test = refl
