-- ===== src/HostLink/Reconcile.antt =====
-- The boot of the registry (_reconcileBonds and hostGlueInit of src/host_registry.cpp).
use sticks3_buddy.Prelude.{
  ℕ, zero, suc, Bool, true, false, ◌||◌, Option, none, some, List, [], ◌∷◌, leb, if◌then◌else◌,
  is_some, add32, Bytes, bytes_eq,
}
use sticks3_buddy.Hosts.{HostTable, max_hosts, host, find_bda, adopt, lru}
use sticks3_buddy.HostLink.{Glue, evict, drop_slot}
use sticks3_buddy.HostLink.Store.{load, save_glue}

-- for (int b = 0; b < n; b++) if (memcmp(...) == 0)
unfoldable pub bonded : List Bytes → Bytes → Bool
bonded [] bda = false
bonded (b ∷ bs) bda = bytes_eq bda b || bonded bs bda

-- for (int i = count - 1; i >= 0; i--): the records whose bond is gone are dropped. The flag is
-- `dirty`.
unfoldable pub drop_stale : ℕ → List Bytes → Glue → Bool → Glue × Bool
drop_stale zero bonds g dirty = (g, dirty)
drop_stale (suc i) bonds g dirty =
    let dropped = drop_stale i bonds (drop_slot i g) true in
    let kept = drop_stale i bonds g dirty in
    if bonded bonds (host g.table i).bda then kept else dropped

unfoldable pub adopt_bond : Bytes → Glue → Glue
adopt_bond bda g = record g { table = (adopt g.table bda).0 }

-- Bonds without a record are adopted; at capacity the least recently seen host goes first.
unfoldable pub adopt_unknown : List Bytes → Glue → Bool → Glue × Bool
adopt_unknown [] g dirty = (g, dirty)
adopt_unknown (b ∷ bs) g dirty =
    let known = adopt_unknown bs g dirty in
    let added = adopt_unknown bs (adopt_bond b g) true in
    if is_some (find_bda g.table b)
    then known
    else if leb max_hosts g.table.count
    then elim (lru g.table) [
      | none ↦ (g, dirty)
      | some v ↦ adopt_unknown bs (adopt_bond b (evict v g)) true
    ]
    else added

-- `none` is a bond list that could not be read.
unfoldable pub reconcile : Option (List Bytes) → Glue → Glue
reconcile none g = g
reconcile (some bonds) g =
    let (g1, dirty1) = drop_stale g.table.count bonds g false in
    let (g2, dirty2) = adopt_unknown bonds g1 dirty1 in if dirty2 then save_glue g2 else g2

abbrev pub in_range : HostTable → Option ℕ → Option ℕ
in_range t none = none
in_range t (some slot) = if leb t.count slot then none else some slot

-- The pin comes from the settings, after the reconcile.
unfoldable pub init : Option ℕ → Bool → Option (List Bytes) → ℕ → Glue → Glue
init pinned fb_auto bonds now g =
    let g1 = reconcile bonds (record g { fb_auto = fb_auto; table = load g.nvs }) in
    let pin = in_range g1.table pinned in
    record g1 {
      pin = pin;
      pin_wait_until = if is_some pin then add32 now 30000 else g1.pin_wait_until;
    }
