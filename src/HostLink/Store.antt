-- ===== src/HostLink/Store.antt =====
-- The registry in NVS (_save and _load of src/host_registry.cpp).
use sticks3_buddy.Prelude.{
  ℕ, zero, suc, ◌+◌, Bool, true, not, Option, none, some, List, ltb, ◌==◌, if◌then◌else◌, get_or,
  set,
}
use sticks3_buddy.Hosts
use sticks3_buddy.Hosts.{
  HostRec, HostTable, max_hosts, no_host, host, flag_used, given, find_bda, touch, adopt,
  hello_route, rekey, lru, drop_host, remap_pin,
}
use Prim.Native.Nat.{bit_and}
use sticks3_buddy.HostLink.{Nvs, Glue}

-- The blobs of the slots in use; the others are removed.
unfoldable pub save_loop : ℕ → ℕ → HostTable → List (Option HostRec) → List (Option HostRec)
save_loop zero i t blobs = blobs
save_loop (suc k) i t blobs =
    save_loop k (suc i) t (set blobs i (if ltb i t.count then some (host t i) else none))

unfoldable pub save : HostTable → Nvs → Nvs
save t nvs = record {
  exists = true;
  n = t.count;
  seq = t.seq;
  blobs = save_loop max_hosts 0 t nvs.blobs;
}

unfoldable pub save_glue : Glue → Glue
save_glue g = record g { nvs = save g.table g.nvs }

abbrev pub is_used : HostRec → Bool
is_used r = not (bit_and r.flags flag_used == 0)

-- A blob is read into the next free slot, and the slot is kept if the record is in use.
unfoldable pub read_blob : Option HostRec → List HostRec → ℕ → List HostRec × ℕ
read_blob none hosts out = (hosts, out)
read_blob (some r) hosts out = (set hosts out r, if is_used r then out + 1 else out)

unfoldable pub load_loop : ℕ → ℕ → List (Option HostRec) → List HostRec → ℕ → List HostRec × ℕ
load_loop zero i blobs hosts out = (hosts, out)
load_loop (suc k) i blobs hosts out =
    let (hosts', out') = read_blob (get_or blobs i none) hosts out in
    load_loop k (suc i) blobs hosts' out'

abbrev pub stored_count : Nvs → ℕ
stored_count nvs = if ltb max_hosts nvs.n then max_hosts else nvs.n

unfoldable pub load : Nvs → HostTable
load nvs =
    if nvs.exists
    then (let r = load_loop (stored_count nvs) 0 nvs.blobs (Hosts.init).hosts 0 in
        record { hosts = r.0; count = r.1; seq = nvs.seq })
    else Hosts.init
