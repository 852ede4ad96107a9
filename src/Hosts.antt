-- ===== src/Hosts.antt =====
-- The registry of bonded hosts (src/host_registry.h): the pure half, over a compact array keyed by
-- BD address. An index that the code holds in an `int`, -1 for none, is an `Option`.
use sticks3_buddy.Prelude.{
  ℕ, zero, suc, ◌+◌, ◌-◌, Bool, true, false, not, Option, none, some, List, [], ◌∷◌, ◌++◌, ltb, leb,
  ◌==◌, if◌then◌else◌, or_else, get_or, set, replicate, u32, Bytes, codes, bytes_eq, non_empty,
  strncpy, first_index, shift_loop,
}
pub mod Keys
pub mod Hello
pub mod Removal
pub mod Recency
mod Examples
use sticks3_buddy.Text.Utf8.{sanitize}

-- BUDDY_MAX_HOSTS
abbrev pub max_hosts : ℕ
max_hosts = 7

-- HOST_F_USED
abbrev pub flag_used : ℕ
flag_used = 1

pub record HostRec : Type 0 where
  pub bda : Bytes
  pub name : Bytes
  pub app : Bytes
  pub host_id : Bytes
  pub last_seen : ℕ
  pub flags : ℕ

-- A record of zero bytes.
abbrev pub no_host : HostRec
no_host = record {
  bda = 0 ∷ 0 ∷ 0 ∷ 0 ∷ 0 ∷ 0 ∷ [];
  name = [];
  app = [];
  host_id = [];
  last_seen = 0;
  flags = 0;
}

pub record HostTable : Type 0 where
  pub hosts : List HostRec
  pub count : ℕ
  pub seq : ℕ

abbrev pub host : HostTable → ℕ → HostRec
host t i = get_or t.hosts i no_host

unfoldable pub init : HostTable
init = record { hosts = replicate max_hosts no_host; count = 0; seq = 0 }

abbrev pub has_bda : Bytes → HostRec → Bool
has_bda bda r = bytes_eq r.bda bda

unfoldable pub find_bda : HostTable → Bytes → Option ℕ
find_bda t bda = first_index (has_bda bda) t.count 0 t.hosts no_host

-- `++t->seq`, stamped on a record.
abbrev pub stamp : HostTable → ℕ → HostRec → HostTable
stamp t i r = record t {
  hosts = set t.hosts i (record r { last_seen = u32 (t.seq + 1) });
  seq = u32 (t.seq + 1);
}

unfoldable pub touch : HostTable → Option ℕ → HostTable
touch t none = t
touch t (some i) = if leb t.count i then t else stamp t i (host t i)

-- The decimal digit of a number below ten; `i + 1` is at most 7 where it is printed.
abbrev pub digit : ℕ → ℕ
digit n = n + b'0'

-- An unknown peer gets the next slot; -1 when the table is full.
unfoldable pub adopt : HostTable → Bytes → HostTable × Option ℕ
adopt t bda = if leb max_hosts t.count then (t, none) else (
  stamp (record t { count = t.count + 1 }) t.count
      (record {
        bda = bda;
        name = codes "Host-" ++ digit (t.count + 1) ∷ [];
        app = [];
        host_id = [];
        last_seen = 0;
        flags = flag_used;
      }),
  some t.count,
)

-- A null or empty field leaves the stored text alone.
abbrev pub given : Option Bytes → Bool
given none = false
given (some s) = non_empty s

unfoldable pub greeted : HostRec → Option Bytes → Option Bytes → Option Bytes → HostRec
greeted r host_id name app = record r {
  host_id = if given host_id then strncpy 9 (or_else host_id []) else r.host_id;
  name = if given name then sanitize 24 name else r.name;
  app = if given app then sanitize 12 app else r.app;
}

unfoldable pub hello : HostTable → Option ℕ → Option Bytes → Option Bytes → Option Bytes → HostTable
hello t none host_id name app = t
hello t (some i) host_id name app =
    if leb t.count i then t else stamp t i (greeted (host t i) host_id name app)

-- idx = find; if (idx < 0) idx = adopt
unfoldable pub route : HostTable → Bytes → Option ℕ → HostTable × Option ℕ
route t bda none = adopt t bda
route t bda (some i) = (t, some i)

-- The record of the link's own address takes the hello; an unknown address is adopted first.
unfoldable pub hello_route :
    HostTable → Bytes → Option Bytes → Option Bytes → Option Bytes → HostTable × Option ℕ
unfolding route
hello_route t bda host_id name app =
    let (u, idx) = route t bda (find_bda t bda) in (hello u idx host_id name app, idx)

-- owner >= 0 && owner != idx
abbrev pub owned_by_other : Option ℕ → ℕ → Bool
owned_by_other none i = false
owned_by_other (some owner) i = not (owner == i)

-- Refused for a slot out of range, and where another record has the new address.
unfoldable pub rekey : HostTable → Option ℕ → Bytes → HostTable × Bool
rekey t none bda = (t, false)
rekey t (some i) bda =
    if leb t.count i
    then (t, false)
    else if owned_by_other (find_bda t bda) i
    then (t, false)
    else (record t { hosts = set t.hosts i (record (host t i) { bda = bda }) }, true)

-- for (i < count) if (lastSeen < bestSeen) { bestSeen = lastSeen; best = i; }
unfoldable pub lru_loop : ℕ → ℕ → List HostRec → ℕ → Option ℕ → Option ℕ
lru_loop zero i hosts best_seen best = best
lru_loop (suc k) i hosts best_seen best =
    let seen = (get_or hosts i no_host).last_seen in
    let newer = ltb seen best_seen in
    lru_loop k (suc i) hosts (if newer then seen else best_seen) (if newer then some i else best)

unfoldable pub lru : HostTable → Option ℕ
lru t = lru_loop t.count 0 t.hosts 0xFFFFFFFF none

-- Closes the gap and zeroes the slot behind; returns the new count.
unfoldable pub drop_host : HostTable → Option ℕ → HostTable × ℕ
drop_host t none = (t, t.count)
drop_host t (some i) = if leb t.count i then (t, t.count) else (
  record t {
    hosts = set (shift_loop (t.count - 1 - i) i t.hosts no_host) (t.count - 1) no_host;
    count = t.count - 1;
  },
  t.count - 1,
)

-- A pinned slot after the drop of another; `none` is -1, the automatic choice.
unfoldable pub remap_pin : Option ℕ → ℕ → Option ℕ
remap_pin none dropped = none
remap_pin (some pin) dropped =
    if pin == dropped then none else some (if ltb dropped pin then pin - 1 else pin)
