-- ===== src/Hosts/Keys.antt =====
-- The registry is well formed, its keys are distinct, and every operation on records keeps it so.
use sticks3_buddy.Prelude.{
  ℕ, ◌+◌, ◌≤◌, ◌<◌, ◌≡◌, refl, sym, ap, ◌∙◌, ◌≢◌, inl, inr, false, Option, none, some, [], ◌∷◌,
  ◌++◌, arith, leb, Bool-cases, Option-cases, length, get_or, set, length-set, u32, u32_mod, Bytes,
  codes, bytes_eq_refl, bytes_eq→eq, bytes_eq-of_eq, get_or-set_self, set_cases, distinct-set,
  first_index_sound, first_index-none, first_index_unique,
}
use sticks3_buddy.Hosts.{
  HostRec, HostTable, max_hosts, no_host, host, has_bda, find_bda, init, stamp, touch, adopt,
  greeted, hello, owned_by_other, rekey, digit, flag_used,
}

-- The array has its size, the entries in use fit, no two of them have one address, and no stamp is
-- ahead of the counter.
pub record IsValid (t : HostTable) : Type 0 where
  pub full : length t.hosts ≡ max_hosts
  pub fits : t.count ≤ max_hosts
  pub unique : (i j : ℕ) → i < t.count → j < t.count → (host t i).bda ≡ (host t j).bda → i ≡ j
  pub stamped : (i : ℕ) → i < t.count → (host t i).last_seen ≤ t.seq

pub init-IsValid : IsValid init
unfolding init
init-IsValid = record {
  full = refl;
  fits = omega arith;
  unique = λ i j h k e. absurd (omega arith);
  stamped = λ i h. absurd (omega arith);
}

pub find_bda_sound :
    (t : HostTable) (bda : Bytes) (i : ℕ)
    → find_bda t bda ≡ some i
    → (i < t.count) × ((host t i).bda ≡ bda)
unfolding find_bda
find_bda_sound t bda i e =
    let (_, b, p) = first_index_sound (has_bda bda) t.count 0 t.hosts no_host i e in
    (omega (arith, b), bytes_eq→eq _ _ p)

pub find_bda-none :
    (t : HostTable) (bda : Bytes) (i : ℕ)
    → find_bda t bda ≡ none
    → i < t.count
    → (host t i).bda ≢ bda
unfolding find_bda
find_bda-none t bda i e h q = cc (
  first_index-none (has_bda bda) t.count 0 t.hosts no_host i e (omega arith) (omega arith),
  bytes_eq-of_eq _ _ q,
)

pub find_bda_self :
    (t : HostTable) (i : ℕ) → IsValid t → i < t.count → find_bda t (host t i).bda ≡ some i
unfolding find_bda
find_bda_self t i v h =
    first_index_unique (has_bda (host t i).bda) t.count 0 t.hosts no_host i (omega arith)
      (omega arith) (bytes_eq_refl (host t i).bda)
      (λ j l q. v.unique j i (omega arith) h (bytes_eq→eq _ _ q))

-- A write to record `i` is read back there, and nowhere else.
pub host-set_self :
    (t : HostTable) (i : ℕ) (r : HostRec)
    → IsValid t
    → i < t.count
    → get_or (set t.hosts i r) i no_host ≡ r
host-set_self t i r v h = get_or-set_self t.hosts i r no_host (omega (arith, v.full, v.fits))

bda-stamp :
    (t : HostTable) (i j : ℕ) (r : HostRec)
    → IsValid t
    → i < t.count
    → r.bda ≡ (host t i).bda
    → (host (stamp t i r) j).bda ≡ (host t j).bda
bda-stamp t i j r v h e =
    set_cases (λ x. x.bda ≡ (host t j).bda) t.hosts i j _ no_host (omega (arith, v.full, v.fits))
      (λ q. e ∙ ap (λ (k : ℕ). (host t k).bda) q) (λ ne. refl)

-- A stamp on a record that keeps its address keeps the registry valid.
pub stamp-IsValid :
    (t : HostTable) (i : ℕ) (r : HostRec)
    → IsValid t
    → i < t.count
    → r.bda ≡ (host t i).bda
    → t.seq + 1 < u32_mod
    → IsValid (stamp t i r)
stamp-IsValid t i r v h e room = record {
  full = length-set t.hosts i _ ∙ v.full;
  fits = v.fits;
  unique =
      λ j k a b q. v.unique j k a b (sym (bda-stamp t i j r v h e) ∙ q ∙ bda-stamp t i k r v h e);
  stamped = stamps;
}
  where
    stamps : (j : ℕ) → j < t.count → (host (stamp t i r) j).last_seen ≤ u32 (t.seq + 1)
    stamps j a =
        set_cases (λ x. x.last_seen ≤ u32 (t.seq + 1)) t.hosts i j _ no_host
          (omega (arith, v.full, v.fits)) (λ q. omega arith) (λ ne. omega (arith, v.stamped j a))

-- The registry with one more slot in use, before the slot is stamped.
pub adopt-IsValid :
    (t : HostTable) (bda : Bytes)
    → IsValid t
    → find_bda t bda ≡ none
    → t.seq + 1 < u32_mod
    → IsValid (adopt t bda).0
unfolding adopt
adopt-IsValid t bda v fresh room = elim (Bool-cases (leb max_hosts t.count)) [
  | inl no_room ↦ rw no_room v
  | inr slot ↦ rw slot (adopted (ground arith))
]
  where
    new : HostRec
    new = record {
      bda = bda;
      name = codes "Host-" ++ digit (t.count + 1) ∷ [];
      app = [];
      host_id = [];
      last_seen = 0;
      flags = flag_used;
    }

    u : HostTable
    u = stamp (record t { count = t.count + 1 }) t.count new

    adopted : t.count < 7 → IsValid u
    adopted lt = record {
      full = length-set t.hosts t.count _ ∙ v.full;
      fits = omega arith;
      unique =
          distinct-set (λ (x : HostRec). x.bda) t.hosts t.count (t.count + 1)
            (record new { last_seen = u32 (t.seq + 1) }) no_host (omega (arith, v.full))
            (λ j a ne. find_bda-none t bda j fresh (omega arith))
            (λ j k a b nj nk. v.unique j k (omega arith) (omega arith));
      stamped = λ j a.
          set_cases (λ x. x.last_seen ≤ u32 (t.seq + 1)) t.hosts t.count j _ no_host
            (omega (arith, v.full)) (λ q. omega arith)
            (λ ne. omega (arith, v.stamped j (omega arith)));
    }

pub touch-IsValid :
    (t : HostTable) (idx : Option ℕ) → IsValid t → t.seq + 1 < u32_mod → IsValid (touch t idx)
unfolding touch
touch-IsValid t none v room = v
touch-IsValid t (some i) v room = elim (Bool-cases (leb t.count i)) [
  | inl out ↦ rw out v
  | inr used ↦ rw used (stamp-IsValid t i (host t i) v (ground arith) refl room)
]

pub hello-IsValid :
    (t : HostTable) (idx : Option ℕ) (host_id name app : Option Bytes)
    → IsValid t
    → t.seq + 1 < u32_mod
    → IsValid (hello t idx host_id name app)
unfolding hello
hello-IsValid t none host_id name app v room = v
hello-IsValid t (some i) host_id name app v room = elim (Bool-cases (leb t.count i)) [
  | inl out ↦ rw out v
  | inr used ↦ rw used (
      stamp-IsValid t i (greeted (host t i) host_id name app) v (ground arith)
        (unfold greeted in refl) room)
]

-- A record may take an address that no other record has.
pub rekey-IsValid :
    (t : HostTable) (idx : Option ℕ) (bda : Bytes) → IsValid t → IsValid (rekey t idx bda).0
unfolding rekey
rekey-IsValid t none bda v = v
rekey-IsValid t (some i) bda v = elim (Bool-cases (leb t.count i)) [
  | inl out ↦ rw out v
  | inr used ↦ elim (Bool-cases (owned_by_other (find_bda t bda) i)) [
    | inl taken ↦ rw (used, taken) v
    | inr free ↦ rw (used, free) (rekeyed (ground arith) free)
  ]
]
  where
    new : HostRec
    new = record (host t i) { bda = bda }

    others :
        owned_by_other (find_bda t bda) i ≡ false
        → (j : ℕ) → j < t.count
        → i ≢ j
        → (host t j).bda ≢ bda
    others free j a ne q = elim (Option-cases (find_bda t bda)) [
      | inl e ↦ find_bda-none t bda j e a q
      | inr (k, e) ↦ ne (
          owner k e
          ∙ v.unique k j (find_bda_sound t bda k e).0 a ((find_bda_sound t bda k e).1 ∙ sym q))
    ]
      where
        owner : (k : ℕ) → find_bda t bda ≡ some k → i ≡ k
        owner k e = ground (arith, free)

    rekeyed :
        i < t.count
        → owned_by_other (find_bda t bda) i ≡ false
        → IsValid (record t { hosts = set t.hosts i new })
    rekeyed lt free = record {
      full = length-set t.hosts i new ∙ v.full;
      fits = v.fits;
      unique =
          distinct-set (λ (x : HostRec). x.bda) t.hosts i t.count new no_host
            (omega (arith, v.full, v.fits)) (others free) (λ j k a b nj nk. v.unique j k a b);
      stamped = λ j a.
          set_cases (λ x. x.last_seen ≤ t.seq) t.hosts i j new no_host
            (omega (arith, v.full, v.fits)) (λ q. v.stamped i lt) (λ ne. v.stamped j a);
    }
