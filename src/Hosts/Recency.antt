-- ===== src/Hosts/Recency.antt =====
-- The host to evict is the one that was seen the longest ago.
use sticks3_buddy.Prelude.{
  ℕ, zero, suc, ◌+◌, ◌≤◌, ◌<◌, ◌≡◌, refl, inl, inr, Option, none, some, List, arith, ltb, ◌==◌,
  Bool-cases, get_or,
}
use native.Mathlib.Nat.{add-zero, add-suc, suc-add, zero-add}
use sticks3_buddy.Hosts.{HostRec, HostTable, no_host, host, lru_loop, lru}

abbrev seen : List HostRec → ℕ → ℕ
seen hosts i = (get_or hosts i no_host).last_seen

-- After the first `n` entries `best` is the place of the least stamp, `best_seen`, below 2^32 - 1.
abbrev Least : List HostRec → ℕ → ℕ → Option ℕ → Type 0
Least hosts n best_seen none =
    (best_seen ≡ 0xFFFFFFFF) × ((m : ℕ) → m < n → 0xFFFFFFFF ≤ seen hosts m)
Least hosts n best_seen (some b) =
    (b < n) × (best_seen ≡ seen hosts b) × ((m : ℕ) → m < n → seen hosts b ≤ seen hosts m)

Least-bound :
    (hosts : List HostRec) (n best_seen : ℕ) (best : Option ℕ)
    → Least hosts n best_seen best
    → (m : ℕ) → m < n
    → best_seen ≤ seen hosts m
Least-bound hosts n best_seen none h m l = omega (arith, h.0, h.1 m l)
Least-bound hosts n best_seen (some b) h m l = omega (arith, h.1, h.2 m l)

-- A bound of the first `n` stamps that holds of the next one too.
extend :
    (hosts : List HostRec) (n bound : ℕ)
    → ((m : ℕ) → m < n → bound ≤ seen hosts m)
    → bound ≤ seen hosts n
    → (m : ℕ) → m < suc n
    → bound ≤ seen hosts m
extend hosts n bound below here m l = elim (Bool-cases (m == n)) [
  | inl e ↦ same (ground arith)
  | inr e ↦ below m (ground arith)
]
  where
    same : m ≡ n → bound ≤ seen hosts m
    same q = rw q here

Least-newer :
    (hosts : List HostRec) (n best_seen : ℕ) (best : Option ℕ)
    → Least hosts n best_seen best
    → seen hosts n < best_seen
    → Least hosts (suc n) (seen hosts n) (some n)
Least-newer hosts n best_seen best h lt = (
  omega arith,
  refl,
  extend hosts n (seen hosts n) (λ m l. omega (arith, Least-bound hosts n best_seen best h m l))
      (omega arith),
)

Least-older :
    (hosts : List HostRec) (n best_seen : ℕ) (best : Option ℕ)
    → Least hosts n best_seen best
    → best_seen ≤ seen hosts n
    → Least hosts (suc n) best_seen best
Least-older hosts n best_seen none h le =
    (h.0, λ m l. extend hosts n 0xFFFFFFFF h.1 (omega (arith, h.0)) m l)
Least-older hosts n best_seen (some b) h le =
    (omega (arith, h.0), h.1, λ m l. extend hosts n (seen hosts b) h.2 (omega (arith, h.1)) m l)

lru_loop-Least :
    (k i : ℕ) (hosts : List HostRec) (best_seen : ℕ) (best : Option ℕ)
    → Least hosts i best_seen best
    → (s : ℕ) × Least hosts (i + k) s (lru_loop k i hosts best_seen best)
unfolding lru_loop
lru_loop-Least zero i hosts best_seen best h = (best_seen, rw add-zero h)
lru_loop-Least (suc k) i hosts best_seen best h = elim (Bool-cases (ltb (seen hosts i) best_seen)) [
  | inl newer ↦
      rw (newer, add-suc, ← suc-add)
        (lru_loop-Least k (suc i) hosts (seen hosts i) (some i)
          (Least-newer hosts i best_seen best h (ground arith)))
  | inr older ↦
      rw (older, add-suc, ← suc-add)
        (lru_loop-Least k (suc i) hosts best_seen best
          (Least-older hosts i best_seen best h (ground arith)))
]

-- A registry with a host in it, and no stamp at the end of the counter's range, has a host to
-- evict: one in use whose stamp is the least.
pub lru-least :
    (t : HostTable)
    → 0 < t.count
    → ((m : ℕ) → m < t.count → (host t m).last_seen < 0xFFFFFFFF)
    → (v : ℕ) × (lru t ≡ some v)
      × (v < t.count)
      × ((m : ℕ) → m < t.count → (host t v).last_seen ≤ (host t m).last_seen)
unfolding lru
lru-least t h room = found (lru_loop t.count 0 t.hosts 0xFFFFFFFF none) refl (
    rw zero-add at
      (lru_loop-Least t.count 0 t.hosts 0xFFFFFFFF none (refl, λ m l. absurd (omega arith))))
  where
    found :
        (o : Option ℕ)
        → lru_loop t.count 0 t.hosts 0xFFFFFFFF none ≡ o
        → (s : ℕ) × Least t.hosts t.count s o
        → (v : ℕ) × (lru_loop t.count 0 t.hosts 0xFFFFFFFF none ≡ some v)
          × (v < t.count)
          × ((m : ℕ) → m < t.count → (host t v).last_seen ≤ (host t m).last_seen)
    found none e (s, l) = absurd (omega (arith, l.1 0 h, room 0 h))
    found (some v) e (s, l) = (v, e, l.0, l.2)
