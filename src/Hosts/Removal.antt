-- ===== src/Hosts/Removal.antt =====
-- Dropping a host: the slots behind it move down, and a pin moves with the host that it names.
use sticks3_buddy.Prelude.{
  ℕ, ◌-◌, ◌<◌, ◌≡◌, refl, sym, ap, ◌∙◌, inl, inr, Bool, false, Option, none, some, arith, ltb, ◌==◌,
  if◌then◌else◌, Bool-cases, Option-cases, length, before, before-injective, before-ne, before_lt,
  close_gap, length-close_gap, get_or-close_gap,
}
use sticks3_buddy.Hosts.{HostRec, HostTable, no_host, host, find_bda, drop_host, remap_pin}
use sticks3_buddy.Hosts.Keys.{IsValid, find_bda_sound, find_bda_self}

-- The registry after the drop of a slot in use.
abbrev pub dropped : HostTable → ℕ → HostTable
dropped t i = (drop_host t (some i)).0

abbrev drop_at : HostTable → ℕ → HostTable
drop_at t i = record t { hosts = close_gap t.count i t.hosts no_host; count = t.count - 1 }

dropped-eq : (t : HostTable) (i : ℕ) → i < t.count → dropped t i ≡ drop_at t i
unfolding drop_host
dropped-eq t i h = ground arith

pub dropped-count : (t : HostTable) (i : ℕ) → i < t.count → (dropped t i).count ≡ t.count - 1
dropped-count t i h = ap (λ (u : HostTable). u.count) (dropped-eq t i h)

pub host-dropped :
    (t : HostTable) (i j : ℕ)
    → IsValid t
    → i < t.count
    → j < t.count - 1
    → host (dropped t i) j ≡ host t (before i j)
host-dropped t i j v h l =
    ap (λ (u : HostTable). host u j) (dropped-eq t i h)
    ∙ get_or-close_gap t.count i j t.hosts no_host (omega (arith, v.full, v.fits)) h l

dropped-full : (t : HostTable) (i : ℕ) → i < t.count → length (dropped t i).hosts ≡ length t.hosts
dropped-full t i h =
    ap (λ (u : HostTable). length u.hosts) (dropped-eq t i h)
    ∙ length-close_gap t.count i t.hosts no_host

pub dropped-IsValid : (t : HostTable) (i : ℕ) → IsValid t → i < t.count → IsValid (dropped t i)
dropped-IsValid t i v h = record {
  full = dropped-full t i h ∙ v.full;
  fits = omega (arith, dropped-count t i h, v.fits);
  unique = λ j k a b q. before-injective i j k (
      v.unique (before i j) (before i k)
        (before_lt t.count i j (omega (arith, dropped-count t i h)))
        (before_lt t.count i k (omega (arith, dropped-count t i h)))
        (sym (bda j (omega (arith, dropped-count t i h)))
          ∙ q
          ∙ bda k (omega (arith, dropped-count t i h))));
  stamped = λ j a. omega (
    arith,
    ap (λ (x : HostRec). x.last_seen) (host-dropped t i j v h (omega (arith, dropped-count t i h))),
    ap (λ (u : HostTable). u.seq) (dropped-eq t i h),
    v.stamped (before i j) (before_lt t.count i j (omega (arith, dropped-count t i h))),
  );
}
  where
    bda : (j : ℕ) → j < t.count - 1 → (host (dropped t i) j).bda ≡ (host t (before i j)).bda
    bda j l = ap (λ (x : HostRec). x.bda) (host-dropped t i j v h l)

-- The host that a pin names.
abbrev pub pinned_host : HostTable → Option ℕ → Option HostRec
pinned_host t none = none
pinned_host t (some pin) = if ltb pin t.count then some (host t pin) else none

abbrev pub names : Option ℕ → ℕ → Bool
names none i = false
names (some pin) i = pin == i

-- After a drop the remapped pin names the host that it named before, in whatever slot it now is;
-- only a pin on the dropped host is given up.
pub pinned_host-dropped :
    (t : HostTable) (i : ℕ) (pin : Option ℕ)
    → IsValid t
    → i < t.count
    → pinned_host (dropped t i) (remap_pin pin i)
      ≡ (if names pin i then none else pinned_host t pin)
unfolding remap_pin
pinned_host-dropped t i none v h = refl
pinned_host-dropped t i (some pin) v h = elim (Bool-cases (pin == i)) [
  | inl same ↦ rw same refl
  | inr other ↦
      ground (
        arith,
        other,
        dropped-count t i h,
        host-dropped t i (pin - 1) v h,
        host-dropped t i pin v h,
      )
]

-- Every host is found again under its address, at the slot that `remap_pin` gives; the dropped
-- one is not found.
pub find_bda-dropped :
    (t : HostTable) (i j : ℕ)
    → IsValid t
    → i < t.count
    → j < t.count
    → find_bda (dropped t i) (host t j).bda ≡ remap_pin (some j) i
find_bda-dropped t i j v h l = elim (Bool-cases (j == i)) [
  | inl same ↦ unfold remap_pin in rw same (gone (ground arith))
  | inr other ↦ elim (Bool-cases (ltb i j)) [
    | inl behind ↦
        unfold remap_pin in
        rw (other, behind) (kept (j - 1) (ground arith) (ground (arith, behind)))
    | inr ahead ↦
        unfold remap_pin in
        rw (other, ahead) (kept j (ground (arith, other)) (ground (arith, other, ahead)))
  ]
]
  where
    u : HostTable
    u = dropped t i

    kept : (k : ℕ) → k < t.count - 1 → before i k ≡ j → find_bda u (host t j).bda ≡ some k
    kept k lt e =
        ap (λ (x : HostRec). find_bda u x.bda)
          (ap (host t) (sym e) ∙ sym (host-dropped t i k v h lt))
        ∙ find_bda_self u k (dropped-IsValid t i v h) (omega (arith, dropped-count t i h))

    gone : j ≡ i → find_bda u (host t j).bda ≡ none
    gone e = elim (Option-cases (find_bda u (host t j).bda)) [
      | inl q ↦ q
      | inr (k, q) ↦
          let (lt, key) = find_bda_sound u (host t j).bda k q in
          let lt' : k < t.count - 1 = omega (arith, dropped-count t i h) in
          absurd (
            before-ne i k (
              v.unique (before i k) j (before_lt t.count i k lt') l
                (ap (λ (x : HostRec). x.bda) (sym (host-dropped t i k v h lt')) ∙ key)
              ∙ e))
    ]
