-- ===== src/Hosts/Hello.antt =====
-- A hello reaches the record of the link it came in on, and no other.
use sticks3_buddy.Prelude.{
  ℕ, ◌+◌, ◌<◌, ◌≡◌, refl, sym, ap, subst, ◌∙◌, ◌≢◌, inl, inr, true, Option, none, some, [], ◌∷◌,
  ◌++◌, arith, leb, Bool-cases, Option-cases, get_or, set, u32, u32_mod, Bytes, codes,
  get_or-set_self, get_or-set_ne,
}
use sticks3_buddy.Text.Utf8.{sanitize}
use sticks3_buddy.Hosts.{
  HostRec, HostTable, max_hosts, no_host, host, find_bda, adopt, greeted, given, digit, flag_used,
  hello, route, hello_route,
}
use sticks3_buddy.Hosts.Keys.{IsValid, find_bda_sound, find_bda_self, adopt-IsValid, hello-IsValid}

hello-others :
    (t : HostTable) (i j : ℕ) (host_id name app : Option Bytes)
    → i ≢ j
    → host (hello t (some i) host_id name app) j ≡ host t j
unfolding hello
hello-others t i j host_id name app ne = elim (Bool-cases (leb t.count i)) [
  | inl out ↦ rw out
  | inr used ↦ rw used (get_or-set_ne t.hosts i j _ no_host ne)
]

hello_self :
    (t : HostTable) (i : ℕ) (host_id name app : Option Bytes)
    → IsValid t
    → i < t.count
    → host (hello t (some i) host_id name app) i
      ≡ record (greeted (host t i) host_id name app) { last_seen = u32 (t.seq + 1) }
unfolding hello
hello_self t i host_id name app v h = elim (Bool-cases (leb t.count i)) [
  | inl out ↦ absurd (ground arith)
  | inr used ↦ rw used (get_or-set_self t.hosts i _ no_host (omega (arith, v.full, v.fits)))
]

hello-count :
    (t : HostTable) (idx : Option ℕ) (host_id name app : Option Bytes)
    → (hello t idx host_id name app).count ≡ t.count
unfolding hello
hello-count t none host_id name app = refl
hello-count t (some i) host_id name app = ground arith

pub adopt-others :
    (t : HostTable) (bda : Bytes) (j : ℕ) → t.count ≢ j → host (adopt t bda).0 j ≡ host t j
unfolding adopt
adopt-others t bda j ne = elim (Bool-cases (leb max_hosts t.count)) [
  | inl full ↦ rw full
  | inr slot ↦ rw slot (get_or-set_ne t.hosts t.count j _ no_host ne)
]

-- The slot that `adopt` gives out is the first free one, and holds the new address.
pub adopt_slot :
    (t : HostTable) (bda : Bytes) (i : ℕ)
    → IsValid t
    → (adopt t bda).1 ≡ some i
    → (i ≡ t.count) × ((adopt t bda).0.count ≡ t.count + 1) × ((host (adopt t bda).0 i).bda ≡ bda)
unfolding adopt
adopt_slot t bda i v h = elim (Bool-cases (leb max_hosts t.count)) [
  | inl full ↦ absurd (nothing (rw full at h))
  | inr slot ↦
      let e : t.count ≡ i = ground (arith, slot) in
      rw slot (
        sym e,
        refl,
        subst (λ k. (get_or (set t.hosts t.count new) k no_host).bda ≡ bda) e
            (ap (λ (x : HostRec). x.bda)
              (get_or-set_self t.hosts t.count new no_host (ground (arith, v.full)))),
      )
]
  where
    nothing : ◌≡◌ {A = Option ℕ} none (some i) → ⊥
    nothing e = cc

    new : HostRec
    new = record {
      bda = bda;
      name = codes "Host-" ++ digit (t.count + 1) ∷ [];
      app = [];
      host_id = [];
      last_seen = u32 (t.seq + 1);
      flags = flag_used;
    }

pub adopt-seq :
    (t : HostTable) (bda : Bytes) → t.seq + 2 < u32_mod → (adopt t bda).0.seq + 1 < u32_mod
unfolding adopt
adopt-seq t bda room = ground arith

-- The registry and the slot that `route` hands to the hello.
route_slot :
    (t : HostTable) (bda : Bytes) (o : Option ℕ) (i : ℕ)
    → IsValid t
    → find_bda t bda ≡ o
    → t.seq + 2 < u32_mod
    → (route t bda o).1 ≡ some i
    → IsValid (route t bda o).0
      × (i < (route t bda o).0.count)
      × ((host (route t bda o).0 i).bda ≡ bda)
      × ((route t bda o).0.seq + 1 < u32_mod)
unfolding route
route_slot t bda none i v e room h =
    let (at, more, key) = adopt_slot t bda i v h in
    (adopt-IsValid t bda v e (omega arith), omega (arith, at, more), key, adopt-seq t bda room)
route_slot t bda (some k) i v e room h =
    let same : k ≡ i = cc in
    let found : find_bda t bda ≡ some i = e ∙ ap some same in
    (v, (find_bda_sound t bda i found).0, (find_bda_sound t bda i found).1, omega arith)

-- What the hello leaves behind in the slot that it was given.
abbrev Greeted : HostTable → Bytes → Option Bytes → ℕ → Type 0
Greeted u bda name i =
    IsValid u
    × (find_bda u bda ≡ some i)
    × ((host u i).name ≡ sanitize 24 name)
    × ((host u i).last_seen ≡ u.seq)

hello-Greeted :
    (t : HostTable) (bda : Bytes) (host_id name app : Option Bytes) (idx : Option ℕ) (i : ℕ)
    → idx ≡ some i
    → given name ≡ true
    → IsValid t × (i < t.count) × ((host t i).bda ≡ bda) × (t.seq + 1 < u32_mod)
    → Greeted (hello t idx host_id name app) bda name i
hello-Greeted t bda host_id name app idx i e named (v, h, key, room) = rw e (
  valid,
  owner,
  ap (λ (x : HostRec). x.name) self ∙ unfold greeted in rw named,
  ap (λ (x : HostRec). x.last_seen) self ∙ unfold hello in ground arith,
)
  where
    valid : IsValid (hello t (some i) host_id name app)
    valid = hello-IsValid t (some i) host_id name app v room

    self :
        host (hello t (some i) host_id name app) i
        ≡ record (greeted (host t i) host_id name app) { last_seen = u32 (t.seq + 1) }
    self = hello_self t i host_id name app v h

    key_kept : (greeted (host t i) host_id name app).bda ≡ bda
    key_kept = unfold greeted in key

    owner : find_bda (hello t (some i) host_id name app) bda ≡ some i
    owner =
        ap (find_bda (hello t (some i) host_id name app))
          (sym (ap (λ (x : HostRec). x.bda) self ∙ key_kept))
        ∙ find_bda_self (hello t (some i) host_id name app) i valid
            (omega (arith, hello-count t (some i) host_id name app))

-- The record that owns the address takes the hello, under its own key, also where it had to be
-- adopted first: it gets the sanitized name and the newest stamp, and the registry stays valid.
pub hello_route-owner :
    (t : HostTable) (bda : Bytes) (host_id name app : Option Bytes) (i : ℕ)
    → IsValid t
    → t.seq + 2 < u32_mod
    → given name ≡ true
    → (hello_route t bda host_id name app).1 ≡ some i
    → let u = (hello_route t bda host_id name app).0 in
      IsValid u
      × (find_bda u bda ≡ some i)
      × ((host u i).name ≡ sanitize 24 name)
      × ((host u i).last_seen ≡ u.seq)
unfolding hello_route
hello_route-owner t bda host_id name app i v room named h =
    hello-Greeted _ bda host_id name app _ i h named
      (route_slot t bda (find_bda t bda) i v refl room h)

-- Every other record stays as it is, whatever slot the link had before.
pub hello_route-others :
    (t : HostTable) (bda : Bytes) (host_id name app : Option Bytes) (j : ℕ)
    → IsValid t
    → j < t.count
    → (host t j).bda ≢ bda
    → host (hello_route t bda host_id name app).0 j ≡ host t j
unfolding hello_route
hello_route-others t bda host_id name app j v h ne = by_find (find_bda t bda) refl
  where
    by_find :
        (o : Option ℕ)
        → find_bda t bda ≡ o
        → host (hello (route t bda o).0 (route t bda o).1 host_id name app) j ≡ host t j
    by_find none e = elim (Option-cases (adopt t bda).1) [
      | inl q ↦ unfold route hello in rw q (adopt-others t bda j (omega arith))
      | inr (k, q) ↦
          unfold route in
          rw q (
            hello-others (adopt t bda).0 k j host_id name app
              (omega (arith, adopt_slot t bda k v q))
            ∙ adopt-others t bda j (omega arith))
    ]
    by_find (some i) e =
        unfold route in
        hello-others t i j host_id name app
          (λ q. ne (ap (λ (k : ℕ). (host t k).bda) (sym q) ∙ (find_bda_sound t bda i e).1))
