-- ===== src/HostLink/Sound.antt =====
-- The registry after the reconcile, and the bonds that it was read against.
use sticks3_buddy.Prelude.{
  ℕ, zero, suc, ◌+◌, ◌-◌, ◌≤◌, ◌<◌, ◌≡◌, refl, sym, ap, ◌∙◌, ◌≢◌, ◌⊎◌, inl, inr, Bool, true, false,
  ◌||◌, none, some, List, [], ◌∷◌, arith, leb, ◌==◌, if_intro, Bool-cases, Option-cases, length,
  All, u32_mod, Bytes, bytes_eq, bytes_eq_refl, before, before-ne, before_lt,
}
use sticks3_buddy.Hosts.{HostRec, HostTable, max_hosts, host, find_bda, adopt, drop_host}
use sticks3_buddy.Hosts.Keys.{IsValid, adopt-IsValid, find_bda_sound, find_bda-none}
use sticks3_buddy.Hosts.Hello.{adopt-others, adopt_slot}
use sticks3_buddy.Hosts.Recency.{lru-least}
use sticks3_buddy.Hosts.Removal.{dropped, dropped-IsValid, host-dropped, dropped-count}
use sticks3_buddy.HostLink.{Action, Glue, evict, drop_slot}
use sticks3_buddy.HostLink.Bonds.{new-bond}
use sticks3_buddy.HostLink.Store.{save_glue}
use sticks3_buddy.HostLink.Reconcile.{bonded, drop_stale, adopt_bond, adopt_unknown, reconcile}

-- The records from slot i on have a bond.
abbrev BondedFrom : ℕ → List Bytes → HostTable → Type 0
BondedFrom i bonds t = (j : ℕ) → i ≤ j → j < t.count → bonded bonds (host t j).bda ≡ true

dropped-seq : (t : HostTable) (i : ℕ) → (dropped t i).seq ≡ t.seq
unfolding drop_host
dropped-seq t i = ground arith

BondedFrom-dropped :
    (i k : ℕ) (bonds : List Bytes) (t : HostTable)
    → IsValid t
    → k < t.count
    → (i ≤ k)
    → ((j : ℕ) → i ≤ j → j < t.count → k ≢ j → bonded bonds (host t j).bda ≡ true)
    → BondedFrom i bonds (dropped t k)
BondedFrom-dropped i k bonds t v h le b j l r =
    ap (λ (x : HostRec). bonded bonds x.bda)
      (host-dropped t k j v h (omega (arith, dropped-count t k h)))
    ∙ b (before k j) (ground arith) (before_lt t.count k j (omega (arith, dropped-count t k h)))
        (λ e. before-ne k j (sym e))

drop_stale-Bonded :
    (i : ℕ) (bonds : List Bytes) (g : Glue) (dirty : Bool)
    → IsValid g.table
    → i ≤ g.table.count
    → BondedFrom i bonds g.table
    → IsValid (drop_stale i bonds g dirty).0.table
      × BondedFrom 0 bonds (drop_stale i bonds g dirty).0.table
      × ((drop_stale i bonds g dirty).0.table.seq ≡ g.table.seq)
      × ((drop_stale i bonds g dirty).0.done ≡ g.done)
unfolding drop_stale drop_slot
drop_stale-Bonded zero bonds g dirty v h b = (v, b, refl, refl)
drop_stale-Bonded (suc i) bonds g dirty v h b =
    elim (Bool-cases (bonded bonds (host g.table i).bda)) [
      | inl kept ↦ rw kept (drop_stale-Bonded i bonds g dirty v (omega arith) (with_slot kept))
      | inr stale ↦
          let (valid, all, seq, same) =
            drop_stale-Bonded i bonds (drop_slot i g) true (dropped-IsValid g.table i v h)
              (omega (arith, dropped-count g.table i h))
              (BondedFrom-dropped i i bonds g.table v h (omega arith)
                (λ j l r ne. b j (omega arith) r)) in
          rw stale (valid, all, seq ∙ dropped-seq g.table i, same)
    ]
  where
    with_slot : bonded bonds (host g.table i).bda ≡ true → BondedFrom i bonds g.table
    with_slot kept j l r = elim (Bool-cases (i == j)) [
      | inl e ↦ ap (λ (k : ℕ). bonded bonds (host g.table k).bda) {y = i} (ground arith) ∙ kept
      | inr ne ↦ b j (ground arith) r
    ]

adopt-Bonded :
    (bonds : List Bytes) (t : HostTable) (b : Bytes)
    → IsValid t
    → find_bda t b ≡ none
    → t.seq + 1 < u32_mod
    → BondedFrom 0 bonds t
    → bonded bonds b ≡ true
    → IsValid (adopt t b).0 × BondedFrom 0 bonds (adopt t b).0 × ((adopt t b).0.seq ≤ t.seq + 1)
adopt-Bonded bonds t b v fresh room all own =
    (adopt-IsValid t b v fresh room, each, unfold adopt in ground arith)
  where
    each : BondedFrom 0 bonds (adopt t b).0
    each j l r = elim (Bool-cases (leb max_hosts t.count)) [
      | inl full ↦
          ap (λ (x : HostRec). bonded bonds x.bda)
            (adopt-others t b j (omega (arith, same_count full)))
          ∙ all j l (omega (arith, same_count full))
      | inr slot ↦ elim (Bool-cases (t.count == j)) [
        | inl e ↦
            ap (λ (k : ℕ). bonded bonds (host (adopt t b).0 k).bda) {y = t.count} (ground arith)
            ∙ ap (bonded bonds) (adopt_slot t b t.count v (given_slot slot)).2
            ∙ own
        | inr ne ↦
            ap (λ (x : HostRec). bonded bonds x.bda) (adopt-others t b j (ground arith))
            ∙ all j l (ground (arith, adopt_slot t b t.count v (given_slot slot)))
      ]
    ]
      where
        same_count : leb max_hosts t.count ≡ true → (adopt t b).0.count ≡ t.count
        same_count full = unfold adopt in rw full refl

        given_slot : leb max_hosts t.count ≡ false → (adopt t b).1 ≡ some t.count
        given_slot slot = unfold adopt in rw slot refl

find_bda-dropped-none :
    (t : HostTable) (w : ℕ) (b : Bytes)
    → IsValid t
    → w < t.count
    → find_bda t b ≡ none
    → find_bda (dropped t w) b ≡ none
find_bda-dropped-none t w b v h fresh = elim (Option-cases (find_bda (dropped t w) b)) [
  | inl none_there ↦ none_there
  | inr (k, q) ↦
      let (lt, key) = find_bda_sound (dropped t w) b k q in
      let lt' : k < t.count - 1 = omega (arith, dropped-count t w h) in
      absurd (
        find_bda-none t b (before w k) fresh (before_lt t.count w k lt')
          (ap (λ (x : HostRec). x.bda) (sym (host-dropped t w k v h lt')) ∙ key))
]

-- What one pass over the bonds that are left keeps.
abbrev Sound : List Bytes → Glue → Type 0
Sound bonds g = IsValid g.table × BondedFrom 0 bonds g.table

-- No bond has been removed, or there were more bonds than places.
abbrev Kept : List Bytes → List Action → Glue → Type 0
Kept bonds done g = (g.done ≡ done) ⊎ (max_hosts < length bonds)

adopt_unknown-Sound :
    (bonds bs : List Bytes) (g : Glue) (dirty : Bool)
    → Sound bonds g
    → All (λ b. bonded bonds b ≡ true) bs
    → g.table.seq + length bs + 1 < u32_mod
    → Sound bonds (adopt_unknown bs g dirty).0 × Kept bonds g.done (adopt_unknown bs g dirty).0
unfolding adopt_unknown adopt_bond
adopt_unknown-Sound bonds [] g dirty s own room = (s, inl refl)
adopt_unknown-Sound bonds (b ∷ bs) g dirty s own room = elim (Option-cases (find_bda g.table b)) [
  | inr (k, known) ↦ rw known (adopt_unknown-Sound bonds bs g dirty s own.1 (omega arith))
  | inl fresh ↦ elim (Bool-cases (leb max_hosts g.table.count)) [
    | inr slot ↦
        let (v, all, seq) = adopt-Bonded bonds g.table b s.0 fresh (omega arith) s.1 own.0 in
        rw (fresh, slot)
          (adopt_unknown-Sound bonds bs (adopt_bond b g) true (unfold adopt_bond in (v, all)) own.1
            (unfold adopt_bond in omega (arith, seq)))
    | inl full ↦
        let (w, e, lt, _) = lru-least g.table (ground (arith, full)) newest in
        let (v, all, seq) =
          adopt-Bonded bonds (dropped g.table w) b (dropped-IsValid g.table w s.0 lt)
            (find_bda-dropped-none g.table w b s.0 lt fresh) (omega (arith, dropped-seq g.table w))
            (BondedFrom-dropped 0 w bonds g.table s.0 lt (omega arith) (λ j l r ne. s.1 j l r))
            own.0 in
        rw (fresh, full, e)
          (
            (adopt_unknown-Sound bonds bs (adopt_bond b (evict w g)) true
                (unfold adopt_bond evict in (v, all)) own.1
                (unfold adopt_bond evict in omega (arith, seq, dropped-seq g.table w))).0,
            inr (crowded fresh full),
          )
  ]
]
  where
    newest : (m : ℕ) → m < g.table.count → (host g.table m).last_seen < 0xFFFFFFFF
    newest m l = omega (arith, s.0.stamped m l)

    crowded :
        find_bda g.table b ≡ none → leb max_hosts g.table.count ≡ true → max_hosts < length bonds
    crowded fresh full =
        let more = new-bond bonds g.table b s.0 (λ j l. s.1 j (omega arith) l) fresh own.0 in
        ground (arith, full, more)

bonded_among :
    (bs cs : List Bytes)
    → ((b : Bytes) → bonded cs b ≡ true → bonded bs b ≡ true)
    → All (λ b. bonded bs b ≡ true) cs
unfolding bonded
bonded_among bs [] sub = tt
bonded_among bs (c ∷ cs) sub = (
  sub c (ap (λ (x : Bool). x || bonded cs c) (bytes_eq_refl c)),
  bonded_among bs cs (λ b h. sub b (more c b cs h)),
)
  where
    more :
        (c' b : Bytes) (cs' : List Bytes)
        → bonded cs' b ≡ true
        → (bytes_eq b c' || bonded cs' b) ≡ true
    more c' b cs' h = elim (Bool-cases (bytes_eq b c')) [ inl e ↦ rw e refl | inr e ↦ rw e h ]

-- After the reconcile of a valid registry, whose counter is not near its end, the addresses of the
-- records are distinct and each stands in the list of bonds that was read at its start; and unless
-- that list has more than seven bonds, the reconcile removes no bond, so each record has one.
pub reconcile-Bonded :
    (bonds : List Bytes) (g : Glue)
    → IsValid g.table
    → g.table.seq + length bonds + 1 < u32_mod
    → let u = reconcile (some bonds) g in
      IsValid u.table
      × ((j : ℕ) → j < u.table.count → bonded bonds (host u.table j).bda ≡ true)
      × ((u.done ≡ g.done) ⊎ (7 < length bonds))
unfolding reconcile
reconcile-Bonded bonds g v room =
    let (a, b, seq, same) =
      drop_stale-Bonded g.table.count bonds g false v (omega arith)
        (λ i l r. absurd (omega arith)) in
    let (s, k) : Sound bonds (reconcile (some bonds) g)
        × Kept bonds after.0.done (reconcile (some bonds) g) =
      if_intro (λ u. Sound bonds u × Kept bonds after.0.done u) dirty2
        (unfold save_glue in swept (a, b) seq) (swept (a, b) seq) in
    (s.0, λ j l. s.1 j (omega arith) l, elim k [ inl e ↦ inl (e ∙ same) | inr crowd ↦ inr crowd ])
  where
    after : Glue × Bool
    after = drop_stale g.table.count bonds g false

    dirty2 : Bool
    dirty2 = (adopt_unknown bonds after.0 after.1).1

    swept :
        Sound bonds after.0
        → after.0.table.seq ≡ g.table.seq
        → Sound bonds (adopt_unknown bonds after.0 after.1).0
          × Kept bonds after.0.done (adopt_unknown bonds after.0 after.1).0
    swept s seq =
        adopt_unknown-Sound bonds bonds after.0 after.1 s (bonded_among bonds bonds (λ c e. e))
          (omega (arith, seq))
