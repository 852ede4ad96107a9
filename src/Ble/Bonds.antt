-- ===== src/Ble/Bonds.antt =====
-- The key of a bond for the current link, and the removal of bonds (bleBondKeyBda,
-- bleRemoveCurrentBond and bleClearBonds of src/ble_bridge.cpp).
use sticks3_buddy.Prelude.{
  ℕ, suc, ◌<◌, ◌≡◌, ap, ◌∙◌, inl, inr, Bool, true, false, not, ◌&&◌, ◌||◌, Option, none, some, List,
  [], ◌∷◌, ◌++◌, arith, ◌==◌, if◌then◌else◌, if_false, Bool-cases, is_some, length, get_or, Bytes,
  bytes_eq,
}
use sticks3_buddy.Ble.Link.{Bridge, Bond, BondStore, remove_bond, ask, read_bonds, any_bond}

abbrev pub no_bond : Bond
no_bond = record { addr = []; identity = none }

abbrev pub listed : Option Bytes → List Bytes
listed none = []
listed (some a) = a ∷ []

-- The candidate addresses, the identity first.
abbrev pub candidates : Bridge → List Bytes
candidates b = listed b.pid ++ (listed b.auth ++ listed b.peer)

-- An entry of the store under its key or under its identity.
abbrev pub is_entry_of : Bond → Bytes → Bool
is_entry_of d c = bytes_eq d.addr c || elim d.identity [ none ↦ false | some i ↦ bytes_eq i c ]

unfoldable pub any_candidate : (Bytes → Bool) → List Bytes → Bool
any_candidate test [] = false
any_candidate test (c ∷ cs) = test c || any_candidate test cs

-- The first entry that one of the candidates names.
unfoldable pub first_entry : List Bond → List Bytes → Option Bytes
unfolding any_candidate
first_entry [] cands = none
first_entry (d ∷ ds) cands =
    let rest = first_entry ds cands in
    if any_candidate (is_entry_of d) cands then some d.addr else rest

abbrev pub entry_of : Option (List Bond) → List Bytes → Option Bytes
entry_of none cands = none
entry_of (some bonds) cands = first_entry bonds cands

unfoldable pub entry_in : BondStore → List Bytes → Option Bytes
unfolding first_entry
entry_in store cands = if store.num == 0 then none else entry_of (read_bonds store) cands

-- The best candidate where no entry matches.
abbrev pub key_or : Option Bytes → List Bytes → Option Bytes
key_or none cands = some (get_or cands 0 [])
key_or (some key) cands = some key

-- `none` where nothing has authenticated on the link.
unfoldable pub bond_key : BondStore → Bridge → Option Bytes
bond_key store b =
    if not (is_some b.auth) && not (is_some b.pid)
    then none
    else key_or (entry_in store (candidates b)) (candidates b)

unfoldable pub remove_current_bond : BondStore → Bridge → Bridge
unfolding bond_key entry_in
remove_current_bond store b = elim (bond_key store b) [
  | none ↦ elim b.peer [ none ↦ b | some a ↦ ask (remove_bond a) b ]
  | some key ↦ ask (remove_bond key) b
]

-- The list is read whole here, into a buffer of its size; `bonds` is what the call for it gives.
unfoldable pub clear_bonds : List Bond → Bridge → Bridge
clear_bonds [] b = b
clear_bonds (d ∷ ds) b = clear_bonds ds (ask (remove_bond d.addr) b)

first_entry_sound :
    (ds : List Bond) (cands : List Bytes)
    → any_bond (λ d. any_candidate (is_entry_of d) cands) ds ≡ true
    → (i : ℕ) × (i < length ds)
      × (first_entry ds cands ≡ some (get_or ds i no_bond).addr)
      × (any_candidate (is_entry_of (get_or ds i no_bond)) cands ≡ true)
unfolding any_bond first_entry
first_entry_sound [] cands h = cc h
first_entry_sound (d ∷ ds) cands h = elim (Bool-cases (any_candidate (is_entry_of d) cands)) [
  | inl here ↦ (0, omega arith, rw here, here)
  | inr later ↦
      let (i, l, e, m) = first_entry_sound ds cands (rw later at h) in
      (suc i, omega arith, rw later e, m)
]

-- Where some entry of the bond store is under one of the link's addresses, by its key or by its
-- identity, the key that is resolved for the link is the key of such an entry: the one that the
-- store removes it by.
pub bond_key-entry :
    (store : BondStore) (b : Bridge) (bonds : List Bond)
    → is_some b.auth || is_some b.pid ≡ true
    → 0 < store.num
    → read_bonds store ≡ some bonds
    → any_bond (λ d. any_candidate (is_entry_of d) (candidates b)) bonds ≡ true
    → (i : ℕ) × (i < length bonds)
      × (bond_key store b ≡ some (get_or bonds i no_bond).addr)
      × (any_candidate (is_entry_of (get_or bonds i no_bond)) (candidates b) ≡ true)
unfolding entry_in
bond_key-entry store b bonds a n r m =
    let (i, l, e, k) = first_entry_sound bonds (candidates b) m in
    (i, l, resolved (get_or bonds i no_bond).addr e, k)
  where
    resolved :
        (key : Bytes) → first_entry bonds (candidates b) ≡ some key → bond_key store b ≡ some key
    resolved key e =
        unfold bond_key in
        if_false (not (is_some b.auth) && not (is_some b.pid)) none
          (key_or (entry_in store (candidates b)) (candidates b)) (ground (arith, a))
        ∙ ap (λ o. key_or o (candidates b))
            (if_false (store.num == 0) none (entry_of (read_bonds store) (candidates b))
                (ground (arith, n))
              ∙ ap (λ o. entry_of o (candidates b)) r
              ∙ e)
