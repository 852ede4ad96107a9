-- ===== src/Wifi/Networks/Removal.antt =====
-- Removing a network, and clearing the list.
use sticks3_buddy.Prelude.{
  ℕ, ◌-◌, ◌<◌, ◌≡◌, refl, sym, ap, subst, ◌∙◌, ◌≢◌, inl, inr, true, false, Option, none, some,
  arith, ltb, if◌then◌else◌, Bool-cases, Option-cases, is_some, Bytes, bytes_eq, bytes_eq→eq,
  bytes_eq-of_eq, length-fill_loop, fill_loop_inside, before, before-injective, before-ne,
  before_lt, close_gap, length-close_gap, get_or-close_gap,
}
use sticks3_buddy.Wifi.Networks.{
  WifiCred, WifiList, counted, list_err, no_cred, find, fits, remove_at, remove, clear,
}
use sticks3_buddy.Wifi.Networks.Keys.{
  cred, IsValid, pass_at, password, find_sound, find-none, password_of, password-none,
}

abbrev without : WifiList → ℕ → WifiList
without l i = record l { creds = close_gap l.n i l.creds no_cred; n = l.n - 1 }

cred-without :
    (l : WifiList) (i j : ℕ)
    → IsValid l
    → i < l.n
    → j < l.n - 1
    → cred (without l i) j ≡ cred l (before i j)
cred-without l i j v h a =
    get_or-close_gap l.n i j l.creds no_cred (omega (arith, v.full, v.bounded)) h a

without-IsValid : (l : WifiList) (i : ℕ) → IsValid l → i < l.n → IsValid (without l i)
without-IsValid l i v h = record {
  full = length-close_gap l.n i l.creds no_cred ∙ v.full;
  bounded = omega (arith, v.bounded);
  unique = λ j k a b q. before-injective i j k (
      v.unique (before i j) (before i k) (before_lt l.n i j a) (before_lt l.n i k b)
        (sym (name j a) ∙ q ∙ name k b));
  sized = λ j a.
      subst (λ (x : WifiCred). fits x.ssid x.pass ≡ true) (sym (cred-without l i j v h a))
        (v.sized (before i j) (before_lt l.n i j a));
}
  where
    name : (j : ℕ) → j < l.n - 1 → (cred (without l i) j).ssid ≡ (cred l (before i j)).ssid
    name j a = ap (λ (x : WifiCred). x.ssid) (cred-without l i j v h a)

password-without :
    (l : WifiList) (i : ℕ) (ssid : Bytes)
    → IsValid l
    → i < l.n
    → password (without l i) ssid
      ≡ (if bytes_eq (cred l i).ssid ssid then none else password l ssid)
password-without l i ssid v h = elim (Bool-cases (bytes_eq (cred l i).ssid ssid)) [
  | inl same ↦ rw same (password-none u ssid (gone same))
  | inr differ ↦ rw differ (elim (Option-cases (find l (some ssid))) [
    | inl e ↦ password-none u ssid (absent e) ∙ sym (ap (pass_at l) e)
    | inr (k, e) ↦ moved k e differ ∙ sym (ap (pass_at l) e)
  ])
]
  where
    u : WifiList
    u = without l i

    name : (j : ℕ) → j < u.n → (cred u j).ssid ≡ (cred l (before i j)).ssid
    name j a = ap (λ (x : WifiCred). x.ssid) (cred-without l i j v h a)

    gone : bytes_eq (cred l i).ssid ssid ≡ true → (j : ℕ) → j < u.n → (cred u j).ssid ≢ ssid
    gone same j a q = before-ne i j (
        v.unique (before i j) i (before_lt l.n i j a) h
          (sym (name j a) ∙ q ∙ sym (bytes_eq→eq _ _ same)))

    absent : find l (some ssid) ≡ none → (j : ℕ) → j < u.n → (cred u j).ssid ≢ ssid
    absent e j a q = find-none l ssid (before i j) e (before_lt l.n i j a) (sym (name j a) ∙ q)

    -- The place after the removal of the network at place `k`.
    at :
        (k j : ℕ)
        → find l (some ssid) ≡ some k
        → j < u.n
        → before i j ≡ k
        → password u ssid ≡ some (cred l k).pass
    at k j e a b =
        let there : cred u j ≡ cred l k = cred-without l i j v h a ∙ ap (cred l) b in
        password_of u ssid j (without-IsValid l i v h) a
          (ap (λ (x : WifiCred). x.ssid) there ∙ (find_sound l ssid k e).1)
        ∙ ap (λ (x : WifiCred). some x.pass) there

    moved :
        (k : ℕ)
        → find l (some ssid) ≡ some k
        → bytes_eq (cred l i).ssid ssid ≡ false
        → password u ssid ≡ some (cred l k).pass
    moved k e differ = elim (Bool-cases (ltb i k)) [
      | inl behind ↦ at k (k - 1) e (ground (arith, find_sound l ssid k e)) (ground (arith, behind))
      | inr ahead ↦ at k k e (ground (arith, find_sound l ssid k e, ne)) (ground (arith, ahead, ne))
    ]
      where
        ne : k ≢ i
        ne q = cc (
          differ,
          bytes_eq-of_eq (cred l i).ssid ssid
              (ap (λ (m : ℕ). (cred l m).ssid) (sym q) ∙ (find_sound l ssid k e).1),
        )

-- Removing a name keeps the list valid, takes away that name's entry and no other's, and one
-- place; a name that is not stored is an error that changes nothing.
pub password-remove :
    (l : WifiList) (ssid j : Bytes)
    → IsValid l
    → let (u, o) = remove l (some ssid) in
      IsValid u
      × (password u j ≡ (if bytes_eq ssid j then none else password l j))
      × (o ≡ (if is_some (find l (some ssid)) then counted (l.n - 1) else list_err))
unfolding remove remove_at
password-remove l ssid j v = by_find (find l (some ssid)) refl
  where
    by_find :
        (o : Option ℕ)
        → find l (some ssid) ≡ o
        → IsValid (remove_at l o).0
          × (password (remove_at l o).0 j ≡ (if bytes_eq ssid j then none else password l j))
          × ((remove_at l o).1 ≡ (if is_some o then counted (l.n - 1) else list_err))
    by_find none e = (
      v,
      elim (Bool-cases (bytes_eq ssid j)) [
        | inl same ↦ rw same (ap (password l) (sym (bytes_eq→eq _ _ same)) ∙ ap (pass_at l) e)
        | inr differ ↦ rw differ refl
      ],
      refl,
    )
    by_find (some i) e =
        let (h, named) = find_sound l ssid i e in
        (
          without-IsValid l i v h,
          password-without l i j v h
              ∙ ap (λ (s : Bytes). if bytes_eq s j then none else password l j) named,
          refl,
        )

-- Clearing leaves no network, and no byte of one in the places that were in use.
pub clear_scrubs :
    (l : WifiList) (i : ℕ)
    → IsValid l
    → i < l.n
    → IsValid (clear l) × ((clear l).n ≡ 0) × (cred (clear l) i ≡ no_cred)
unfolding clear
clear_scrubs l i v h = (
  record {
    full = length-fill_loop l.n 0 l.creds no_cred ∙ v.full;
    bounded = omega arith;
    unique = λ j k a b q. absurd (omega arith);
    sized = λ j a. absurd (omega arith);
  },
  refl,
  fill_loop_inside l.n 0 l.creds no_cred no_cred i (omega arith) (omega arith)
      (omega (arith, v.full, v.bounded)),
)
