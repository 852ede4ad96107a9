-- ===== src/Wifi/Networks/Upsert.antt =====
-- Storing a network: an update in place or at the tail, and never at the cost of another.
use sticks3_buddy.Prelude.{
  ℕ, ◌+◌, ◌≤◌, ◌<◌, ◌≡◌, refl, sym, ap, ◌∙◌, ◌≢◌, inl, inr, Bool, true, false, ◌&&◌, ◌||◌, Option,
  none, some, [], arith, ltb, leb, if◌then◌else◌, Bool-cases, Option-cases, is_some, or_else,
  length, set, length-set, Bytes, bytes_eq, bytes_eq→eq, bytes_eq-of_eq, get_or-set_self,
  get_or-set_ne, set_cases, distinct-set,
}
use sticks3_buddy.Wifi.Networks.{
  WifiCred, WifiList, Outcome, counted, list_full, list_err, no_cred, find, fits, store_at, upsert,
}
use sticks3_buddy.Wifi.Networks.Keys.{
  cred, IsValid, pass_at, password, find_sound, find-none, password_of, password-none,
}

abbrev put : WifiList → ℕ → ℕ → WifiCred → WifiList
put l p n c = record l { creds = set l.creds p c; n = n }

-- A place for a name: in use by it, or the next free one; every other place below `n` is in use,
-- by another name.
record IsPlace (l : WifiList) (p n : ℕ) (ssid : Bytes) : Type 0 where
  inside : p < n
  bounded : n ≤ l.cap
  grows : l.n ≤ n
  used : (j : ℕ) → j < n → p ≢ j → j < l.n
  own : p < l.n → (cred l p).ssid ≡ ssid
  other : (j : ℕ) → j < n → p ≢ j → (cred l j).ssid ≢ ssid

put-IsValid :
    (l : WifiList) (p n : ℕ) (c : WifiCred)
    → IsValid l
    → IsPlace l p n c.ssid
    → fits c.ssid c.pass ≡ true
    → IsValid (put l p n c)
put-IsValid l p n c v h f = record {
  full = length-set l.creds p c ∙ v.full;
  bounded = h.bounded;
  unique =
      distinct-set (λ (x : WifiCred). x.ssid) l.creds p n c no_cred
        (omega (arith, v.full, h.inside, h.bounded)) h.other
        (λ j k a b nj nk. v.unique j k (h.used j a nj) (h.used k b nk));
  sized = λ j a.
      set_cases (λ x. fits x.ssid x.pass ≡ true) l.creds p j c no_cred
        (omega (arith, v.full, h.inside, h.bounded)) (λ q. f) (λ ne. v.sized j (h.used j a ne));
}

password-put :
    (l : WifiList) (p n : ℕ) (c : WifiCred) (ssid : Bytes)
    → IsValid l
    → IsPlace l p n c.ssid
    → fits c.ssid c.pass ≡ true
    → password (put l p n c) ssid ≡ (if bytes_eq c.ssid ssid then some c.pass else password l ssid)
password-put l p n c ssid v h f = elim (Bool-cases (bytes_eq c.ssid ssid)) [
  | inl same ↦ rw same (
      password_of u ssid p valid h.inside
        (ap (λ (x : WifiCred). x.ssid) self ∙ bytes_eq→eq _ _ same)
      ∙ ap (λ (x : WifiCred). some x.pass) self)
  | inr differ ↦ rw differ (elim (Option-cases (find l (some ssid))) [
    | inl e ↦ password-none u ssid (absent e differ) ∙ sym (ap (pass_at l) e)
    | inr (i, e) ↦ kept i e differ ∙ sym (ap (pass_at l) e)
  ])
]
  where
    u : WifiList
    u = put l p n c

    in_array : p < length l.creds
    in_array = omega (arith, v.full, h.inside, h.bounded)

    self : cred u p ≡ c
    self = get_or-set_self l.creds p c no_cred in_array

    valid : IsValid u
    valid = put-IsValid l p n c v h f

    absent :
        find l (some ssid) ≡ none
        → bytes_eq c.ssid ssid ≡ false
        → (j : ℕ) → j < n
        → (cred u j).ssid ≢ ssid
    absent e d j a =
        set_cases (λ x. x.ssid ≢ ssid) l.creds p j c no_cred in_array
          (λ q r. cc (d, bytes_eq-of_eq _ _ r)) (λ ne. find-none l ssid j e (h.used j a ne))

    kept :
        (i : ℕ)
        → find l (some ssid) ≡ some i
        → bytes_eq c.ssid ssid ≡ false
        → password u ssid ≡ some (cred l i).pass
    kept i e d =
        password_of u ssid i valid (omega (arith, (find_sound l ssid i e).0, h.grows))
          (ap (λ (x : WifiCred). x.ssid) there ∙ (find_sound l ssid i e).1)
        ∙ ap (λ (x : WifiCred). some x.pass) there
      where
        ne : p ≢ i
        ne q =
            let lt : p < l.n = omega (arith, (find_sound l ssid i e).0, q) in
            cc (
              d,
              bytes_eq-of_eq c.ssid ssid
                  (sym (h.own lt) ∙ ap (λ (k : ℕ). (cred l k).ssid) q ∙ (find_sound l ssid i e).1),
            )

        there : cred u i ≡ cred l i
        there = get_or-set_ne l.creds p i c no_cred ne

at_found :
    (l : WifiList) (ssid : Bytes) (i : ℕ)
    → IsValid l
    → find l (some ssid) ≡ some i
    → IsPlace l i l.n ssid
at_found l ssid i v e =
    let (lt, named) = find_sound l ssid i e in
    record {
      inside = lt;
      bounded = v.bounded;
      grows = omega arith;
      used = λ j a ne. a;
      own = λ a. named;
      other = λ j a ne q. ne (v.unique i j lt a (named ∙ sym q));
    }

at_tail :
    (l : WifiList) (ssid : Bytes)
    → IsValid l
    → find l (some ssid) ≡ none
    → l.n < l.cap
    → IsPlace l l.n (l.n + 1) ssid
at_tail l ssid v e room = record {
  inside = omega arith;
  bounded = omega arith;
  grows = omega arith;
  used = λ j a ne. omega arith;
  own = λ a. absurd (omega arith);
  other = λ j a ne q. find-none l ssid j e (omega arith) q;
}

abbrev pub is_counted : Outcome → Bool
is_counted (counted k) = true
is_counted list_full = false
is_counted list_err = false

-- What `upsert` does with a network: the write of the network at a place for its name, or nothing.
data Stored (l : WifiList) (c : WifiCred) : WifiList × Outcome → Type 0 where
  stored : (p n : ℕ) → IsPlace l p n c.ssid → Stored l c (put l p n c, counted n)
  refused : (o : Outcome) → is_counted o ≡ false → Stored l c (l, o)

store_at-Stored :
    (l : WifiList) (c : WifiCred) → IsValid l → Stored l c (store_at l (find l (some c.ssid)) c)
unfolding store_at
store_at-Stored l c v = by_find (find l (some c.ssid)) refl
  where
    by_find : (o : Option ℕ) → find l (some c.ssid) ≡ o → Stored l c (store_at l o c)
    by_find none e = elim (Bool-cases (leb l.cap l.n)) [
      | inl full ↦ rw full (refused list_full refl)
      | inr room ↦ rw room (stored l.n (l.n + 1) (at_tail l c.ssid v e (ground arith)))
    ]
    by_find (some i) e = stored i l.n (at_found l c.ssid i v e)

-- The list after an outcome `r`, for a network within the limits.
Stored-laws :
    (l : WifiList) (c : WifiCred) {r : WifiList × Outcome}
    → IsValid l
    → fits c.ssid c.pass ≡ true
    → Stored l c r
    → (j : Bytes)
    → IsValid r.0
      × (password r.0 j
          ≡ (if is_counted r.1 && bytes_eq c.ssid j then some c.pass else password l j))
Stored-laws l c v f (stored p n h) j = (put-IsValid l p n c v h f, password-put l p n c j v h f)
Stored-laws l c v f (refused o h) j = (v, rw h refl)

-- Storing a network, accepted or refused, keeps the list valid. An accepted one is then found under
-- its name, with an empty pass where none was given, and every other name keeps what it had; a
-- refused one changes no name.
pub password-upsert :
    (l : WifiList) (ssid : Bytes) (pass : Option Bytes) (j : Bytes)
    → IsValid l
    → let (u, o) = upsert l (some ssid) pass in
      IsValid u
      × (password u j
          ≡ (if is_counted o && bytes_eq ssid j then some (or_else pass []) else password l j))
unfolding upsert
password-upsert l ssid pass j v = elim (Bool-cases (fits ssid (or_else pass []))) [
  | inl ok ↦ rw ok (Stored-laws l new v ok (store_at-Stored l new v) j)
  | inr bad ↦ rw bad (v, refl)
]
  where
    new : WifiCred
    new = record { ssid = ssid; pass = or_else pass [] }

-- A network is accepted exactly if it is within the limits and its name is known or there is room
-- for one more: nothing is ever evicted.
pub upsert_accepts :
    (l : WifiList) (ssid : Bytes) (pass : Option Bytes)
    → is_counted (upsert l (some ssid) pass).1
      ≡ (fits ssid (or_else pass []) && (is_some (find l (some ssid)) || ltb l.n l.cap))
unfolding upsert store_at
upsert_accepts l ssid pass = ground arith
