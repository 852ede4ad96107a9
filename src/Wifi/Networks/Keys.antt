-- ===== src/Wifi/Networks/Keys.antt =====
-- The list is well formed, and what it answers for a name.
use sticks3_buddy.Prelude.{
  ℕ, ◌≤◌, ◌<◌, ◌≡◌, sym, ap, ◌∙◌, ◌≢◌, inl, inr, true, Option, none, some, arith, Option-cases,
  length, get_or, Bytes, bytes_eq→eq, bytes_eq-of_eq, first_index_sound, first_index-none,
  first_index_unique,
}
use sticks3_buddy.Wifi.Networks.{WifiCred, WifiList, no_cred, has_ssid, find, fits}

abbrev pub cred : WifiList → ℕ → WifiCred
cred l i = get_or l.creds i no_cred

-- The array has its size, the networks fit in it, no two have one name, and each is within the
-- limits of 802.11.
pub record IsValid (l : WifiList) : Type 0 where
  pub full : length l.creds ≡ l.cap
  pub bounded : l.n ≤ l.cap
  pub unique : (i j : ℕ) → i < l.n → j < l.n → (cred l i).ssid ≡ (cred l j).ssid → i ≡ j
  pub sized : (i : ℕ) → i < l.n → fits (cred l i).ssid (cred l i).pass ≡ true

-- The stored pass of a name.
abbrev pub pass_at : WifiList → Option ℕ → Option Bytes
pass_at l none = none
pass_at l (some i) = some (cred l i).pass

abbrev pub password : WifiList → Bytes → Option Bytes
password l ssid = pass_at l (find l (some ssid))

pub find_sound :
    (l : WifiList) (ssid : Bytes) (i : ℕ)
    → find l (some ssid) ≡ some i
    → (i < l.n) × ((cred l i).ssid ≡ ssid)
unfolding find
find_sound l ssid i e =
    let (_, b, p) = first_index_sound (has_ssid ssid) l.n 0 l.creds no_cred i e in
    (omega (arith, b), bytes_eq→eq _ _ p)

pub find-none :
    (l : WifiList) (ssid : Bytes) (i : ℕ)
    → find l (some ssid) ≡ none
    → i < l.n
    → (cred l i).ssid ≢ ssid
unfolding find
find-none l ssid i e h q = cc (
  first_index-none (has_ssid ssid) l.n 0 l.creds no_cred i e (omega arith) (omega arith),
  bytes_eq-of_eq _ _ q,
)

-- A network in use is found under its name.
pub password_of :
    (l : WifiList) (ssid : Bytes) (i : ℕ)
    → IsValid l
    → i < l.n
    → (cred l i).ssid ≡ ssid
    → password l ssid ≡ some (cred l i).pass
unfolding find
password_of l ssid i v h e = ap (pass_at l) (
    first_index_unique (has_ssid ssid) l.n 0 l.creds no_cred i (omega arith) (omega arith)
      (bytes_eq-of_eq _ _ e) (λ j b q. v.unique j i (omega arith) h (bytes_eq→eq _ _ q ∙ sym e)))

pub password-none :
    (l : WifiList) (ssid : Bytes)
    → ((i : ℕ) → i < l.n → (cred l i).ssid ≢ ssid)
    → password l ssid ≡ none
password-none l ssid h = elim (Option-cases (find l (some ssid))) [
  | inl e ↦ ap (pass_at l) e
  | inr (i, e) ↦ absurd (h i (find_sound l ssid i e).0 (find_sound l ssid i e).1)
]
