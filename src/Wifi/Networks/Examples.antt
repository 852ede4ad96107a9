-- ===== src/Wifi/Networks/Examples.antt =====
-- The network list at concrete inputs.
use sticks3_buddy.Prelude.{
  ℕ, zero, suc, ◌≤◌, ◌<◌, ◌≡◌, refl, true, ◌&&◌, none, some, [], ◌∷◌, arith, if◌then◌else◌, is_some,
  length, get_or, codes, bytes_eq, first_index, shift_loop,
}
use sticks3_buddy.Wifi.Networks.{
  WifiCred, WifiList, Outcome, counted, list_full, list_err, no_cred, find, upsert, remove, clear,
  format_ssids,
}
use sticks3_buddy.Wifi.Networks
use sticks3_buddy.Wifi.Networks.Keys.{cred, IsValid, password}
use sticks3_buddy.Wifi.Networks.Upsert.{is_counted, password-upsert}
use sticks3_buddy.Wifi.Networks.Removal.{password-remove, clear_scrubs}
use sticks3_buddy.Wifi.Networks.Names.{format_ssids_fits, format_ssids-names}

abbrev home : WifiCred
home = record { ssid = codes "home"; pass = codes "secret" }

abbrev cafe : WifiCred
cafe = record { ssid = codes "ca\"fe"; pass = [] }

abbrev two : WifiList
two = record { creds = home ∷ cafe ∷ no_cred ∷ []; n = 2; cap = 3 }

upsert_runs :
    (upsert two (some (codes "home")) (some (codes "new"))).0
    ≡ record two { creds = record home { pass = codes "new" } ∷ cafe ∷ no_cred ∷ [] }
unfolding upsert find first_index bytes_eq
upsert_runs = refl

remove_runs :
    remove two (some (codes "home"))
    ≡ (record two { creds = cafe ∷ no_cred ∷ no_cred ∷ []; n = 1 }, counted 1)
unfolding remove find first_index bytes_eq shift_loop
remove_runs = refl

format_runs : format_ssids two 20 ≡ (codes "\"home\",\"ca\\\"fe\"", 2)
unfolding format_ssids
format_runs = refl

two-IsValid : IsValid two
two-IsValid = record { full = refl; bounded = omega arith; unique = keys; sized = sizes }
  where
    keys : (i j : ℕ) → i < 2 → j < 2 → (cred two i).ssid ≡ (cred two j).ssid → i ≡ j
    keys zero zero h k e = refl
    keys zero (suc zero) h k e = ground arith
    keys (suc zero) zero h k e = ground arith
    keys (suc zero) (suc zero) h k e = refl
    keys (suc (suc i)) j h k e = absurd (omega arith)
    keys i (suc (suc j)) h k e = absurd (omega arith)

    sizes : (i : ℕ) → i < 2 → Networks.fits (cred two i).ssid (cred two i).pass ≡ true
    sizes zero h = refl
    sizes (suc zero) h = refl
    sizes (suc (suc i)) h = absurd (omega arith)

password-upsert_example :
    let (u, o) = upsert two (some (codes "lab")) none in
    IsValid u
    × (password u (codes "lab") ≡ (
        if is_counted o && bytes_eq (codes "lab") (codes "lab")
        then some []
        else password two (codes "lab")))
password-upsert_example = password-upsert two (codes "lab") none (codes "lab") two-IsValid

password-remove_example :
    let (u, o) = remove two (some (codes "home")) in
    IsValid u
    × (password u (codes "ca\"fe") ≡ (
        if bytes_eq (codes "home") (codes "ca\"fe") then none else password two (codes "ca\"fe")))
    × (o ≡ (if is_some (find two (some (codes "home"))) then counted 1 else list_err))
password-remove_example = password-remove two (codes "home") (codes "ca\"fe") two-IsValid

clear_scrubs_test : IsValid (clear two) × ((clear two).n ≡ 0) × (cred (clear two) 0 ≡ no_cred)
clear_scrubs_test = clear_scrubs two 0 two-IsValid (omega arith)

format_ssids_fits_test : (length (format_ssids two 12).0 < 12) × ((format_ssids two 12).1 ≤ 2)
format_ssids_fits_test = format_ssids_fits two 12 (omega arith)

format_ssids-names_example :
    format_ssids two 20
    ≡ format_ssids (record two { creds = record home { pass = codes "other" } ∷ cafe ∷ [] }) 20
format_ssids-names_example =
    format_ssids-names two (record two { creds = record home { pass = codes "other" } ∷ cafe ∷ [] })
      20 refl same
  where
    same :
        (j : ℕ)
        → j < 2
        → (cred two j).ssid
          ≡ (get_or (record home { pass = codes "other" } ∷ cafe ∷ []) j no_cred).ssid
    same zero h = refl
    same (suc zero) h = refl
    same (suc (suc j)) h = absurd (omega arith)
