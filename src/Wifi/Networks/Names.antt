-- ===== src/Wifi/Networks/Names.antt =====
-- The list of names for an acknowledgement: it fits its buffer, and it depends on names alone.
use sticks3_buddy.Prelude.{
  ℕ, zero, suc, ◌+◌, ◌≤◌, ◌<◌, ◌≡◌, refl, ap, ◌∙◌, inl, inr, false, List, [], ◌∷◌, ◌++◌, arith, leb,
  ◌==◌, if◌then◌else◌, Bool-cases, length, get_or, length-append, Bytes,
}
use sticks3_buddy.Wifi.Networks.{
  WifiCred, WifiList, no_cred, escape, comma, format_loop, format_ssids,
}
use sticks3_buddy.Wifi.Networks.Keys.{cred}

length-quoted :
    (esc : Bytes) (emitted : ℕ)
    → length (comma emitted ++ (b'"' ∷ (esc ++ (b'"' ∷ []))))
      ≡ length esc + 2 + (if emitted == 0 then 0 else 1)
length-quoted esc emitted = elim (Bool-cases (emitted == 0)) [
  | inl e ↦ rw e (omega (arith, length-append esc (b'"' ∷ [])))
  | inr e ↦ rw e (omega (arith, length-append esc (b'"' ∷ [])))
]

format_loop_fits :
    (k i : ℕ) (creds : List WifiCred) (out_len : ℕ) (out : Bytes) (emitted : ℕ)
    → length out < out_len
    → (length (format_loop k i creds out_len out emitted).0 < out_len)
      × ((format_loop k i creds out_len out emitted).1 ≤ emitted + k)
unfolding format_loop
format_loop_fits zero i creds out_len out emitted h = (h, omega arith)
format_loop_fits (suc k) i creds out_len out emitted h =
    elim (Bool-cases
      (leb out_len (length out + (length esc + 2 + (if emitted == 0 then 0 else 1))))) [
        | inl over ↦ rw over (h, omega arith)
        | inr room ↦
            let (a, b) =
              format_loop_fits k (suc i) creds out_len (out ++ part) (emitted + 1) (fits room) in
            rw room (a, omega (arith, b))
      ]
  where
    esc : Bytes
    esc = escape (get_or creds i no_cred).ssid []

    part : Bytes
    part = comma emitted ++ (b'"' ∷ (esc ++ (b'"' ∷ [])))

    fits :
        leb out_len (length out + (length esc + 2 + (if emitted == 0 then 0 else 1))) ≡ false
        → length (out ++ part) < out_len
    fits e = ground (arith, length-append out part, length-quoted esc emitted)

-- The text and its terminator fit the buffer, and no more names are counted than are stored.
pub format_ssids_fits :
    (l : WifiList) (out_len : ℕ)
    → 0 < out_len
    → (length (format_ssids l out_len).0 < out_len) × ((format_ssids l out_len).1 ≤ l.n)
unfolding format_ssids
format_ssids_fits l out_len h = elim (Bool-cases (out_len == 0)) [
  | inl e ↦ absurd (ground arith)
  | inr e ↦ let (a, b) = format_loop_fits l.n 0 l.creds out_len [] 0 h in rw e (a, omega (arith, b))
]

format_loop-names :
    (k i : ℕ) (xs ys : List WifiCred) (out_len : ℕ) (out : Bytes) (emitted : ℕ)
    → ((j : ℕ) → j < i + k → (get_or xs j no_cred).ssid ≡ (get_or ys j no_cred).ssid)
    → format_loop k i xs out_len out emitted ≡ format_loop k i ys out_len out emitted
unfolding format_loop
format_loop-names zero i xs ys out_len out emitted h = refl
format_loop-names (suc k) i xs ys out_len out emitted h =
    rw (h i (omega arith)) (
      rw (format_loop-names k (suc i) xs ys out_len _ (emitted + 1) (λ j a. h j (omega arith)))
        refl)

-- Two lists with the same names give the same text: no byte of a pass is in it.
pub format_ssids-names :
    (l m : WifiList) (out_len : ℕ)
    → l.n ≡ m.n
    → ((j : ℕ) → j < l.n → (cred l j).ssid ≡ (cred m j).ssid)
    → format_ssids l out_len ≡ format_ssids m out_len
unfolding format_ssids
format_ssids-names l m out_len e h =
    ap (λ (r : Bytes × ℕ). if out_len == 0 then ([], 0) else r)
      (format_loop-names l.n 0 l.creds m.creds out_len [] 0 (λ j a. h j (omega arith))
        ∙ ap (λ (n : ℕ). format_loop n 0 m.creds out_len [] 0) e)
