-- ===== src/Wifi/Networks.antt =====
-- The network list (src/logic/wifi_store_logic.h), over its backing array. The two null checks of
-- the list itself are left out: the store always passes a list with its array.
mod Keys
mod Upsert
mod Removal
mod Names
mod Examples
use sticks3_buddy.Prelude.{
  ℕ, zero, suc, ◌+◌, ◌-◌, Bool, ◌&&◌, ◌||◌, Option, none, some, List, [], ◌∷◌, ◌++◌, ltb, leb, ◌==◌,
  if◌then◌else◌, or_else, length, get_or, set, Bytes, bytes_eq, first_index, fill_loop, close_gap,
}

pub record WifiCred : Type 0 where
  pub ssid : Bytes
  pub pass : Bytes

-- A record of zero bytes.
abbrev pub no_cred : WifiCred
no_cred = record { ssid = []; pass = [] }

pub record WifiList : Type 0 where
  pub creds : List WifiCred
  pub n : ℕ
  pub cap : ℕ

-- The int16_t results: the new count, WIFI_LIST_FULL and WIFI_LIST_ERR.
pub data Outcome : Type 0 where
  counted : ℕ → Outcome
  list_full list_err : Outcome

abbrev pub has_ssid : Bytes → WifiCred → Bool
has_ssid ssid c = bytes_eq c.ssid ssid

unfoldable pub find : WifiList → Option Bytes → Option ℕ
find l none = none
find l (some ssid) = first_index (has_ssid ssid) l.n 0 l.creds no_cred

-- The write at the place that was found, or at the tail; a new name is refused at the cap.
unfoldable pub store_at : WifiList → Option ℕ → WifiCred → WifiList × Outcome
store_at l (some i) c = (record l { creds = set l.creds i c }, counted l.n)
store_at l none c =
    if leb l.cap l.n
    then (l, list_full)
    else (record l { creds = set l.creds l.n c; n = l.n + 1 }, counted (l.n + 1))

-- strlen(ssid) in 1..32 and strlen(pass) at most 63.
abbrev pub fits : Bytes → Bytes → Bool
fits ssid pass = leb 1 (length ssid) && leb (length ssid) 32 && leb (length pass) 63

-- A null pass is an open network.
unfoldable pub upsert : WifiList → Option Bytes → Option Bytes → WifiList × Outcome
unfolding store_at
upsert l none pass = (l, list_err)
upsert l (some ssid) pass =
    if fits ssid (or_else pass [])
    then store_at l (find l (some ssid)) (record { ssid = ssid; pass = or_else pass [] })
    else (l, list_err)

unfoldable pub remove_at : WifiList → Option ℕ → WifiList × Outcome
remove_at l none = (l, list_err)
remove_at l (some i) =
    (record l { creds = close_gap l.n i l.creds no_cred; n = l.n - 1 }, counted (l.n - 1))

unfoldable pub remove : WifiList → Option Bytes → WifiList × Outcome
unfolding remove_at
remove l ssid = remove_at l (find l ssid)

-- memset over the records in use.
unfoldable pub clear : WifiList → WifiList
clear l = record l { creds = fill_loop l.n 0 l.creds no_cred; n = 0 }

-- One byte of a name as a JSON string literal holds it.
abbrev pub escaped : ℕ → Bytes
escaped c =
    if c == b'"' || c == b'\\' then b'\\' ∷ c ∷ [] else if ltb c 0x20 then b'?' ∷ [] else c ∷ []

-- while (*p && e < sizeof(esc) - 2)
unfoldable pub escape : Bytes → Bytes → Bytes
escape [] esc = esc
escape (c ∷ rest) esc =
    let more = escape rest (esc ++ escaped c) in if ltb (length esc) 66 then more else esc

abbrev pub comma : ℕ → Bytes
comma emitted = if emitted == 0 then [] else b',' ∷ []

-- The names from `i` on, as many as fit whole: the text and how many names it holds.
unfoldable pub format_loop : ℕ → ℕ → List WifiCred → ℕ → Bytes → ℕ → Bytes × ℕ
format_loop zero i creds out_len out emitted = (out, emitted)
format_loop (suc k) i creds out_len out emitted =
    let esc = escape (get_or creds i no_cred).ssid [] in
    let need = length esc + 2 + (if emitted == 0 then 0 else 1) in
    let more =
      format_loop k (suc i) creds out_len (out ++ (comma emitted ++ (b'"' ∷ (esc ++ (b'"' ∷ [])))))
        (emitted + 1) in
    if leb out_len (length out + need) then (out, emitted) else more

-- With no room for the terminator nothing is written.
unfoldable pub format_ssids : WifiList → ℕ → Bytes × ℕ
unfolding format_loop escape
format_ssids l out_len = if out_len == 0 then ([], 0) else format_loop l.n 0 l.creds out_len [] 0
