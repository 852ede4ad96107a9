-- ===== src/Wifi/Store/Codec.antt =====
-- The file of networks read back: the bytes that are written stand for the list.
use sticks3_buddy.Prelude.{
  ℕ, zero, suc, ◌+◌, ◌-◌, ◌*◌, ◌/◌, ◌≤◌, max, ◌≡◌, refl, sym, ap, ◌∙◌, false, Option, none, some,
  List, [], ◌∷◌, ◌++◌, arith, ltb, ◌==◌, if_false, length, set, take, drop, replicate, All,
  length-append, length-take, length-replicate, take_of_length_le, u16, Bytes, until_nul,
}
use sticks3_buddy.Wifi.Networks.{WifiCred, WifiList}
use sticks3_buddy.Wifi.Store.Format.{
  header, padded, cred_bytes, body_bytes, read_header, read_cred, read_creds, read_body,
  read_counted, read_list, image,
}

-- A string of at most `max` bytes, none of them the terminator.
abbrev pub IsText : ℕ → Bytes → Type 0
IsText max s = (length s ≤ max) × All (λ c. (c == 0) ≡ false) s

abbrev pub IsStored : WifiCred → Type 0
IsStored c = IsText 32 c.ssid × IsText 63 c.pass

-- The entries in use.
abbrev pub entries : WifiList → List WifiCred
entries l = take l.n l.creds

take-append_length : (n : ℕ) (a b : Bytes) → length a ≡ n → take n (a ++ b) ≡ a
take-append_length zero [] b e = refl
take-append_length zero (x ∷ a) b e = absurd (omega arith)
take-append_length (suc n) [] b e = absurd (omega arith)
take-append_length (suc n) (x ∷ a) b e = ap (λ r. x ∷ r) (take-append_length n a b (omega arith))

drop-append_length : (n : ℕ) (a b : Bytes) → length a ≡ n → drop n (a ++ b) ≡ b
drop-append_length zero [] b e = refl
drop-append_length zero (x ∷ a) b e = absurd (omega arith)
drop-append_length (suc n) [] b e = absurd (omega arith)
drop-append_length (suc n) (x ∷ a) b e = drop-append_length n a b (omega arith)

length-padded : (size : ℕ) (s : Bytes) → length (padded size s) ≡ size
length-padded size s = omega (
  arith,
  length-take size (s ++ replicate size 0),
  length-append s (replicate size 0),
  length-replicate {A = ℕ} size 0,
)

take-replicate : (n m : ℕ) → n ≤ m → take {A = ℕ} n (replicate m 0) ≡ replicate n 0
take-replicate zero m h = refl
take-replicate (suc n) zero h = absurd (omega arith)
take-replicate (suc n) (suc m) h = ap (λ r. 0 ∷ r) (take-replicate n m (omega arith))

padded-append :
    (size m : ℕ) (s : Bytes)
    → length s ≤ size
    → size ≤ m + length s
    → take size (s ++ replicate m 0) ≡ s ++ replicate (size - length s) 0
padded-append size m [] h k =
    take-replicate size m (omega arith) ∙ ap (λ n. replicate n 0) (omega arith)
padded-append zero m (c ∷ s) h k = absurd (omega arith)
padded-append (suc size) m (c ∷ s) h k =
    ap (λ r. c ∷ r)
      (padded-append size m s (omega arith) (omega arith)
        ∙ ap (λ n. s ++ replicate n 0) (omega arith))

-- The terminator that the loader writes lands on the padding.
until_nul-set :
    (s : Bytes) (i k : ℕ)
    → All (λ c. (c == 0) ≡ false) s
    → length s ≤ i
    → until_nul (set (s ++ replicate (suc k) 0) i 0) ≡ s
unfolding until_nul
until_nul-set [] zero k a h = refl
until_nul-set [] (suc i) k a h = refl
until_nul-set (c ∷ s) zero k a h = absurd (omega arith)
until_nul-set (c ∷ s) (suc i) k a h =
    rw a.0 (ap (λ r. c ∷ r) (until_nul-set s i k a.1 (omega arith)))

text_back :
    (last : ℕ) (s : Bytes) → IsText last s → until_nul (set (padded (suc last) s) last 0) ≡ s
text_back last s (short, plain) =
    rw (padded-append (suc last) (suc last) s (omega arith) (omega arith), room)
      (until_nul-set s last (last - length s) plain short)
  where
    room : suc last - length s ≡ suc (last - length s)
    room = omega arith

length-cred_bytes : (c : WifiCred) → length (cred_bytes c) ≡ 97
unfolding cred_bytes
length-cred_bytes c = omega (
  arith,
  length-append (padded 33 c.ssid) (padded 64 c.pass),
  length-padded 33 c.ssid,
  length-padded 64 c.pass,
)

read_cred-cred_bytes : (c : WifiCred) → IsStored c → read_cred (cred_bytes c) ≡ c
unfolding read_cred cred_bytes
read_cred-cred_bytes c (s, p) = λ i. record { ssid = ssid_back i; pass = pass_back i }
  where
    ssid_back : until_nul (set (take 33 (padded 33 c.ssid ++ padded 64 c.pass)) 32 0) ≡ c.ssid
    ssid_back =
        ap (λ b. until_nul (set b 32 0))
          (take-append_length 33 (padded 33 c.ssid) (padded 64 c.pass) (length-padded 33 c.ssid))
        ∙ text_back 32 c.ssid s

    rest_back : take 64 (drop 33 (padded 33 c.ssid ++ padded 64 c.pass)) ≡ padded 64 c.pass
    rest_back =
        ap (take 64)
          (drop-append_length 33 (padded 33 c.ssid) (padded 64 c.pass) (length-padded 33 c.ssid))
        ∙ take_of_length_le 64 (padded 64 c.pass) (omega (arith, length-padded 64 c.pass))

    pass_back :
        until_nul (set (take 64 (drop 33 (padded 33 c.ssid ++ padded 64 c.pass))) 63 0) ≡ c.pass
    pass_back = ap (λ b. until_nul (set b 63 0)) rest_back ∙ text_back 63 c.pass p

length-body_bytes : (cs : List WifiCred) → length (body_bytes cs) ≡ length cs * 97
unfolding body_bytes
length-body_bytes [] = refl
length-body_bytes (c ∷ cs) =
    omega (
      arith,
      length-append (cred_bytes c) (body_bytes cs),
      length-cred_bytes c,
      length-body_bytes cs,
    )

read_creds-body_bytes :
    (cs : List WifiCred) → All IsStored cs → read_creds (length cs) (body_bytes cs) ≡ cs
unfolding read_creds body_bytes
read_creds-body_bytes [] a = refl
read_creds-body_bytes (c ∷ cs) a = rw (
  take-append_length 97 (cred_bytes c) (body_bytes cs) (length-cred_bytes c),
  drop-append_length 97 (cred_bytes c) (body_bytes cs) (length-cred_bytes c),
  read_cred-cred_bytes c a.0,
  read_creds-body_bytes cs a.1,
)

read_header-header : (n : ℕ) (rest : Bytes) → n ≤ 256 → read_header (header n ++ rest) ≡ some n
unfolding read_header header
read_header-header n rest h = ap some (omega arith)

drop-header : (n : ℕ) (rest : Bytes) → drop 8 (header n ++ rest) ≡ rest
unfolding header
drop-header n rest = refl

length-read_creds : (n : ℕ) (b : Bytes) → length (read_creds n b) ≡ n
unfolding read_creds
length-read_creds zero b = refl
length-read_creds (suc n) b = ap suc (length-read_creds n (drop 97 b))

take-append {ℓ} : {A : Type ℓ} (n : ℕ) (a b : List A) → length a ≡ n → take n (a ++ b) ≡ a
take-append zero [] b e = refl
take-append zero (x ∷ a) b e = absurd (omega arith)
take-append (suc n) [] b e = absurd (omega arith)
take-append (suc n) (x ∷ a) b e = ap (λ r. x ∷ r) (take-append n a b (omega arith))

-- A list within the capacity, with an array long enough and storable entries.
pub record IsStorable (l : WifiList) : Type 0 where
  pub small : l.n ≤ 256
  pub backed : l.n ≤ length l.creds
  pub stored : All IsStored (take l.n l.creds)

body_whole :
    (cs : List WifiCred) (n : ℕ) → length cs ≡ n → take (n * 97) (body_bytes cs) ≡ body_bytes cs
body_whole cs n e = take_of_length_le (n * 97) (body_bytes cs) (omega (arith, length-body_bytes cs))

entries-read_body :
    (n : ℕ) (body : Bytes) (l : WifiList) → entries (read_body n body l) ≡ read_creds n body
unfolding read_body
entries-read_body n body l =
    take-append n (read_creds n body) (drop n l.creds) (length-read_creds n body)

read_list-image :
    (l old : WifiList)
    → IsStorable l
    → read_list (image l) old ≡ read_body l.n (body_bytes (entries l)) old
unfolding read_list read_counted
read_list-image l old v =
    ap (λ o. read_counted o (image l) old) (read_header-header l.n (body_bytes (entries l)) v.small)
    ∙ ap read_whole (if_false (ltb 256 l.n) 256 l.n (ground (arith, v.small)))
    ∙ ap (λ body. read_body (u16 (length body / 97)) body old) whole
    ∙ ap (λ n. read_body n (body_bytes (entries l)) old) count
  where
    read_whole : ℕ → WifiList
    read_whole want =
        let body = take (want * 97) (drop 8 (image l)) in
        read_body (u16 (length body / 97)) body old

    len : length (entries l) ≡ l.n
    len = omega (arith, length-take l.n l.creds, v.backed)

    whole : take (l.n * 97) (drop 8 (image l)) ≡ body_bytes (entries l)
    whole =
        ap (take (l.n * 97)) (drop-header l.n (body_bytes (entries l)))
        ∙ body_whole (entries l) l.n len

    count : u16 (length (body_bytes (entries l)) / 97) ≡ l.n
    count = omega (arith, length-body_bytes (entries l), len, v.small)

-- The file that is written for a list reads back as the same networks in the same order, whatever
-- the list in RAM held before.
pub entries-read_list :
    (l old : WifiList) → IsStorable l → entries (read_list (image l) old) ≡ entries l
entries-read_list l old v =
    ap entries (read_list-image l old v)
    ∙ entries-read_body l.n (body_bytes (entries l)) old
    ∙ ap (λ n. read_creds n (body_bytes (entries l))) (sym len)
    ∙ read_creds-body_bytes (entries l) v.stored
  where
    len : length (entries l) ≡ l.n
    len = omega (arith, length-take l.n l.creds, v.backed)

-- What a file says does not depend on the list in RAM.
pub entries-read_list_any :
    (file : Bytes) (l m : WifiList) → entries (read_list file l) ≡ entries (read_list file m)
unfolding read_list read_counted
entries-read_list_any file l m = any (read_header file)
  where
    any : (o : Option ℕ) → entries (read_counted o file l) ≡ entries (read_counted o file m)
    any none = refl
    any (some c) = entries-read_body _ _ l ∙ sym (entries-read_body _ _ m)
