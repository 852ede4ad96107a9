-- ===== src/Wifi/Store/Format.antt =====
-- The bytes of /wifi.dat (src/wifi_store.h): a header of eight bytes, and a record of 97 bytes for
-- each network, little-endian.
use sticks3_buddy.Prelude.{
  ℕ, zero, suc, ◌+◌, ◌*◌, ◌/◌, ◌&&◌, Option, none, some, List, [], ◌∷◌, ◌++◌, ltb, ◌==◌,
  if◌then◌else◌, length, get_or, set, take, drop, replicate, u8, u16, Bytes, until_nul,
}
use sticks3_buddy.Wifi.Networks.{WifiCred, WifiList}

-- WIFI_MAX
abbrev pub wifi_max : ℕ
wifi_max = 256

-- WIFI_MAGIC
abbrev pub wifi_magic : ℕ
wifi_magic = 0x31465742

-- sizeof(WifiFileHdr) and sizeof(WifiCred)
abbrev pub header_size : ℕ
header_size = 8

abbrev pub cred_size : ℕ
cred_size = 97

-- WifiFileHdr { WIFI_MAGIC, count, 0 }
unfoldable pub header : ℕ → Bytes
header count = b'B' ∷ b'W' ∷ b'F' ∷ b'1' ∷ u8 count ∷ u8 (count / 256) ∷ 0 ∷ 0 ∷ []

-- A char array of `size` bytes that holds a string, padded with zero bytes.
abbrev pub padded : ℕ → Bytes → Bytes
padded size s = take size (s ++ replicate size 0)

unfoldable pub cred_bytes : WifiCred → Bytes
cred_bytes c = padded 33 c.ssid ++ padded 64 c.pass

unfoldable pub body_bytes : List WifiCred → Bytes
body_bytes [] = []
body_bytes (c ∷ cs) = cred_bytes c ++ body_bytes cs

-- A number of four bytes, and one of two.
abbrev pub le32 : Bytes → ℕ
le32 b = get_or b 0 0 + 256 * get_or b 1 0 + 65536 * get_or b 2 0 + 16777216 * get_or b 3 0

abbrev pub le16 : Bytes → ℕ
le16 b = get_or b 0 0 + 256 * get_or b 1 0

-- The count of a header that is whole and has the magic number.
unfoldable pub read_header : Bytes → Option ℕ
read_header file =
    let h = take header_size file in
    if (length h == header_size) && (le32 h == wifi_magic) then some (le16 (drop 4 h)) else none

-- A char array read back as a string, after its last byte has been set to 0.
unfoldable pub read_cred : Bytes → WifiCred
unfolding until_nul
read_cred b = record {
  ssid = until_nul (set (take 33 b) 32 0);
  pass = until_nul (set (take 64 (drop 33 b)) 63 0);
}

unfoldable pub read_creds : ℕ → Bytes → List WifiCred
unfolding read_cred
read_creds zero b = []
read_creds (suc k) b = read_cred (take cred_size b) ∷ read_creds k (drop cred_size b)

-- The body into the array of the list: whole records only. The bytes of a record that is cut off
-- land past the last entry, where every use writes first, and are left out.
unfoldable pub read_body : ℕ → Bytes → WifiList → WifiList
read_body n body l = record l { creds = read_creds n body ++ drop n l.creds; n = n }

unfoldable pub read_counted : Option ℕ → Bytes → WifiList → WifiList
unfolding read_body
read_counted none file l = record l { n = 0 }
read_counted (some count) file l =
    let want = if ltb wifi_max count then wifi_max else count in
    let body = take (want * cred_size) (drop header_size file) in
    read_body (u16 (length body / cred_size)) body l

unfoldable pub read_list : Bytes → WifiList → WifiList
read_list file l = read_counted (read_header file) file l

-- The file that `_save` writes.
abbrev pub image : WifiList → Bytes
image l = header l.n ++ body_bytes (take l.n l.creds)
