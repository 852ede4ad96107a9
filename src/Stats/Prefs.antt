-- ===== src/Stats/Prefs.antt =====
-- The settings in NVS and the migration of its schema (src/stats.h).
use sticks3_buddy.Prelude.{
  ℕ, Bool, true, false, Option, none, some, ltb, leb, if◌then◌else◌, is_some, ℤ, pos, negsuc, Bytes,
  codes, bytes_eq,
}

-- A typed entry: a read of another type finds nothing.
pub data Entry : Type 0 where
  u8_entry u16_entry u32_entry : ℕ → Entry
  i8_entry : ℤ → Entry
  bool_entry : Bool → Entry

abbrev pub Prefs : Type 0
Prefs = Bytes → Option Entry

abbrev pub put : Bytes → Entry → Prefs → Prefs
put key v p k = if bytes_eq k key then some v else p k

abbrev pub remove : Bytes → Prefs → Prefs
remove key p k = if bytes_eq k key then none else p k

abbrev u8_of : Option Entry → ℕ → ℕ
u8_of (some (u8_entry n)) d = n
u8_of _ d = d

abbrev u16_of : Option Entry → ℕ → ℕ
u16_of (some (u16_entry n)) d = n
u16_of _ d = d

abbrev bool_of : Option Entry → Bool → Bool
bool_of (some (bool_entry b)) d = b
bool_of _ d = d

abbrev i8_of : Option Entry → ℤ → ℤ
i8_of (some (i8_entry z)) d = z
i8_of _ d = d

-- getUChar, getUShort, getBool and getChar
abbrev pub get_u8 : Prefs → Bytes → ℕ → ℕ
get_u8 p key d = u8_of (p key) d

abbrev pub get_u16 : Prefs → Bytes → ℕ → ℕ
get_u16 p key d = u16_of (p key) d

abbrev pub get_bool : Prefs → Bytes → Bool → Bool
get_bool p key d = bool_of (p key) d

abbrev pub get_i8 : Prefs → Bytes → ℤ → ℤ
get_i8 p key d = i8_of (p key) d

-- if (!isKey(key)) put(key, v)
abbrev pub seed : Bytes → Entry → Prefs → Prefs
seed key v p = if is_some (p key) then p else put key v p

abbrev pub version : Prefs → ℕ
version p = get_u8 p (codes "sv") 0

-- The step that makes version n of an older schema.
abbrev pub upgrade : ℕ → (Prefs → Prefs) → Prefs → Prefs
upgrade n step p = if ltb (version p) n then put (codes "sv") (u8_entry n) (step p) else p

unfoldable pub to_v1 : Prefs → Prefs
to_v1 p =
    let appr = get_u16 p (codes "appr") 0 in
    let deny = get_u16 p (codes "deny") 0 in
    seed (codes "s_bright") (u8_entry 4) (
      put (codes "deny") (u32_entry deny)
        (put (codes "appr") (u32_entry appr) (remove (codes "deny") (remove (codes "appr") p))))

unfoldable pub to_v2 : Prefs → Prefs
to_v2 p = seed (codes "s_vol") (u8_entry (if get_bool p (codes "s_snd") true then 3 else 0)) p

unfoldable pub to_v3 : Prefs → Prefs
to_v3 p =
    seed (codes "s_pair") (u8_entry 0)
      (seed (codes "hostfb") (u8_entry 1) (seed (codes "hostsel") (i8_entry (negsuc 0)) p))

unfoldable pub nvs_migrate : Prefs → Prefs
unfolding to_v1 to_v2 to_v3
nvs_migrate p = upgrade 5 (seed (codes "s_home") (u8_entry 0)) (
    upgrade 4 (seed (codes "s_tune") (u8_entry 1))
      (upgrade 3 to_v3 (upgrade 2 to_v2 (upgrade 1 to_v1 p))))

pub record Settings : Type 0 where
  pub vol : ℕ
  pub bt : Bool
  pub wifi : Bool
  pub led : Bool
  pub hud : Bool
  pub clock_rot : ℕ
  pub bright : ℕ
  pub pair : ℕ
  pub hostsel : ℤ
  pub hostfb : ℕ
  pub tune : ℕ
  pub home : ℕ

-- A value above the limit falls back.
abbrev pub within : ℕ → ℕ → ℕ → ℕ
within limit fallback v = if ltb limit v then fallback else v

abbrev pub host_slot : ℤ → ℤ
host_slot (pos n) = if leb 7 n then negsuc 0 else pos n
host_slot (negsuc n) = negsuc n

-- The read half of settingsLoad, behind the migration.
unfoldable pub settings_read : Prefs → Settings
settings_read p = record {
  vol = within 4 4 (get_u8 p (codes "s_vol") 3);
  bt = get_bool p (codes "s_bt") true;
  wifi = get_bool p (codes "s_wifi") false;
  led = get_bool p (codes "s_led") true;
  hud = get_bool p (codes "s_hud") true;
  clock_rot = within 2 0 (get_u8 p (codes "s_crot") 0);
  bright = within 4 4 (get_u8 p (codes "s_bright") 4);
  pair = within 1 0 (get_u8 p (codes "s_pair") 0);
  hostsel = host_slot (get_i8 p (codes "hostsel") (negsuc 0));
  hostfb = within 1 1 (get_u8 p (codes "hostfb") 1);
  tune = within 1 1 (get_u8 p (codes "s_tune") 1);
  home = within 1 0 (get_u8 p (codes "s_home") 0);
}

unfoldable pub settings_load : Prefs → Prefs × Settings
unfolding nvs_migrate settings_read
settings_load p = let q = nvs_migrate p in (q, settings_read q)

unfoldable pub settings_save : Settings → Prefs → Prefs
settings_save s p = put (codes "s_home") (u8_entry s.home) (
    put (codes "s_tune") (u8_entry s.tune) (
      put (codes "hostfb") (u8_entry s.hostfb) (
        put (codes "hostsel") (i8_entry s.hostsel) (
          put (codes "s_pair") (u8_entry s.pair) (
            put (codes "s_bright") (u8_entry s.bright) (
              put (codes "s_crot") (u8_entry s.clock_rot) (
                put (codes "s_hud") (bool_entry s.hud) (
                  put (codes "s_led") (bool_entry s.led) (
                    put (codes "s_wifi") (bool_entry s.wifi) (
                      put (codes "s_bt") (bool_entry s.bt)
                        (put (codes "s_vol") (u8_entry s.vol) p)))))))))))
