-- ===== src/Wifi/Store.antt =====
-- The network store (src/wifi_store.cpp): the list in RAM, loaded on first use from the file, and
-- saved after each change. Whether the heap has room for the list is an input; the file system is
-- a parameter, and `past` keeps the states that it has gone through, each of which a power cut
-- may leave.
use sticks3_buddy.Prelude.{
  ℕ, Bool, true, false, not, ◌&&◌, Option, none, some, List, [], ◌∷◌, ltb, ◌==◌, if◌then◌else◌,
  is_some, length, take, replicate, Bytes, non_empty,
}
pub mod Files
pub mod Format
mod Codec
mod PowerCut
mod Resync
mod Examples
use sticks3_buddy.Wifi.Networks
use sticks3_buddy.Wifi.Networks.{
  WifiList, Outcome, counted, list_full, list_err, no_cred, format_ssids,
}
use sticks3_buddy.Wifi.Store.Files.{FilePath, wifi_dat, wifi_tmp, FileSystem}
use sticks3_buddy.Wifi.Store.Format.{wifi_max, header, body_bytes, read_header, read_list}

-- The namespace "wifi" of NVS that older firmware kept one network in.
pub record Legacy : Type 0 where
  pub exists : Bool
  pub ssid : Option Bytes
  pub pass : Option Bytes

pub record Store (F : Type 0) : Type 0 where
  pub list : WifiList
  pub allocated : Bool
  pub loaded : Bool
  pub cached_count : Option ℕ
  pub legacy : Legacy
  pub files : F
  pub past : List F

-- What the file says of the list.
abbrev pub loaded_list : Option Bytes → WifiList → WifiList
loaded_list none l = record l { n = 0 }
loaded_list (some file) l = read_list file l

abbrev pub found_count : Option Bytes → Option ℕ
found_count none = none
found_count (some file) = read_header file

abbrev pub capped : Option ℕ → ℕ
capped none = 0
capped (some c) = if ltb wifi_max c then wifi_max else c

-- getString into a buffer: a value that does not fit with its terminator is not read.
abbrev pub get_string : Option Bytes → ℕ → Bytes
get_string none cap = []
get_string (some v) cap = if ltb (length v) cap then v else []

module _ {F : Type 0} (fs : FileSystem F) where
  -- The file system after a call.
  abbrev pub moved : F → Store F → Store F
  moved f s = record s { files = f; past = s.files ∷ s.past }

  abbrev pub exists : Store F → FilePath → Bool
  exists s p = is_some (fs.content s.files p)

  unfoldable pub alloc : Bool → Store F → Store F × Bool
  alloc heap s =
      if s.allocated
      then (s, true)
      else if heap
      then (
        record s {
          list = record { creds = replicate wifi_max no_cred; n = 0; cap = wifi_max };
          allocated = true;
        },
        true,
      )
      else (s, false)

  -- A save that died between remove and rename leaves only the temporary file.
  unfoldable pub adopt_stranded_tmp : Store F → Store F
  adopt_stranded_tmp s =
      if not (exists s wifi_dat) && exists s wifi_tmp
      then moved (fs.rename wifi_tmp wifi_dat s.files).0 s
      else s

  unfoldable pub load : Store F → Store F
  unfolding adopt_stranded_tmp
  load s =
      let t = adopt_stranded_tmp s in
      let l = loaded_list (fs.content t.files wifi_dat) t.list in
      record t { list = l; loaded = true; cached_count = some l.n }

  unfoldable pub ensure_loaded : Bool → Store F → Store F × Bool
  ensure_loaded heap s =
      let (t, ok) = alloc heap s in
      if s.loaded then (s, true) else if ok then (load t, true) else (t, false)

  -- The header, and the records where there are any: whether all of it was written.
  unfoldable pub write_image : Store F → Store F × Bool
  write_image s =
      let head = header s.list.n in
      let body = body_bytes (take s.list.n s.list.creds) in
      let (f, n) = fs.write wifi_tmp head s.files in
      let (g, m) = fs.write wifi_tmp body f in
      if not (n == length head)
      then (moved f s, false)
      else if s.list.n == 0
      then (moved f s, true)
      else (moved g (moved f s), m == length body)

  -- The temporary file takes the place of the other one.
  unfoldable pub replace_dat : Store F → Store F × Bool
  replace_dat s =
      let t = moved (fs.remove wifi_dat s.files).0 s in
      let (f, ok) = fs.rename wifi_tmp wifi_dat t.files in
      if ok then (record (moved f t) { cached_count = some s.list.n }, true) else (moved f t, false)

  unfoldable pub save : Store F → Store F × Bool
  unfolding write_image replace_dat
  save s =
      let (f, opened) = fs.create wifi_tmp s.files in
      let (t, ok) = write_image (moved f s) in
      let closed = moved (fs.close wifi_tmp t.files) t in
      if not opened
      then (moved f s, false)
      else if ok
      then replace_dat closed
      else (moved (fs.remove wifi_tmp closed.files).0 closed, false)

  -- After a failed save the list is read back, so that RAM never claims what flash lost.
  unfoldable pub persist : Store F → Outcome → Store F × Outcome
  unfolding save ensure_loaded
  persist s (counted n) =
      let (t, ok) = save s in
      if ok
      then (t, counted n)
      else ((ensure_loaded true (record t { loaded = false; cached_count = none })).0, list_err)
  persist s list_full = (s, list_full)
  persist s list_err = (s, list_err)

  -- The count of the header until the list is loaded.
  unfoldable pub header_count : Store F → Store F × ℕ
  unfolding adopt_stranded_tmp
  header_count s =
      let t = adopt_stranded_tmp s in
      let n = capped (found_count (fs.content t.files wifi_dat)) in
      (record t { cached_count = some n }, n)

  unfoldable pub count : Store F → Store F × ℕ
  unfolding header_count
  count s =
      let read = header_count s in
      if s.loaded then (s, s.list.n) else elim s.cached_count [ none ↦ read | some n ↦ (s, n) ]

  unfoldable pub upsert : Bool → Option Bytes → Option Bytes → Store F → Store F × Outcome
  unfolding ensure_loaded persist
  upsert heap ssid pass s =
      let (t, ok) = ensure_loaded heap s in
      let (l, r) = Networks.upsert t.list ssid pass in
      if ok then persist (record t { list = l }) r else (t, list_err)

  unfoldable pub remove : Bool → Option Bytes → Store F → Store F × Outcome
  unfolding ensure_loaded persist
  remove heap ssid s =
      let (t, ok) = ensure_loaded heap s in
      let (l, r) = Networks.remove t.list ssid in
      if ok then persist (record t { list = l }) r else (t, list_err)

  unfoldable pub clear : Bool → Store F → Store F × Bool
  unfolding ensure_loaded
  clear heap s =
      let (t, ok) = ensure_loaded heap s in
      let u = record (moved (fs.remove wifi_tmp t.files).0 t) { list = Networks.clear t.list } in
      let (f, removed) = fs.remove wifi_dat u.files in
      if not ok
      then (t, false)
      else if exists u wifi_dat
      then (record (moved f u) { cached_count = some 0 }, removed)
      else (record u { cached_count = some 0 }, true)

  -- The store's list could not be loaded: no names.
  unfoldable pub format : Bool → ℕ → Store F → Store F × Bytes × ℕ
  unfolding ensure_loaded
  format heap out_len s =
      let (t, ok) = ensure_loaded heap s in
      let (text, emitted) = format_ssids t.list out_len in
      if ok then (t, text, emitted) else (t, [], 0)

  abbrev pub drop_keys : Bool → Store F → Store F
  drop_keys writable s =
      if writable
      then record s { legacy = record { exists = true; ssid = none; pass = none } }
      else s

  -- The network of older firmware: a failed save is tried again at the next boot, and a network
  -- that the list refuses is shed.
  unfoldable pub import_legacy : Bool → Bytes → Bytes → Store F → Store F × Bool
  unfolding ensure_loaded save
  import_legacy heap ssid pass s =
      let (t, ok) = ensure_loaded heap s in
      let (l, r) = Networks.upsert t.list (some ssid) (some pass) in
      if not (non_empty ssid)
      then (s, true)
      else if ok
      then elim r [ counted n ↦ save (record t { list = l }) | _ ↦ (t, true) ]
      else (t, false)

  -- `writable` says whether the namespace opens for writing.
  unfoldable pub init : Bool → Bool → Store F → Store F
  unfolding import_legacy
  init heap writable s =
      let ssid = get_string s.legacy.ssid 33 in
      let pass = get_string s.legacy.pass 65 in
      let (t, shed) = import_legacy heap ssid pass s in
      if not (s.legacy.exists && is_some s.legacy.ssid)
      then s
      else if shed
      then drop_keys writable t
      else t
