-- ===== src/Wifi/Store/Resync.antt =====
-- The list in RAM against the file, after a change that is saved or fails to be.
use sticks3_buddy.Prelude.{[], ◌≡◌, Bool, true, none, is_some}
use sticks3_buddy.Wifi.Store.Files.{wifi_dat, wifi_tmp, FileSystem, Laws}
use sticks3_buddy.Wifi.Store.Codec.{entries}
use sticks3_buddy.Wifi.Store.PowerCut.{booted}
use sticks3_buddy.Wifi.Store.{Store}

-- The next boot loads what the list in RAM holds.
abbrev pub Agrees : {F : Type 0} → FileSystem F → Store F → Type 0
Agrees fs s = booted fs s.files ≡ entries s.list

-- Nothing is loaded, and the only file is the temporary one, which could not be renamed.
abbrev pub Stranded : {F : Type 0} → FileSystem F → Store F → Type 0
Stranded fs s =
    (entries s.list ≡ [])
    × (fs.content s.files wifi_dat ≡ none)
    × (is_some (fs.content s.files wifi_tmp) ≡ true)

module _ {F : Type 0} (fs : FileSystem F) (laws : Laws fs) where
  -- A save changes neither the list nor its memory.
  abbrev Kept : Store F → Store F × Bool → Type 0
  Kept s r = (r.0.list ≡ s.list) × (r.0.allocated ≡ s.allocated)
