-- ===== src/Wifi/Store/PowerCut.antt =====
-- The saves of the network store against power cuts and failed writes.
use sticks3_buddy.Prelude.{
  ℕ, ◌≡◌, refl, sym, ap, ◌∙◌, ◌⊎◌, Bool, true, false, not, ◌&&◌, Option, none, some, List, [], ◌++◌,
  arith, ◌==◌, if◌then◌else◌, if_split, ==_iff, is_some, length, take, All, Bytes,
}
use mathlib.Core.List.{append-nil, append_assoc}
use sticks3_buddy.Wifi.Networks.{WifiCred, WifiList}
use sticks3_buddy.Wifi.Store.Files.{wifi_dat, wifi_tmp, FileSystem, Laws}
use sticks3_buddy.Wifi.Store.Format.{header, body_bytes, image}
use sticks3_buddy.Wifi.Store.Codec.{entries, IsStorable, entries-read_list}
use sticks3_buddy.Wifi.Store.{Store, moved, loaded_list, write_image, replace_dat, save}

-- The list before anything is loaded.
abbrev pub no_list : WifiList
no_list = record { creds = []; n = 0; cap = 0 }

module _ {F : Type 0} (fs : FileSystem F) where
  -- What a boot finds in the file: a stranded temporary file is adopted first.
  abbrev pub boot_file : F → Option Bytes
  boot_file f =
      if not (is_some (fs.content f wifi_dat)) && is_some (fs.content f wifi_tmp)
      then fs.content (fs.rename wifi_tmp wifi_dat f).0 wifi_dat
      else fs.content f wifi_dat

  -- The networks that a boot loads.
  abbrev pub booted : F → List WifiCred
  booted f = entries (loaded_list (boot_file f) no_list)

  -- A boot cannot rename the temporary file, which holds this image and goes on holding it.
  abbrev pub Waits : F → Bytes → Type 0
  Waits f b =
      let (g, ok) = fs.rename wifi_tmp wifi_dat f in
      (ok ≡ false) × (fs.content g wifi_dat ≡ none) × (fs.content g wifi_tmp ≡ some b)

module _ {F : Type 0} (fs : FileSystem F) (laws : Laws fs) where
  pub boot_file-dat : (f : F) (b : Bytes) → fs.content f wifi_dat ≡ some b → boot_file fs f ≡ some b
  boot_file-dat f b e = rw e refl

  module _ (old new : Bytes) where
    -- The flash holds the old file, or the new one under either name.
    abbrev pub Survives : F → Type 0
    Survives f =
        (fs.content f wifi_dat ≡ some old)
        ⊎ ((fs.content f wifi_dat ≡ some new)
            ⊎ ((fs.content f wifi_dat ≡ none) × (fs.content f wifi_tmp ≡ some new)))

    -- The old file is in place, and every state so far survives.
    abbrev OnOld : Store F → Type 0
    OnOld s = (fs.content s.files wifi_dat ≡ some old) × All Survives s.past

    abbrev AllSurvive : Store F × Bool → Type 0
    AllSurvive r = Survives r.0.files × All Survives r.0.past

  -- A whole image in the open file, if every write was.
  abbrev Written : Store F → Store F × Bool → Type 0
  Written s r =
      (r.0.list ≡ s.list) × (r.1 ≡ true → fs.pending r.0.files ≡ fs.pending s.files ++ image s.list)

  write_image-Written : (s : Store F) → Written s (write_image fs s)
  unfolding write_image
  write_image-Written s =
      if_split (Written s) (not (headed.1 == length (header s.list.n))) (λ e. (refl, λ h. cc h))
        (λ e.
          if_split (Written s) (s.list.n == 0)
            (λ z. (refl, λ h. headed_whole e ∙ ap (λ b. fs.pending s.files ++ b) (no_body z)))
            (λ z. (refl, λ h. two e h)))
    where
      headed : F × ℕ
      headed = fs.write wifi_tmp (header s.list.n) s.files

      body : Bytes
      body = body_bytes (take s.list.n s.list.creds)

      headed_whole :
          not (headed.1 == length (header s.list.n)) ≡ false
          → fs.pending headed.0 ≡ fs.pending s.files ++ header s.list.n
      headed_whole e = laws.write_appends (header s.list.n) s.files (ground (arith, e))

      no_body : (s.list.n == 0) ≡ true → header s.list.n ≡ image s.list
      no_body z = sym (
          ap (λ n. header s.list.n ++ body_bytes (take n s.list.creds)) ((==_iff s.list.n 0).0 z)
          ∙ (unfold body_bytes in append-nil (header s.list.n)))

      two :
          not (headed.1 == length (header s.list.n)) ≡ false
          → ((fs.write wifi_tmp body headed.0).1 == length body) ≡ true
          → fs.pending (fs.write wifi_tmp body headed.0).0 ≡ fs.pending s.files ++ image s.list
      two e h =
          laws.write_appends body headed.0 ((==_iff _ _).0 h)
          ∙ ap (λ b. b ++ body) (headed_whole e)
          ∙ append_assoc (fs.pending s.files) (header s.list.n) body

  -- The states of a save: the file is created, written and closed.
  abbrev opened : Store F → Store F
  opened s = moved fs (fs.create wifi_tmp s.files).0 s

  abbrev closed : Store F → Store F
  closed s = let t = (write_image fs (opened s)).0 in moved fs (fs.close wifi_tmp t.files) t

  closed_tmp :
      (s : Store F)
      → not (fs.create wifi_tmp s.files).1 ≡ false
      → (write_image fs (opened s)).1 ≡ true
      → fs.content (closed s).files wifi_tmp ≡ some (image s.list)
  closed_tmp s e ok =
      laws.close_commits (write_image fs (opened s)).0.files
      ∙ ap some (
          (write_image-Written (opened s)).1 ok
          ∙ ap (λ b. b ++ image s.list) (laws.create_empty s.files (ground (arith, e))))

  -- A save that succeeds has the new file in place.
  abbrev Placed : Bytes → Store F × Bool → Type 0
  Placed new r = r.1 ≡ true → fs.content r.0.files wifi_dat ≡ some new

  replace_dat-Placed :
      (s : Store F) (new : Bytes)
      → fs.content s.files wifi_tmp ≡ some new
      → Placed new (replace_dat fs s)
  unfolding replace_dat
  replace_dat-Placed s new t =
      if_split (Placed new) (fs.rename wifi_tmp wifi_dat gone).1
        (λ ok h. laws.rename_moves gone ∙ rw ok (laws.remove_dat_keeps s.files ∙ t)) (λ bad h. cc h)
    where
      gone : F
      gone = (fs.remove wifi_dat s.files).0

  pub save-Placed : (s : Store F) → Placed (image s.list) (save fs s)
  unfolding save
  save-Placed s =
      if_split (Placed (image s.list)) (not (fs.create wifi_tmp s.files).1) (λ e h. cc h)
        (λ e.
          if_split (Placed (image s.list)) (write_image fs (opened s)).1
            (λ ok. replace_dat-Placed (closed s) (image s.list) (closed_tmp s e ok))
            (λ bad h. cc h))

  pub booted-image :
      (f : F) (l : WifiList)
      → IsStorable l
      → boot_file fs f ≡ some (image l)
      → booted fs f ≡ entries l
  booted-image f l v e = ap (λ b. entries (loaded_list b no_list)) e ∙ entries-read_list l no_list v
