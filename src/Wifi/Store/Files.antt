-- ===== src/Wifi/Store/Files.antt =====
-- What the network store uses of the file system (LittleFS): its two files, and the documented
-- effect of each call. A call that fails says so and changes nothing that a reader sees.
use sticks3_buddy.Prelude.{
  ℕ, ◌≡◌, Bool, true, Option, none, some, [], ◌++◌, if◌then◌else◌, length, Bytes,
}

-- /wifi.dat and /wifi.tmp
pub data FilePath : Type 0 where
  wifi_dat wifi_tmp : FilePath

pub record FileSystem (F : Type 0) : Type 0 where
  -- What a file that opens for reading holds; `none` where it does not exist.
  pub content : F → FilePath → Option Bytes
  -- open(path, "w"), write, close; what has been written to the open file is not visible before
  -- it is closed.
  pub create : FilePath → F → F × Bool
  pub write : FilePath → Bytes → F → F × ℕ
  pub close : FilePath → F → F
  pub pending : F → Bytes
  pub remove : FilePath → F → F × Bool
  pub rename : FilePath → FilePath → F → F × Bool

-- The calls on the temporary file leave the other one alone, and a closed file holds what was
-- written; a removal and a rename do what they say or nothing.
pub record Laws {F : Type 0} (fs : FileSystem F) : Type 0 where
  pub create_keeps : (f : F) → fs.content (fs.create wifi_tmp f).0 wifi_dat ≡ fs.content f wifi_dat
  pub write_keeps :
      (b : Bytes) (f : F) → fs.content (fs.write wifi_tmp b f).0 wifi_dat ≡ fs.content f wifi_dat
  pub close_keeps : (f : F) → fs.content (fs.close wifi_tmp f) wifi_dat ≡ fs.content f wifi_dat
  pub remove_keeps : (f : F) → fs.content (fs.remove wifi_tmp f).0 wifi_dat ≡ fs.content f wifi_dat
  pub create_empty :
      (f : F) → (fs.create wifi_tmp f).1 ≡ true → fs.pending (fs.create wifi_tmp f).0 ≡ []
  pub write_appends :
      (b : Bytes) (f : F)
      → (fs.write wifi_tmp b f).1 ≡ length b
      → fs.pending (fs.write wifi_tmp b f).0 ≡ fs.pending f ++ b
  pub close_commits : (f : F) → fs.content (fs.close wifi_tmp f) wifi_tmp ≡ some (fs.pending f)
  pub remove_dat :
      (f : F)
      → fs.content (fs.remove wifi_dat f).0 wifi_dat
        ≡ (if (fs.remove wifi_dat f).1 then none else fs.content f wifi_dat)
  pub remove_dat_keeps :
      (f : F) → fs.content (fs.remove wifi_dat f).0 wifi_tmp ≡ fs.content f wifi_tmp
  pub rename_moves :
      (f : F)
      → fs.content (fs.rename wifi_tmp wifi_dat f).0 wifi_dat ≡ (
          if (fs.rename wifi_tmp wifi_dat f).1
          then fs.content f wifi_tmp
          else fs.content f wifi_dat)
  pub rename_frees :
      (f : F)
      → fs.content (fs.rename wifi_tmp wifi_dat f).0 wifi_tmp
        ≡ (if (fs.rename wifi_tmp wifi_dat f).1 then none else fs.content f wifi_tmp)
