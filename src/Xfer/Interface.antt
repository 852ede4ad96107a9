-- ===== src/Xfer/Interface.antt =====
-- What the file transfer (src/xfer.h) calls: the file system (LittleFS), the base64 decoder, the two
-- streams that a reply goes to, and the pet.
use sticks3_buddy.Prelude.{take, ℕ, ◌≡◌, Bool, true, Option, List, [], ◌∷◌, ◌++◌, ℤ, Bytes}

-- A file or directory, as openNextFile delivers it.
pub record Entry : Type 0 where
  pub name : Bytes
  pub size : ℕ
  pub is_directory : Bool

-- What the status reply shows.
pub record Status : Type 0 where
  pub name : Bytes
  pub owner : Bytes
  pub secure : Bool
  pub percent : ℤ
  pub battery_mv : ℤ
  pub battery_ma : ℤ
  pub bus_mv : ℤ
  pub up_seconds : ℕ
  pub heap : ℕ
  pub fs_used : ℕ
  pub fs_total : ℕ
  pub approvals : ℕ
  pub denials : ℕ
  pub velocity : ℕ
  pub nap_seconds : ℕ
  pub level : ℕ

pub record Board (D : Type 0) : Type 0 where
  -- _xAck writes to both streams.
  pub reply : Bytes → D → D
  pub status : D → Status
  -- LittleFS: a directory that opens, its entries, and the calls on paths.
  pub is_directory : Bytes → D → Bool
  pub entries : Bytes → D → List Entry
  pub mkdir : Bytes → D → D
  pub rmdir : Bytes → D → D
  pub remove : Bytes → D → D
  pub create : Bytes → D → D × Bool
  -- How many bytes were written: fewer where the file system is full.
  pub write : Bytes → Bytes → D → D × ℕ
  pub close : Bytes → D → D
  -- mbedtls_base64_decode into a buffer of that size: `none` is an error.
  pub base64_decode : ℕ → Bytes → Option Bytes
  -- The pet and its character.
  pub character_close : D → D
  pub character_init : Bytes → D → D × Bool
  pub pet_name_set : Bytes → D → D
  pub owner_set : Bytes → D → D
  pub species_idx_save : ℕ → D → D
  pub set_species_idx : ℕ → D → D
  pub gif_available : D → Bool
  pub set_gif_available : Bool → D → D
  pub set_buddy_mode : Bool → D → D
  pub remove_current_bond : D → D

-- The documented behaviour of the file system and of the streams that a transfer relies on, over
-- what a file holds and what has been sent, the newest line first.
pub record Laws {D : Type 0} (board : Board D) (content : Bytes → D → Bytes) (sent : D → List Bytes)
    : Type 0 where
  pub create_empties :
      (p : Bytes) (d : D) → (board.create p d).1 ≡ true → content p (board.create p d).0 ≡ []
  pub write_appends :
      (p b : Bytes) (d : D)
      → content p (board.write p b d).0 ≡ content p d ++ take (board.write p b d).1 b
  pub close_keeps : (p : Bytes) (d : D) → content p (board.close p d) ≡ content p d
  pub reply_keeps : (p line : Bytes) (d : D) → content p (board.reply line d) ≡ content p d
  pub reply_sends : (line : Bytes) (d : D) → sent (board.reply line d) ≡ line ∷ sent d
  pub create_silent : (p : Bytes) (d : D) → sent (board.create p d).0 ≡ sent d
  pub write_silent : (p b : Bytes) (d : D) → sent (board.write p b d).0 ≡ sent d
  pub close_silent : (p : Bytes) (d : D) → sent (board.close p d) ≡ sent d
