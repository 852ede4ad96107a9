-- ===== src/Xfer.antt =====
-- The commands of src/xfer.h: the names, the status reply, and the transfer of a character file by
-- file, in chunks of base64.
use sticks3_buddy.Prelude.{
  ℕ, ◌+◌, ◌/◌, ◌%◌, Bool, true, false, not, ◌&&◌, ◌||◌, Option, none, some, List, [], ◌∷◌, ◌++◌,
  leb, ◌==◌, if◌then◌else◌, or_else, length, add32, sub32, ℤ, pos, negsuc, ltb_ℤ, decimal, Bytes,
  codes, bytes_eq, strncpy,
}
use sticks3_buddy.Clock.Time.{unsigned}
use sticks3_buddy.Proto.Json.{Json}
use sticks3_buddy.Proto.Reply.{snprintf, bool_text}
pub mod Interface
pub mod Chunks
pub mod Arrival
mod Examples
use sticks3_buddy.Xfer.Interface.{Entry, Status, Board}

-- The static variables of the file; `file` is the path of the open file. `overread` says that a
-- reply has been longer than its buffer, and what was sent past it is undefined in the source.
pub record Xfer (D : Type 0) : Type 0 where
  pub file : Option Bytes
  pub expected : ℕ
  pub written : ℕ
  pub char_name : Bytes
  pub active : Bool
  pub total : ℕ
  pub total_written : ℕ
  pub overread : Bool
  pub dev : D

unfoldable pub ack : Bytes → Bool → ℕ → Bytes
ack what ok n = snprintf 64 (
    codes "{\"ack\":\""
    ++ (what
        ++ (codes "\",\"ok\":"
            ++ (bool_text ok ++ (codes ",\"n\":" ++ (decimal n ++ (codes "}\n")))))))

-- %d
abbrev pub int_text : ℤ → Bytes
int_text (pos n) = decimal n
int_text (negsuc n) = codes "-" ++ decimal (n + 1)

unfoldable pub status_text : Status → Bytes
status_text s =
    codes "{\"ack\":\"status\",\"ok\":true,\"n\":0,\"data\":{\"name\":\""
    ++ (s.name
        ++ (codes "\",\"owner\":\""
            ++ (s.owner
                ++ (codes "\",\"sec\":"
                    ++ (bool_text s.secure
                        ++ (codes ",\"bat\":{\"pct\":"
                            ++ (int_text s.percent
                                ++ (codes ",\"mV\":"
                                    ++ (int_text s.battery_mv
                                        ++ (codes ",\"mA\":"
                                            ++ (int_text s.battery_ma
                                                ++ (codes ",\"usb\":"
                                                    ++ (bool_text (ltb_ℤ (pos 4000) s.bus_mv)
                                                        ++ (codes "},\"sys\":{\"up\":"
                                                            ++ (decimal s.up_seconds
                                                            ++ (codes ",\"heap\":"
                                                            ++ (decimal s.heap
                                                            ++ (codes ",\"fsFree\":"
                                                            ++ (decimal (sub32 s.fs_total s.fs_used)
                                                            ++ (codes ",\"fsTotal\":"
                                                            ++ (decimal s.fs_total
                                                            ++ (codes "},\"stats\":{\"appr\":"
                                                            ++ (decimal s.approvals
                                                            ++ (codes ",\"deny\":"
                                                            ++ (decimal s.denials
                                                            ++ (codes ",\"vel\":"
                                                            ++ (decimal s.velocity
                                                            ++ (codes ",\"nap\":"
                                                            ++ (decimal s.nap_seconds
                                                            ++ (codes ",\"lvl\":"
                                                            ++ (decimal s.level
                                                            ++ codes
                                                            "}}}\n")))))))))))))))))))))))))))))))

-- "/characters/<name>"
abbrev pub characters : Bytes
characters = codes "/characters"

abbrev pub in_characters : Bytes → Bytes
in_characters name = characters ++ (codes "/" ++ name)

abbrev pub full_path : Bytes → Bytes → Bytes
full_path char_name path = in_characters char_name ++ (codes "/" ++ path)

unfoldable pub sum_sizes : List Entry → ℕ → ℕ
sum_sizes [] acc = acc
sum_sizes (f ∷ fs) acc = sum_sizes fs (add32 acc f.size)

module _ {D : Type 0} (board : Board D) where
  unfoldable pub say : Bytes → Xfer D → Xfer D
  say line x = record x { dev = board.reply line x.dev }

  -- The files of a directory that is wiped: the bytes that they took.
  unfoldable pub wipe_files : Bytes → List Entry → D → D × ℕ
  wipe_files dir [] d = (d, 0)
  wipe_files dir (f ∷ fs) d =
      let (e, freed) =
        wipe_files dir fs (board.remove (snprintf 80 (dir ++ (codes "/" ++ f.name))) d) in
      (e, add32 f.size freed)

  unfoldable pub wipe_dir : Bytes → D → D × ℕ
  unfolding wipe_files
  wipe_dir dir d =
      let wiped = wipe_files dir (board.entries dir d) d in
      if board.is_directory dir d then wiped else (board.mkdir dir d, 0)

  unfoldable pub wipe_subs : List Entry → D → D × ℕ
  unfolding wipe_dir
  wipe_subs [] d = (d, 0)
  wipe_subs (s ∷ ss) d =
      let p = snprintf 64 (in_characters s.name) in
      let (e, freed) = wipe_dir p d in
      let gone = if s.is_directory then board.rmdir p e else d in
      let (g, more) = wipe_subs ss gone in (g, add32 (if s.is_directory then freed else 0) more)

  unfoldable pub wipe_all_chars : D → D × ℕ
  unfolding wipe_subs
  wipe_all_chars d =
      let wiped = wipe_subs (board.entries characters d) d in
      if board.is_directory characters d then wiped else (board.mkdir characters d, 0)

  -- The bytes that the wipe would free.
  unfoldable pub sum_subs : D → List Entry → ℕ → ℕ
  unfolding sum_sizes
  sum_subs d [] acc = acc
  sum_subs d (s ∷ ss) acc =
      let deeper = sum_sizes (board.entries (in_characters s.name) d) acc in
      sum_subs d ss (if s.is_directory then deeper else acc)

  unfoldable pub available : D → ℕ
  unfolding sum_subs
  available d =
      let reclaimable = sum_subs d (board.entries characters d) 0 in
      let free = sub32 (board.status d).fs_total (board.status d).fs_used in
      add32 free (if board.is_directory characters d then reclaimable else 0)

  abbrev pub fits : ℕ → ℕ → Bool
  fits total room = (total == 0) || leb (add32 total 4096) room

  unfoldable pub refusal : ℕ → ℕ → Bytes
  refusal total room = snprintf 96 (
      codes "{\"ack\":\"char_begin\",\"ok\":false,\"n\":"
      ++ (decimal room
          ++ (codes ",\"error\":\"need "
              ++ (decimal (total / 1024)
                  ++ (codes "K, have " ++ (decimal (room / 1024) ++ codes "K\"}\n"))))))

  unfoldable pub char_begin : Bytes → ℕ → Xfer D → Xfer D
  unfolding say available wipe_all_chars refusal ack
  char_begin name total x =
      let y = record x { total = total } in
      let room = available x.dev in
      let short = strncpy 24 name in
      let (d, freed) = wipe_all_chars (board.character_close x.dev) in
      let made = board.mkdir (snprintf 48 (in_characters short)) d in
      if fits total room
      then say (ack (codes "char_begin") true 0)
          (record y { char_name = short; dev = made; total_written = 0; active = true })
      else say (refusal total room) y

  -- The handle of a file that is still open is released.
  abbrev pub release : Option Bytes → D → D
  release none d = d
  release (some p) d = board.close p d

  unfoldable pub file : Option Bytes → ℕ → Xfer D → Xfer D
  unfolding say ack
  file none size x = say (ack (codes "file") false 0) (record x { expected = size; written = 0 })
  file (some path) size x =
      let y = record x { expected = size; written = 0 } in
      let full = full_path x.char_name path in
      let (d, opened) = board.create full x.dev in
      if leb 80 (length full)
      then say (ack (codes "file") false 0) y
      else say (ack (codes "file") opened 0)
          (record y { file = (if opened then some full else none); dev = release x.file d })

  -- A chunk for the open file. What write returns is not looked at.
  unfoldable pub store_chunk : Bytes → Option Bytes → Xfer D → Xfer D
  unfolding say ack
  store_chunk p none x = say (ack (codes "chunk") false 0) x
  store_chunk p (some bytes) x =
      let n = add32 x.written (length bytes) in
      say (ack (codes "chunk") true n) (record x {
        dev = (board.write p bytes x.dev).0;
        written = n;
        total_written = add32 x.total_written (length bytes);
      })

  -- A chunk that has data, for the file that is open.
  unfoldable pub chunk_for : Option Bytes → Bytes → Xfer D → Xfer D
  unfolding store_chunk say ack
  chunk_for none text x = say (ack (codes "chunk") false 0) x
  chunk_for (some p) text x = store_chunk p (board.base64_decode 300 text) x

  unfoldable pub chunk : Option Bytes → Xfer D → Xfer D
  unfolding chunk_for say ack
  chunk none x = say (ack (codes "chunk") false 0) x
  chunk (some text) x = chunk_for x.file text x

  unfoldable pub end_of : Option Bytes → Xfer D → Xfer D
  unfolding say ack
  end_of none x = say (ack (codes "file_end") false x.written) x
  end_of (some p) x =
      say (ack (codes "file_end") ((x.written == x.expected) || (x.expected == 0)) x.written)
        (record x { file = none; dev = board.close p x.dev })

  unfoldable pub file_end : Xfer D → Xfer D
  unfolding end_of
  file_end x = end_of x.file x

  unfoldable pub char_end : Xfer D → Xfer D
  unfolding say ack
  char_end x =
      let (d, ok) = board.character_init x.char_name x.dev in
      let shown =
        board.species_idx_save 255 (board.set_gif_available true (board.set_buddy_mode false d)) in
      say (ack (codes "char_end") ok 0)
        (record x { active = false; dev = (if ok then shown else d) })

  -- name and owner: stored where the line has one.
  unfoldable pub set_name : Bytes → (Bytes → D → D) → Option Bytes → Xfer D → Xfer D
  unfolding say ack
  set_name what store none x = say (ack what false 0) x
  set_name what store (some n) x = say (ack what true 0) (record x { dev = store n x.dev })

  unfoldable pub species : ℕ → Xfer D → Xfer D
  unfolding say ack
  species idx x =
      let d = board.species_idx_save idx x.dev in
      let buddy = not (board.gif_available d && (idx == 255)) in
      let e = board.set_buddy_mode buddy d in
      say (ack (codes "species") true 0)
        (record x { dev = (if buddy then board.set_species_idx idx e else e) })

  unfoldable pub unpair : Xfer D → Xfer D
  unfolding say ack
  unpair x = say (ack (codes "unpair") true 0) (record x { dev = board.remove_current_bond x.dev })

  unfoldable pub status : Xfer D → Xfer D
  unfolding say status_text
  status x =
      let text = status_text (board.status x.dev) in
      say (snprintf 320 text) (record x { overread = x.overread || leb 320 (length text) })

module _ {V D : Type 0} (json : Json V) (board : Board D) where
  abbrev pub text_of : V → Bytes → Option Bytes
  text_of doc key = json.str (json.member doc key)

  -- `doc[key] | 0`, an int that is kept as a uint32_t.
  abbrev pub number_of : V → Bytes → ℕ
  number_of doc key = unsigned (json.int_or (json.member doc key) (pos 0))

  -- The commands of a transfer that has begun.
  unfoldable pub transfer_command : Bytes → V → Xfer D → Xfer D × Bool
  unfolding file chunk file_end char_end
  transfer_command cmd doc x =
      if bytes_eq cmd (codes "file")
      then (file board (text_of doc (codes "path")) (number_of doc (codes "size")) x, true)
      else if bytes_eq cmd (codes "chunk")
      then (chunk board (text_of doc (codes "d")) x, true)
      else if bytes_eq cmd (codes "file_end")
      then (file_end board x, true)
      else if bytes_eq cmd (codes "char_end")
      then (char_end board x, true)
      else (x, false)

  unfoldable pub command : Option Bytes → V → Xfer D → Xfer D × Bool
  unfolding set_name species unpair status char_begin transfer_command
  command none doc x = (x, false)
  command (some cmd) doc x =
      if bytes_eq cmd (codes "name")
      then (set_name board (codes "name") board.pet_name_set (text_of doc (codes "name")) x, true)
      else if bytes_eq cmd (codes "species")
      then (
        species board (unsigned (json.int_or (json.member doc (codes "idx")) (pos 255)) % 256) x,
        true,
      )
      else if bytes_eq cmd (codes "unpair")
      then (unpair board x, true)
      else if bytes_eq cmd (codes "owner")
      then (set_name board (codes "owner") board.owner_set (text_of doc (codes "name")) x, true)
      else if bytes_eq cmd (codes "status")
      then (status board x, true)
      else if bytes_eq cmd (codes "char_begin")
      then (
        char_begin board (or_else (text_of doc (codes "name")) (codes "pet"))
            (number_of doc (codes "total")) x,
        true,
      )
      else if not x.active
      then (x, not (bytes_eq cmd (codes "permission")))
      else transfer_command cmd doc x

  -- xferCommand
  unfoldable pub xfer_command : V → Xfer D → Xfer D × Bool
  unfolding command
  xfer_command doc x = command (text_of doc (codes "cmd")) doc x
