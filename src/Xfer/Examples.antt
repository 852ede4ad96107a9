-- ===== src/Xfer/Examples.antt =====
-- A transfer at concrete inputs.
use sticks3_buddy.Prelude.{
  length, take_of_length_le, ap, sym, ◌∙◌, ◌≡◌, refl, true, false, none, some, List, [], ◌∷◌, ◌++◌,
  arith, ltb, if◌then◌else◌, if_true, pos, negsuc, Bytes, codes, bytes_eq, bytes_eq_refl,
}
use sticks3_buddy.Proto.Sample.{Value, text, number, object, field, tree}
use sticks3_buddy.Proto.Sample
use sticks3_buddy.Xfer.Interface.{Board, Laws}
use sticks3_buddy.Xfer.{Xfer, ack, full_path, xfer_command, command, transfer_command}
use sticks3_buddy.Xfer.Chunks.{stored, joined, chunk_acks, run}
use sticks3_buddy.Xfer.Arrival.{file-Arrives}

-- A flash that holds files under their paths, and the lines that have been sent.
pub record Flash : Type 0 where
  pub files : Bytes → Bytes
  pub sent : List Bytes

abbrev put : Bytes → Bytes → Flash → Flash
put p b d = record d { files = λ q. if bytes_eq q p then b else d.files q }

-- A text stands for its own decoding.
abbrev flash : Board Flash
flash = record {
  reply = λ line d. record d { sent = line ∷ d.sent };
  status = λ d. record {
    name = codes "Buddy";
    owner = codes "Ann";
    secure = true;
    percent = pos 80;
    battery_mv = pos 4000;
    battery_ma = negsuc 9;
    bus_mv = pos 5000;
    up_seconds = 60;
    heap = 100000;
    fs_used = 8192;
    fs_total = 65536;
    approvals = 1;
    denials = 0;
    velocity = 3;
    nap_seconds = 0;
    level = 2;
  };
  is_directory = λ p d. true;
  entries = λ p d. [];
  mkdir = λ p d. d;
  rmdir = λ p d. d;
  remove = λ p d. d;
  create = λ p d. (put p [] d, true);
  write = λ p b d. (put p (d.files p ++ b) d, length b);
  close = λ p d. d;
  base64_decode = λ size t. if ltb size (length t) then none else some t;
  character_close = λ d. d;
  character_init = λ name d. (d, true);
  pet_name_set = λ n d. d;
  owner_set = λ n d. d;
  species_idx_save = λ i d. d;
  set_species_idx = λ i d. d;
  gif_available = λ d. true;
  set_gif_available = λ on d. d;
  set_buddy_mode = λ on d. d;
  remove_current_bond = λ d. d;
}

put_here : (p b : Bytes) (d : Flash) → (put p b d).files p ≡ b
put_here p b d = if_true (bytes_eq p p) b (d.files p) (bytes_eq_refl p)

flash-Laws : Laws flash (λ p d. d.files p) (λ d. d.sent)
flash-Laws = record {
  create_empties = λ p d o. put_here p [] d;
  write_appends = λ p b d.
      put_here p (d.files p ++ b) d
      ∙ ap (λ t. d.files p ++ t) (sym (take_of_length_le (length b) b (omega arith)));
  close_keeps = λ p d. refl;
  reply_keeps = λ p line d. refl;
  reply_sends = λ line d. refl;
  create_silent = λ p d. refl;
  write_silent = λ p b d. refl;
  close_silent = λ p d. refl;
}

abbrev begun : Xfer Flash
begun = record {
  file = none;
  expected = 0;
  written = 0;
  char_name = codes "bufo";
  active = true;
  total = 0;
  total_written = 0;
  overread = false;
  dev = record { files = λ p. []; sent = [] };
}

abbrev command_of : Bytes → Sample.Members → Value
command_of cmd rest = object (field (codes "cmd") (text cmd) rest)

abbrev opening : Value
opening =
    command_of (codes "file") (
      field (codes "path") (text (codes "idle.gif")) (field (codes "size") (number 5) Sample.close))

abbrev chunk_of : Bytes → Value
chunk_of d = command_of (codes "chunk") (field (codes "d") (text d) Sample.close)

abbrev ending : Value
ending = command_of (codes "file_end") Sample.close

abbrev chunk_lines : List Value
chunk_lines = chunk_of (codes "abc") ∷ (chunk_of (codes "de") ∷ [])

abbrev chunks : List Bytes
chunks = codes "abc" ∷ (codes "de" ∷ [])

abbrev idle_gif : Bytes
idle_gif = full_path (codes "bufo") (codes "idle.gif")

file-Arrives_example :
    let y = run tree flash (opening ∷ (chunk_lines ++ (ending ∷ []))) begun in
    (y.dev.files idle_gif
      ≡ stored tree flash idle_gif chunk_lines chunks (xfer_command tree flash opening begun).0)
    × (y.dev.sent
        ≡ ack (codes "file_end") true 5 ∷ chunk_acks 0 chunks (ack (codes "file") true 0 ∷ []))
    × (y.file ≡ none)
unfolding joined bytes_eq
file-Arrives_example =
    file-Arrives tree flash (λ p d. d.files p) (λ d. d.sent) flash-Laws opening ending chunk_lines
      chunks (codes "idle.gif") begun refl refl
      ((refl, (codes "abc", refl, refl)), ((refl, (codes "de", refl, refl)), tt)) refl refl refl
      (omega arith) refl (omega arith)

-- Every write of this file system is whole.
stored_runs :
    stored tree flash idle_gif chunk_lines chunks (xfer_command tree flash opening begun).0
    ≡ codes "abcde"
unfolding stored
stored_runs = refl

-- A line that is no command of a transfer is taken as one while none has begun, and answered by
-- nothing; while one has begun it is left to the parse core.
unknown_runs :
    ((xfer_command tree flash
        (command_of (codes "dance") Sample.close)
        (record begun { active = false })).1
      ≡ true)
    × ((xfer_command tree flash (command_of (codes "dance") Sample.close) begun).1 ≡ false)
unfolding xfer_command command transfer_command bytes_eq
unknown_runs = (refl, refl)
