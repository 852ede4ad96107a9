-- ===== src/Wifi/Store/Examples.antt =====
-- The network store at concrete inputs, on a file system in memory.
use sticks3_buddy.Prelude.{
  ℕ, ◌-◌, ◌≡◌, refl, Bool, true, false, not, ◌&&◌, Option, none, some, [], ◌∷◌, ◌++◌, arith, leb,
  if◌then◌else◌, is_some, length, Bytes, codes,
}
use sticks3_buddy.Wifi.Networks.{WifiCred, WifiList, no_cred}
use sticks3_buddy.Wifi.Store.Files.{FilePath, wifi_dat, wifi_tmp, FileSystem}
use sticks3_buddy.Wifi.Store.{Store, save, write_image, replace_dat}
use sticks3_buddy.Wifi.Store.Format.{image, read_list, header, body_bytes, cred_bytes}
use sticks3_buddy.Wifi.Store.Codec.{IsStorable, entries, entries-read_list}

-- The two files, what has been written to the open one, and the room that is left for writes.
pub record Memory : Type 0 where
  pub dat : Option Bytes
  pub tmp : Option Bytes
  pub open_file : Bytes
  pub room : ℕ

abbrev content : Memory → FilePath → Option Bytes
content f wifi_dat = f.dat
content f wifi_tmp = f.tmp

abbrev append : FilePath → Bytes → Memory → Memory × ℕ
append p b f =
    if leb (length b) f.room
    then (record f { open_file = f.open_file ++ b; room = f.room - length b }, length b)
    else (f, 0)

abbrev remove_file : FilePath → Memory → Memory × Bool
remove_file wifi_dat f = (record f { dat = none }, is_some f.dat)
remove_file wifi_tmp f = (record f { tmp = none }, is_some f.tmp)

abbrev move_file : FilePath → FilePath → Memory → Memory × Bool
move_file from to f =
    if is_some f.tmp && not (is_some f.dat)
    then (record f { dat = f.tmp; tmp = none }, true)
    else (f, false)

abbrev memory : FileSystem Memory
memory = record {
  content = content;
  create = λ p f. (record f { open_file = [] }, true);
  write = append;
  close = λ p f. record f { tmp = some f.open_file };
  pending = λ f. f.open_file;
  remove = remove_file;
  rename = move_file;
}

abbrev home : WifiCred
home = record { ssid = codes "home"; pass = codes "secret" }

abbrev lab : WifiCred
lab = record { ssid = codes "lab"; pass = [] }

abbrev one_net : WifiList
one_net = record { creds = home ∷ no_cred ∷ []; n = 1; cap = 2 }

abbrev two_nets : WifiList
two_nets = record { creds = home ∷ lab ∷ []; n = 2; cap = 2 }

two_nets-IsStorable : IsStorable two_nets
two_nets-IsStorable = record { small = omega arith; backed = omega arith; stored = ground arith }

-- The list has grown by a network that the file does not have yet.
abbrev store : ℕ → Store Memory
store room = record {
  list = two_nets;
  allocated = true;
  loaded = true;
  cached_count = some 1;
  legacy = record { exists = false; ssid = none; pass = none };
  files = record { dat = some (image one_net); tmp = none; open_file = []; room = room };
  past = [];
}

save_runs : (save memory (store 1000)).1 ≡ true
unfolding save write_image replace_dat header body_bytes cred_bytes
save_runs = refl

-- With no room for the records the save fails.
save_full_runs : (save memory (store 100)).1 ≡ false
unfolding save write_image replace_dat header body_bytes cred_bytes
save_full_runs = refl

entries-read_list_example : entries (read_list (image two_nets) one_net) ≡ entries two_nets
entries-read_list_example = entries-read_list two_nets one_net two_nets-IsStorable
