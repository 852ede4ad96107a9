-- ===== src/Ntfy.antt =====
-- The ring of notification cards (src/proto_parse.h, `NtfyStore`).
mod Ring
mod Examples
use sticks3_buddy.Prelude.{
  ℕ, zero, suc, ◌+◌, ◌-◌, ◌%◌, Bool, true, false, Option, none, some, List, [], ltb, leb, ◌==◌,
  if◌then◌else◌, or_else, get_or, set, replicate, add32, Bytes, copy_loop,
}
use sticks3_buddy.Text.Utf8.{sanitize}

pub record NtfyCard : Type 0 where
  pub kind : Bytes
  pub title : Bytes
  pub body : Bytes
  pub ts : ℕ

abbrev pub no_card : NtfyCard
no_card = record { kind = []; title = []; body = []; ts = 0 }

pub record NtfyStore : Type 0 where
  pub card : List NtfyCard
  pub head : ℕ
  pub count : ℕ
  pub unread : ℕ
  pub total : ℕ

-- The static store, zeroed.
unfoldable pub init : NtfyStore
init = record { card = replicate 4 no_card; head = 0; count = 0; unread = 0; total = 0 }

-- A null text is stored as the empty one.
unfoldable pub new_card : Option Bytes → Option Bytes → Option Bytes → ℕ → NtfyCard
new_card kind title body ts = record {
  kind = sanitize 8 (some (or_else kind []));
  title = sanitize 36 (some (or_else title []));
  body = sanitize 72 (some (or_else body []));
  ts = ts;
}

unfoldable pub push : NtfyStore → Option Bytes → Option Bytes → Option Bytes → ℕ → NtfyStore
push n kind title body ts = record {
  card = set n.card n.head (new_card kind title body ts);
  head = (n.head + 1) % 4;
  count = if ltb n.count 4 then n.count + 1 else n.count;
  unread = if ltb n.unread 4 then n.unread + 1 else n.unread;
  total = add32 n.total 1;
}

-- 0 is the newest card; a null pointer is `none`.
unfoldable pub card_at : NtfyStore → ℕ → Option NtfyCard
card_at n view_idx =
    if leb n.count view_idx
    then none
    else some (get_or n.card ((n.head + 3 - view_idx) % 4) no_card)

-- The slot of the i-th oldest card.
abbrev pub phys : NtfyStore → ℕ → ℕ
phys n i = (n.head + 4 - n.count + i) % 4

-- One round of the copy, oldest to newest: the scratch array and how many cards it holds.
unfoldable pub keep : NtfyStore → ℕ → ℕ → List NtfyCard → ℕ → List NtfyCard × ℕ
keep n view_idx i tmp k =
    if n.count - 1 - i == view_idx
    then (tmp, k)
    else (set tmp k (get_or n.card (phys n i) no_card), k + 1)

unfoldable pub keep_loop : ℕ → ℕ → NtfyStore → ℕ → List NtfyCard → ℕ → List NtfyCard × ℕ
keep_loop zero i n view_idx tmp k = (tmp, k)
keep_loop (suc rounds) i n view_idx tmp k =
    let (tmp', k') = keep n view_idx i tmp k in keep_loop rounds (suc i) n view_idx tmp' k'

-- The cards that are left go back to the front, and the head follows them.
unfoldable pub repack : NtfyStore → List NtfyCard × ℕ → NtfyStore
repack n (tmp, k) = record n {
  card = copy_loop k 0 n.card tmp no_card;
  count = k;
  head = k;
  unread = if ltb k n.unread then k else n.unread;
}

-- The scratch array starts out unset; only the entries that are written are read.
unfoldable pub dismiss : NtfyStore → ℕ → NtfyStore × Bool
dismiss n view_idx =
    if leb n.count view_idx
    then (n, false)
    else (repack n (keep_loop n.count 0 n view_idx (replicate 4 no_card) 0), true)
