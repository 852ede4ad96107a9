-- ===== src/Proto/Heartbeat.antt =====
-- The heartbeat of protocol v1, with the optional members of v2 (src/proto_parse.h).
use sticks3_buddy.Prelude.{
  ℕ, zero, suc, ◌+◌, ◌-◌, Bool, false, not, ◌&&◌, ◌||◌, none, some, List, [], ◌∷◌, ltb, leb, ◌==◌,
  if◌then◌else◌, length, get_or, set, u8, u16, u32, u32_mod, pos, negsuc, clamp_int, Bytes, codes,
  bytes_eq, strncpy,
}
use sticks3_buddy.Text.Utf8.{sanitize}
use sticks3_buddy.Proto.Json.{Json}
use sticks3_buddy.Proto.Device.{Device, Wire}
use sticks3_buddy.Proto.State.{TamaState, prompt_clear, v2}
use sticks3_buddy.Proto.Reply.{text_or, maybe_rxack}
use sticks3_buddy.Proto.Events.{ingest_sessions}

-- How many of the oldest entries are left out: the count is a uint8_t.
abbrev pub skipped : ℕ → ℕ
skipped size = u8 size - 8

-- n != out->nLines || (n > 0 && strcmp(out->lines[n-1], out->msg) != 0)
abbrev pub lines_changed : TamaState → List Bytes → ℕ → Bool
lines_changed t lines n =
    not (n == t.n_lines) || (ltb 0 n && not (bytes_eq (get_or lines (n - 1) []) t.msg))

unfoldable pub show_entries : TamaState → List Bytes × ℕ × Bool → TamaState × Bool
show_entries t (lines, n, over) = (
  record t {
    lines = lines;
    line_gen = if lines_changed t lines n then u16 (t.line_gen + 1) else t.line_gen;
    n_lines = n;
  },
  over,
)

module _ {V : Type 0} (json : Json V) where
  -- for (JsonVariant v : la): the rows, their number, and whether a write has gone past the array.
  unfoldable pub entries_loop : List V → ℕ → List Bytes → ℕ → Bool → List Bytes × ℕ × Bool
  entries_loop [] skip lines n over = (lines, n, over)
  entries_loop (v ∷ vs) (suc skip) lines n over = entries_loop vs skip lines n over
  entries_loop (v ∷ vs) zero lines n over =
      entries_loop vs zero (set lines n (sanitize 92 (some (text_or json v)))) (u8 (n + 1))
        (over || leb 8 n)

  unfoldable pub entries : V → TamaState → TamaState × Bool
  entries la t =
      if json.is_array la
      then show_entries t
          (entries_loop (json.items la) (skipped (length (json.items la))) t.lines 0 false)
      else (t, false)

  -- The counters and the message; `completed` falls back to false, the others to what they were.
  unfoldable pub counters : V → TamaState → TamaState
  counters doc t = record t {
    sessions_total = json.u8_or (json.member doc (codes "total")) t.sessions_total;
    sessions_running = json.u8_or (json.member doc (codes "running")) t.sessions_running;
    sessions_waiting = json.u8_or (json.member doc (codes "waiting")) t.sessions_waiting;
    recently_completed = json.bool_or (json.member doc (codes "completed")) false;
    tokens_today = json.u32_or (json.member doc (codes "tokens_today")) t.tokens_today;
    msg = elim (json.str (json.member doc (codes "msg"))) [
      | none ↦ t.msg
      | some m ↦ sanitize 24 (some m)
    ];
  }

  -- The prompt that an object names.
  unfoldable pub prompt_of : V → TamaState → TamaState
  prompt_of pr t = record t {
    prompt_id = strncpy 40 (text_or json (json.member pr (codes "id")));
    prompt_tool = sanitize 20 (some (text_or json (json.member pr (codes "tool"))));
    prompt_hint = sanitize 44 (some (text_or json (json.member pr (codes "hint"))));
    prompt_sid = strncpy 12 (text_or json (json.member pr (codes "sid")));
    prompt_qn = clamp_int 0 9 (json.int_or (json.member pr (codes "qn")) (pos 0));
  }

  unfoldable pub prompt : V → TamaState → TamaState
  prompt doc t =
      let pr = json.member doc (codes "prompt") in
      if json.is_object pr then prompt_of pr t else prompt_clear t

  -- uint32_t bridgeTokens = doc["tokens"] | 0, read as an int.
  abbrev pub bridge_tokens : V → ℕ
  bridge_tokens tok = elim (json.int_or tok (pos 0)) [
    | pos n ↦ u32 n
    | negsuc n ↦ u32_mod - 1 - u32 n
  ]

module _ {V D : Type 0} (json : Json V) where
  -- The list of sessions, ignored before the hello.
  unfoldable pub sessions_of : V → Wire D → Wire D
  sessions_of doc w =
      let sa = json.member doc (codes "sessions") in
      if v2 w.ps && json.is_array sa
      then record w { sessions = ingest_sessions json sa w.sessions }
      else w

  unfoldable pub entries_of : V → Wire D → Wire D
  entries_of doc w =
      let (t, over) = entries json (json.member doc (codes "entries")) w.tama in
      record w { tama = t; overrun = w.overrun || over }

module _ {V D : Type 0} (json : Json V) (dev : Device V D) where
  unfoldable pub count_tokens : V → D → D
  count_tokens doc d =
      let tok = json.member doc (codes "tokens") in
      if json.is_u32 tok then dev.tokens (bridge_tokens json tok) d else d

  -- The end of the parse: the prompt, or none, and the time.
  unfoldable pub finish : V → Wire D → Wire D
  finish doc w =
      maybe_rxack dev
        (record w { tama = record (prompt json doc w.tama) { last_updated = dev.millis w.dev } })

  -- The parse of a state line, from the counters on.
  unfoldable pub heartbeat : V → Wire D → Wire D
  unfolding finish
  heartbeat doc w = finish doc (
      sessions_of json doc (
        entries_of json doc
          (record w { tama = counters json doc w.tama; dev = count_tokens doc w.dev })))
