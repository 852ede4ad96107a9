-- ===== src/Sessions.antt =====
-- The session table of protocol v2 (src/session_table.h): the rows of the last heartbeat, the
-- selection cursor and the focus pin, both kept by session id.
pub mod Rows
mod Cursor
mod Pin
mod Examples
use sticks3_buddy.Prelude.{
  ℕ, ◌+◌, ◌-◌, ◌%◌, Bool, true, false, ◌&&◌, Option, none, some, List, [], ltb, ◌==◌, if◌then◌else◌,
  or_else, get_or, replicate, Bytes, codes, bytes_eq, non_empty, strncpy, first_index, copy_loop,
  fill_loop,
}

pub data SessionState : Type 0 where
  ses_idle ses_run ses_wait ses_done : SessionState

pub record Session : Type 0 where
  pub sid : Bytes
  pub agent : Bytes
  pub title : Bytes
  pub state : SessionState
  pub tok : ℕ
  pub last : Bytes

-- BUDDY_MAX_SESSIONS
abbrev pub max_sessions : ℕ
max_sessions = 6

-- sizeof(Session::sid), with its terminator
abbrev pub sid_cap : ℕ
sid_cap = 12

-- A row of zero bytes.
abbrev pub no_session : Session
no_session = record { sid = []; agent = []; title = []; state = ses_idle; tok = 0; last = [] }

pub record SessionTable : Type 0 where
  pub rows : List Session
  pub count : ℕ
  pub sel_sid : Bytes
  pub pin_sid : Bytes

-- memset of the rows; the selection and the pin survive.
unfoldable pub clear : SessionTable → SessionTable
clear t = record t { rows = replicate max_sessions no_session; count = 0 }

unfoldable pub reset : SessionTable
reset = record { rows = replicate max_sessions no_session; count = 0; sel_sid = []; pin_sid = [] }

unfoldable pub state_from_str : Option Bytes → SessionState
unfolding bytes_eq
state_from_str none = ses_idle
state_from_str (some s) =
    if bytes_eq s (codes "run")
    then ses_run
    else if bytes_eq s (codes "wait")
    then ses_wait
    else if bytes_eq s (codes "done")
    then ses_done
    else ses_idle

-- The list is clamped, copied in its order, and the rows behind it are zeroed.
unfoldable pub commit : SessionTable → List Session → ℕ → SessionTable
commit t rows n =
    let m = if ltb max_sessions n then max_sessions else n in
    record t {
      rows = fill_loop (max_sessions - m) m (copy_loop m 0 t.rows rows no_session) no_session;
      count = m;
    }

abbrev pub has_sid : Bytes → Session → Bool
has_sid sid s = bytes_eq s.sid sid

-- -1 is `none`, a null pointer too.
unfoldable pub find_sid : SessionTable → Option Bytes → Option ℕ
find_sid t none = none
find_sid t (some sid) =
    if non_empty sid then first_index (has_sid sid) t.count 0 t.rows no_session else none

unfoldable pub by_sid : SessionTable → Option Bytes → Option Session
by_sid t sid = elim (find_sid t sid) [ none ↦ none | some i ↦ some (get_or t.rows i no_session) ]

-- The row of the selected id; a stale or empty id falls back to row 0.
unfoldable pub sel_idx : SessionTable → Option ℕ
sel_idx t = if t.count == 0 then none else some (or_else (find_sid t (some t.sel_sid)) 0)

unfoldable pub pin_idx : SessionTable → Option ℕ
pin_idx t = find_sid t (some t.pin_sid)

-- Where there is a row, `sel_idx` is no -1: the 0 of `or_else` is not reached.
unfoldable pub select_next : SessionTable → SessionTable
select_next t = if t.count == 0 then t else record t {
  sel_sid = strncpy sid_cap (get_or t.rows ((or_else (sel_idx t) 0 + 1) % t.count) no_session).sid;
}

unfoldable pub toggle_at : SessionTable → Option ℕ → SessionTable × Bool
toggle_at t none = (record t { pin_sid = [] }, false)
toggle_at t (some cur) =
    let sid = (get_or t.rows cur no_session).sid in
    if non_empty t.pin_sid && bytes_eq t.pin_sid sid
    then (record t { pin_sid = [] }, false)
    else (record t { pin_sid = strncpy sid_cap sid }, true)

-- Pins the selected session, or unpins it; the flag says whether a pin is active.
unfoldable pub toggle_pin : SessionTable → SessionTable × Bool
unfolding toggle_at
toggle_pin t = toggle_at t (sel_idx t)
