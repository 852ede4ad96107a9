-- ===== src/Proto/Events.antt =====
-- The events of protocol v2 and the session list (src/proto_parse.h).
use sticks3_buddy.Prelude.{
  ℕ, ◌+◌, Bool, false, ◌&&◌, none, some, List, [], ◌∷◌, leb, if◌then◌else◌, set, replicate, Bytes,
  codes, bytes_eq, non_empty, strncpy,
}
use sticks3_buddy.Text.Utf8.{sanitize}
use sticks3_buddy.Proto.Json.{Json}
use sticks3_buddy.Proto.State.{TamaState, ask_clear}
use sticks3_buddy.Sessions
use sticks3_buddy.Sessions.{Session}
use sticks3_buddy.Ntfy
use sticks3_buddy.Proto.Reply.{text_or}

module _ {V : Type 0} (json : Json V) where
  -- One row of the session list.
  unfoldable pub session_row : V → Session
  session_row o = record {
    sid = strncpy 12 (text_or json (json.member o (codes "sid")));
    agent = sanitize 8 (some (text_or json (json.member o (codes "agent"))));
    title = sanitize 25 (some (text_or json (json.member o (codes "title"))));
    state = Sessions.state_from_str (some (text_or json (json.member o (codes "state"))));
    tok = json.u32_or (json.member o (codes "tok")) 0;
    last = sanitize 65 (some (text_or json (json.member o (codes "last"))));
  }

  abbrev pub is_row : V → Bool
  is_row v = json.is_object v && non_empty (text_or json (json.member v (codes "sid")))

  -- for (JsonVariant v : sa); the scratch rows start out unset, and only those written are read.
  unfoldable pub ingest_loop : List V → List Session → ℕ → List Session × ℕ
  ingest_loop [] tmp n = (tmp, n)
  ingest_loop (v ∷ vs) tmp n =
      let stored = ingest_loop vs (set tmp n (session_row v)) (n + 1) in
      let skipped = ingest_loop vs tmp n in
      if leb Sessions.max_sessions n then (tmp, n) else if is_row v then stored else skipped

  -- _protoIngestSessions
  unfoldable pub ingest_sessions : V → Sessions.SessionTable → Sessions.SessionTable
  ingest_sessions sa t =
      let (tmp, n) =
        ingest_loop (json.items sa) (replicate Sessions.max_sessions Sessions.no_session) 0 in
      Sessions.commit t tmp n

  -- The labels of the first four options.
  unfoldable pub options_loop : List V → List Bytes → ℕ → List Bytes × ℕ
  options_loop [] opts n = (opts, n)
  options_loop (v ∷ vs) opts n =
      let stored =
        options_loop vs
          (set opts n (sanitize 44 (some (text_or json (json.member v (codes "label"))))))
          (n + 1) in
      if leb 4 n then (opts, n) else stored

  -- An ask that is accepted, after protoAskClear.
  unfoldable pub ask_fill : V → V → TamaState → TamaState
  ask_fill doc q0 t =
      let (opts, n) = options_loop (json.items (json.member q0 (codes "options"))) t.q_opts 0 in
      record t {
        q_ask_id = strncpy 16 (text_or json (json.member doc (codes "id")));
        q_sid = elim (json.str (json.member doc (codes "sid"))) [
          | none ↦ t.q_sid
          | some sid ↦ strncpy 12 sid
        ];
        q_multi = json.bool_or (json.member doc (codes "multiSelect")) false;
        q_header = sanitize 24 (some (text_or json (json.member q0 (codes "header"))));
        q_text = sanitize 200 (some (text_or json (json.member q0 (codes "text"))));
        q_opts = opts;
        q_n_opts = n;
      }

  -- _protoAsk
  unfoldable pub ask : V → TamaState → TamaState
  ask doc t =
      let q0 = json.element (json.member doc (codes "questions")) 0 in
      if non_empty (text_or json (json.member doc (codes "id"))) && json.is_object q0
      then ask_fill doc q0 (ask_clear t)
      else t

  unfoldable pub ask_cancel : V → TamaState → TamaState
  ask_cancel doc t =
      let id = text_or json (json.member doc (codes "id")) in
      if non_empty id && bytes_eq id t.q_ask_id then ask_clear t else t

  unfoldable pub notify : V → Ntfy.NtfyStore → Ntfy.NtfyStore
  notify doc n =
      Ntfy.push n (some (text_or json (json.member doc (codes "kind"))))
        (some (text_or json (json.member doc (codes "title"))))
        (some (text_or json (json.member doc (codes "body"))))
        (json.u32_or (json.member doc (codes "ts")) 0)
