-- ===== src/Proto/Examples.antt =====
-- The parse core on a concrete JSON value and a device that records what it sends.
use sticks3_buddy.Prelude.{
  map, take, ℕ, zero, suc, min, ◌≡◌, refl, true, false, [], ◌∷◌, arith, leb, decimal, codes,
  bytes_eq,
}
use sticks3_buddy.Sessions.{SessionTable}
use sticks3_buddy.Ntfy.{NtfyStore}
use sticks3_buddy.Proto.State.{ask_clear, prompt_clear, v2}
use sticks3_buddy.Proto.Reply.{rxack_line, maybe_rxack}
use sticks3_buddy.Proto.Commands.{hello, prompt_cancel, cancels}
use sticks3_buddy.Proto.Events.{ask, ask_cancel}
use sticks3_buddy.Proto.Apply.{dispatch}
use Prim.Native.String.{String}
use sticks3_buddy.Sessions
use sticks3_buddy.Sessions.{Session, no_session}
use sticks3_buddy.Sessions.Rows.{IsValid}
use sticks3_buddy.Ntfy
use sticks3_buddy.Proto.Events.{session_row, ingest_sessions}
use sticks3_buddy.Proto.Heartbeat.{prompt_of, entries}
use sticks3_buddy.Proto.Purity.{v1_line, dispatch-v1}
use sticks3_buddy.Proto.Rxack.{quiet, acked, dispatch-acked}
use sticks3_buddy.Proto.Entries.{entry_text, entries_newest, entries_overrun}
use sticks3_buddy.Proto.Greeting.{cancels-prompt_of, ask_cancel-ask, hello_fresh}
use sticks3_buddy.Proto.Ingest.{ingest_sessions-row, ingest_sessions-IsValid}
use sticks3_buddy.Proto.Sample.{
  Value, Values, null, number, text, array, object, nil, one, close, field, tree, log, tama0, link,
  cancel_line,
}

-- The prompt is cleared and both acknowledgements are sent.
cancel_test :
    let u = dispatch tree log cancel_line (link true 4) in
    (u.tama.prompt_id ≡ [])
    × (u.dev
        ≡ codes "{\"ack\":\"prompt_cancel\",\"ok\":true}" ∷ codes "{\"ack\":\"rx\",\"n\":77}" ∷ [])
unfolding dispatch bytes_eq prompt_cancel maybe_rxack prompt_clear rxack_line decimal
cancel_test = (refl, refl)

dispatch-v1_example :
    dispatch tree log cancel_line (link false 4) ≡ v1_line tree log cancel_line (link false 4)
dispatch-v1_example = dispatch-v1 tree log cancel_line (link false 4) refl (unfold bytes_eq in refl)

dispatch-acked_example :
    dispatch tree log cancel_line (link true 4)
    ≡ acked tree log (link true 4) (dispatch tree log cancel_line (quiet tree log (link true 4)))
dispatch-acked_example =
    dispatch-acked tree log cancel_line (link true 4) refl (unfold bytes_eq in refl)

abbrev two : Value
two = array (one (text (codes "edit")) (one (number 3) nil))

entries_newest_example :
    let u = (entries tree two tama0).0 in
    (u.n_lines ≡ 2)
    × (take u.n_lines u.lines ≡ map (entry_text tree) (text (codes "edit") ∷ (number 3 ∷ [])))
entries_newest_example = entries_newest tree two tama0 refl refl (omega arith)

abbrev many : ℕ → Values
many zero = nil
many (suc n) = one null (many n)

entries_overrun_example : (entries tree (array (many 256)) tama0).1 ≡ true
entries_overrun_example = entries_overrun tree (array (many 256)) tama0 refl

cancels-prompt_of_example : cancels tree cancel_line (prompt_of tree cancel_line tama0) ≡ true
unfolding bytes_eq
cancels-prompt_of_example = cancels-prompt_of tree cancel_line cancel_line tama0 refl

abbrev question : Value
question = object (
    field (codes "id") (text (codes "a1"))
      (field (codes "questions") (array (one (object close) nil)) close))

ask_cancel-ask_test :
    ask_cancel tree question (ask tree question tama0) ≡ ask_clear (ask tree question tama0)
unfolding ask_clear bytes_eq
ask_cancel-ask_test = ask_cancel-ask tree question question tama0 refl refl refl

abbrev hello_line : Value
hello_line =
    object (field (codes "cmd") (text (codes "hello")) (field (codes "proto") (number 7) close))

hello_fresh_example :
    let u = hello tree log hello_line (link false 0) in
    (u.ps.hello_seen ≡ true)
    × (u.ps.eff_proto ≡ min 2 7)
    × (v2 u.ps ≡ leb 2 7)
    × (u.sessions.count ≡ 0)
    × (u.sessions.sel_sid ≡ Sessions.reset.sel_sid)
    × (u.sessions.pin_sid ≡ Sessions.reset.pin_sid)
    × ((u.tama.q_ask_id ≡ []) × (u.tama.q_n_opts ≡ 0))
    × (u.tama.prompt_id ≡ tama0.prompt_id)
    × (u.ntfy ≡ Ntfy.init)
unfolding bytes_eq
hello_fresh_example =
    hello_fresh tree log hello_line (link false 0) 7 refl (omega arith) (omega arith)

abbrev session_of : String → Value
session_of sid =
    object
      (field (codes "sid") (text (codes sid)) (field (codes "state") (text (codes "run")) close))

abbrev listed : Value
listed = array (one (session_of "s1") (one null (one (session_of "s2") nil)))

ingest_sessions-row_example :
    let u = ingest_sessions tree listed Sessions.reset in
    (u.count ≡ 2)
    × (take u.count u.rows ≡ map (session_row tree) (session_of "s1" ∷ (session_of "s2" ∷ [])))
unfolding Sessions.reset bytes_eq
ingest_sessions-row_example = ingest_sessions-row tree listed Sessions.reset refl

ingest_sessions-IsValid_test : IsValid (ingest_sessions tree listed Sessions.reset)
ingest_sessions-IsValid_test =
    ingest_sessions-IsValid tree listed Sessions.reset (unfold Sessions.reset in refl)
