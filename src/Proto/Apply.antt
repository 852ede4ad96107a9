-- ===== src/Proto/Apply.antt =====
-- One line from a host (protoApplyJson of src/proto_parse.h), without the build flag BUDDY_DEBUG.
use sticks3_buddy.Prelude.{
  Bool, true, false, ◌&&◌, none, some, ◌==◌, if◌then◌else◌, length, Bytes, codes, is_str,
}
use sticks3_buddy.Proto.Json.{Json}
use sticks3_buddy.Proto.Device.{Device, Wire}
use sticks3_buddy.Proto.State.{v2}
use sticks3_buddy.Proto.Reply.{maybe_rxack}
use sticks3_buddy.Proto.Commands.{hello, prompt_cancel, wifi}
use sticks3_buddy.Proto.Events.{ask, ask_cancel, notify}
use sticks3_buddy.Proto.Heartbeat.{heartbeat}

module _ {V D : Type 0} (json : Json V) (dev : Device V D) where
  -- The events of v2, and the state line where there is none.
  unfoldable pub event : V → Wire D → Wire D
  event doc w =
      let evt = if v2 w.ps then json.str (json.member doc (codes "evt")) else none in
      if is_str evt (codes "ask")
      then maybe_rxack dev (record w { tama = ask json doc w.tama })
      else if is_str evt (codes "ask_cancel")
      then maybe_rxack dev (record w { tama = ask_cancel json doc w.tama })
      else if is_str evt (codes "ntfy")
      then maybe_rxack dev (record w { ntfy = notify json doc w.ntfy })
      else heartbeat json dev doc w

  -- The time sync, an array of two.
  unfoldable pub time_sync : V → Wire D → Wire D
  unfolding event
  time_sync doc w =
      let t = json.member doc (codes "time") in
      if json.is_array t && (length (json.items t) == 2)
      then maybe_rxack dev (record w {
        dev = dev.set_clock (json.as_u32 (json.element t 0)) (json.as_i32 (json.element t 1)) w.dev;
      })
      else event doc w

  -- The command path of v1, which may consume the line.
  unfoldable pub v1_command : V → Wire D → Wire D
  unfolding time_sync
  v1_command doc w =
      let (d, consumed) = dev.xfer_command doc w.dev in
      if consumed
      then maybe_rxack dev (record w { dev = d })
      else time_sync doc (record w { dev = d })

  -- The commands of v2 come first.
  unfoldable pub dispatch : V → Wire D → Wire D
  unfolding v1_command
  dispatch doc w =
      let cmd = json.str (json.member doc (codes "cmd")) in
      if is_str cmd (codes "hello")
      then hello json dev doc w
      else if is_str cmd (codes "prompt_cancel") && v2 w.ps
      then prompt_cancel json dev doc w
      else if is_str cmd (codes "wifi") && v2 w.ps
      then wifi json dev doc w
      else v1_command doc w

  -- The flag says whether the line counts as live traffic.
  unfoldable pub apply_json : Bytes → Wire D → Wire D × Bool
  unfolding dispatch
  apply_json line w = elim (json.parse line) [
    | none ↦ (w, false)
    | some doc ↦ (dispatch doc w, true)
  ]
