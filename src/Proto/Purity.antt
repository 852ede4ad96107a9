-- ===== src/Proto/Purity.antt =====
-- Before the hello a line acts as it did in protocol v1.
use sticks3_buddy.Prelude.{
  ◌≡◌, refl, ap, ◌∙◌, Bool, true, false, ◌&&◌, Option, ◌==◌, if◌then◌else◌, if_cong, length, Bytes,
  codes, is_str,
}
use sticks3_buddy.Proto.Json.{Json}
use sticks3_buddy.Proto.Device.{Device, Wire}
use sticks3_buddy.Proto.State.{v2}
use sticks3_buddy.Proto.Reply.{maybe_rxack}
use sticks3_buddy.Proto.Commands.{hello, prompt_cancel, wifi}
use sticks3_buddy.Proto.Heartbeat.{
  counters, count_tokens, sessions_of, entries_of, prompt, heartbeat,
}
use sticks3_buddy.Proto.Apply.{event, time_sync, v1_command, dispatch}

module _ {V D : Type 0} (json : Json V) (dev : Device V D) where
  -- The state line of v1: counters, message, entries, prompt.
  unfoldable pub v1_heartbeat : V → Wire D → Wire D
  v1_heartbeat doc w0 =
      let w1 =
        entries_of json doc (record w0 {
          tama = counters json doc w0.tama;
          dev = count_tokens json dev doc w0.dev;
        }) in
      record w1 { tama = record (prompt json doc w1.tama) { last_updated = dev.millis w1.dev } }

  -- The line of v1: the command path, the time sync, the state.
  unfoldable pub v1_line : V → Wire D → Wire D
  v1_line doc w =
      let (d, consumed) = dev.xfer_command doc w.dev in
      let t = json.member doc (codes "time") in
      if consumed
      then record w { dev = d }
      else if json.is_array t && (length (json.items t) == 2)
      then record w {
        dev = dev.set_clock (json.as_u32 (json.element t 0)) (json.as_i32 (json.element t 1)) d;
      }
      else v1_heartbeat doc (record w { dev = d })

  rxack-off : (w : Wire D) → v2 w.ps ≡ false → maybe_rxack dev w ≡ w
  unfolding maybe_rxack
  rxack-off w h = rw h refl

  heartbeat-v1 :
      (doc : V) (w : Wire D) → v2 w.ps ≡ false → heartbeat json dev doc w ≡ v1_heartbeat doc w
  unfolding heartbeat v1_heartbeat sessions_of entries_of
  heartbeat-v1 doc w h = rw h (rxack-off _ h)

  event-v1 : (doc : V) (w : Wire D) → v2 w.ps ≡ false → event json dev doc w ≡ v1_heartbeat doc w
  unfolding event
  event-v1 doc w h = rw h (heartbeat-v1 doc w h)

  command-v1 : (doc : V) (w : Wire D) → v2 w.ps ≡ false → v1_command json dev doc w ≡ v1_line doc w
  unfolding v1_command time_sync v1_line
  command-v1 doc w h =
      if_cong (dev.xfer_command doc w.dev).1 (rxack-off _ h) (
        if_cong (json.is_array t && (length (json.items t) == 2)) (rxack-off _ h)
          (event-v1 doc _ h))
    where
      t : V
      t = json.member doc (codes "time")

  -- On a link without a hello every line other than a hello acts as a line of v1: no event, no
  -- list of sessions and no acknowledgement of the line, and the commands of v2 go where v1 sends
  -- every command.
  pub dispatch-v1 :
      (doc : V) (w : Wire D)
      → v2 w.ps ≡ false
      → is_str (json.str (json.member doc (codes "cmd"))) (codes "hello") ≡ false
      → dispatch json dev doc w ≡ v1_line doc w
  unfolding dispatch
  dispatch-v1 doc w h k =
      ap (λ (b : Bool). if b then hello json dev doc w else other) k
      ∙ v2_only (is_str cmd (codes "prompt_cancel")) _ _
      ∙ v2_only (is_str cmd (codes "wifi")) _ _
      ∙ command-v1 doc w h
    where
      cmd : Option Bytes
      cmd = json.str (json.member doc (codes "cmd"))

      other : Wire D
      other =
          if is_str cmd (codes "prompt_cancel") && v2 w.ps
          then prompt_cancel json dev doc w
          else if is_str cmd (codes "wifi") && v2 w.ps
          then wifi json dev doc w
          else v1_command json dev doc w

      v2_only : (b : Bool) (x y : Wire D) → (if b && v2 w.ps then x else y) ≡ y
      v2_only true x y = rw h refl
      v2_only false x y = refl
