-- ===== src/Proto/Rxack.antt =====
-- The acknowledgement of each line, for a host that asked for it.
use sticks3_buddy.Prelude.{
  ◌≡◌, refl, Bool, true, false, ◌&&◌, Option, none, arith, ◌==◌, if◌then◌else◌, length, Bytes,
  codes, is_str,
}
use sticks3_buddy.Proto.Json.{Json}
use sticks3_buddy.Proto.Device.{Device, Wire}
use sticks3_buddy.Proto.State.{v2}
use sticks3_buddy.Proto.Reply.{wants_rxack, rxack_line, maybe_rxack}
use sticks3_buddy.Proto.Commands.{prompt_cancel, wifi}
use sticks3_buddy.Proto.Events.{ingest_sessions}
use sticks3_buddy.Proto.Heartbeat.{
  counters, count_tokens, sessions_of, entries_of, finish, heartbeat,
}
use sticks3_buddy.Proto.Apply.{event, time_sync, v1_command, dispatch}

-- A test in front of a function that stands on both branches.
if_push :
    {A : Type 0} (f : A → A) (b : Bool) {x x' y y' : A}
    → x ≡ f x'
    → y ≡ f y'
    → (if b then x else y) ≡ f (if b then x' else y')
if_push f true p q = p
if_push f false p q = q

module _ {V D : Type 0} (json : Json V) (dev : Device V D) where
  -- The same connection without the capability.
  abbrev pub quiet : Wire D → Wire D
  quiet w = record w { ps = record w.ps { host_caps = 0 } }

  -- A result, on the connection of `w`, with the acknowledgement sent last.
  abbrev pub acked : Wire D → Wire D → Wire D
  acked w u = record u { ps = w.ps; dev = dev.emit (rxack_line dev w.ps) u.dev }

  module _ (doc : V) where
    asks-v2 : (w : Wire D) → wants_rxack dev w.ps ≡ true → v2 w.ps ≡ true
    asks-v2 w h = ground (arith, h)

    rxack-acked :
        (w : Wire D)
        → wants_rxack dev w.ps ≡ true
        → maybe_rxack dev w ≡ acked w (maybe_rxack dev (quiet w))
    unfolding maybe_rxack
    rxack-acked w h = rw (h, asks-v2 w h) refl

    heartbeat-acked :
        (w : Wire D)
        → wants_rxack dev w.ps ≡ true
        → heartbeat json dev doc w ≡ acked w (heartbeat json dev doc (quiet w))
    unfolding heartbeat sessions_of entries_of
    heartbeat-acked w h = split (v2 w.ps && json.is_array sa)
      where
        sa : V
        sa = json.member doc (codes "sessions")

        u : Wire D
        u =
            entries_of json doc
              (record w { tama = counters json doc w.tama; dev = count_tokens json dev doc w.dev })

        listed : Wire D → Wire D
        listed x = record x { sessions = ingest_sessions json sa x.sessions }

        split :
            (b : Bool)
            → finish json dev doc (if b then listed u else u)
              ≡ acked w (finish json dev doc (if b then listed (quiet u) else quiet u))
        split true = unfold finish in rxack-acked _ h
        split false = unfold finish in rxack-acked _ h

    event-acked :
        (w : Wire D)
        → wants_rxack dev w.ps ≡ true
        → event json dev doc w ≡ acked w (event json dev doc (quiet w))
    unfolding event
    event-acked w h = if_push (acked w) (is_str evt (codes "ask")) (rxack-acked _ h) (
        if_push (acked w) (is_str evt (codes "ask_cancel")) (rxack-acked _ h)
          (if_push (acked w) (is_str evt (codes "ntfy")) (rxack-acked _ h) (heartbeat-acked w h)))
      where
        evt : Option Bytes
        evt = if v2 w.ps then json.str (json.member doc (codes "evt")) else none

    command-acked :
        (w : Wire D)
        → wants_rxack dev w.ps ≡ true
        → v1_command json dev doc w ≡ acked w (v1_command json dev doc (quiet w))
    unfolding v1_command time_sync
    command-acked w h = if_push (acked w) (dev.xfer_command doc w.dev).1 (rxack-acked _ h) (
        if_push (acked w) (json.is_array t && (length (json.items t) == 2)) (rxack-acked _ h)
          (event-acked _ h))
      where
        t : V
        t = json.member doc (codes "time")

    -- For a host with the capability, every line but a hello does what it does without the
    -- capability, and then sends one acknowledgement with the bytes received, whatever it was.
    pub dispatch-acked :
        (w : Wire D)
        → wants_rxack dev w.ps ≡ true
        → is_str (json.str (json.member doc (codes "cmd"))) (codes "hello") ≡ false
        → dispatch json dev doc w ≡ acked w (dispatch json dev doc (quiet w))
    unfolding dispatch
    dispatch-acked w h k = rw k (
        if_push (acked w) (is_str cmd (codes "prompt_cancel") && v2 w.ps)
          (unfold prompt_cancel in rxack-acked _ h)
          (if_push (acked w) (is_str cmd (codes "wifi") && v2 w.ps) (unfold wifi in rxack-acked _ h)
            (command-acked w h)))
      where
        cmd : Option Bytes
        cmd = json.str (json.member doc (codes "cmd"))
