-- ===== src/Feed.antt =====
-- The line feeders and the modes of the display (src/data.h): bytes of the two transports become
-- lines, lines go to the parse core, and a host that falls silent is dropped. The bytes that have
-- arrived are an input of each poll, and so is the state of the BLE link.
use sticks3_buddy.Prelude.{
  ℕ, ◌+◌, ◌-◌, ◌%◌, Bool, true, false, not, ◌&&◌, ◌||◌, List, [], ◌∷◌, ◌++◌, ltb, leb, ◌==◌,
  if◌then◌else◌, length, get_or, u32, add32, sub32, Bytes, codes, until_nul,
}
pub mod Framing
pub mod Silence
mod Examples
use sticks3_buddy.Sessions
use sticks3_buddy.Sessions.{SessionTable}
use sticks3_buddy.Ntfy.{NtfyStore}
use sticks3_buddy.Proto.Json.{Json}
use sticks3_buddy.Proto.Device.{Device, Wire}
use sticks3_buddy.Proto.State.{TamaState, ProtoState, ask_clear, prompt_clear, reset_conn}
use sticks3_buddy.Proto.Apply.{apply_json}

-- One transport: its line buffer, what a line may change, and the time of the last live line.
pub record Link (D : Type 0) : Type 0 where
  pub line : Bytes
  pub wire : Wire D
  pub last_live : ℕ

abbrev pub starts_object : Bytes → Bool
starts_object [] = false
starts_object (c ∷ s) = c == b'{'

abbrev pub is_newline : ℕ → Bool
is_newline c = c == 10 || c == 13

abbrev pub counted : {D : Type 0} → Link D → Link D
counted l = record l {
  wire = record l.wire { ps = record l.wire.ps { rx_bytes = u32 (l.wire.ps.rx_bytes + 1) } };
}

module _ {V D : Type 0} (json : Json V) (dev : Device V D) where
  -- A line is complete: it goes to the parse core if it starts an object.
  unfoldable pub finish_line : Link D → Link D
  unfolding apply_json
  finish_line l =
      let (w, live) = apply_json json dev (until_nul l.line) l.wire in
      if starts_object l.line
      then record {
        line = [];
        wire = w;
        last_live = if live then dev.millis w.dev else l.last_live;
      }
      else record l { line = [] }

  -- A byte that does not fit the buffer is dropped.
  unfoldable pub feed_byte : ℕ → Link D → Link D
  feed_byte c l =
      if is_newline c
      then finish_line (counted l)
      else if ltb (length l.line) (dev.line_buf - 1)
      then record (counted l) { line = l.line ++ (c ∷ []) }
      else counted l

  unfoldable pub feed : Bytes → Link D → Link D
  unfolding feed_byte
  feed [] l = l
  feed (c ∷ s) l = feed s (feed_byte c l)

-- _Fake: a scenario of the demo.
pub record Fake : Type 0 where
  pub name : Bytes
  pub t : ℕ
  pub r : ℕ
  pub w : ℕ
  pub c : Bool
  pub tok : ℕ

abbrev pub fakes : List Fake
fakes =
    record { name = codes "asleep"; t = 0; r = 0; w = 0; c = false; tok = 0 }
    ∷ record { name = codes "one idle"; t = 1; r = 0; w = 0; c = false; tok = 12000 }
    ∷ record { name = codes "busy"; t = 4; r = 3; w = 0; c = false; tok = 89000 }
    ∷ record { name = codes "attention"; t = 2; r = 1; w = 1; c = false; tok = 45000 }
    ∷ record { name = codes "completed"; t = 1; r = 0; w = 0; c = true; tok = 142000 }
    ∷ []

abbrev pub no_fake : Fake
no_fake = record { name = []; t = 0; r = 0; w = 0; c = false; tok = 0 }

-- The static variables of the file, with the state that both transports share. A time of 0 is
-- never.
pub record Feed (D : Type 0) : Type 0 where
  pub tama : TamaState
  pub sessions : SessionTable
  pub ntfy : NtfyStore
  pub dev : D
  pub overrun : Bool
  pub usb_proto : ProtoState
  pub bt_proto : ProtoState
  pub usb_line : Bytes
  pub bt_line : Bytes
  pub last_live : ℕ
  pub last_bt_byte : ℕ
  pub bt_was_conn : Bool
  pub demo_mode : Bool
  pub demo_idx : ℕ
  pub demo_next : ℕ

-- What arrives between two polls. `usb_feed` is false on boards whose USB port is native.
pub record Input : Type 0 where
  pub usb_feed : Bool
  pub usb_bytes : Bytes
  pub bt_bytes : Bytes
  pub bt_connected : Bool

abbrev pub wire_of : {D : Type 0} → ProtoState → Feed D → Wire D
wire_of ps f = record {
  tama = f.tama;
  ps = ps;
  sessions = f.sessions;
  ntfy = f.ntfy;
  dev = f.dev;
  overrun = f.overrun;
}

-- The shared state after a transport has been fed.
abbrev pub fed : {D : Type 0} → Link D → Feed D → Feed D
fed l f = record f {
  tama = l.wire.tama;
  sessions = l.wire.sessions;
  ntfy = l.wire.ntfy;
  dev = l.wire.dev;
  overrun = l.wire.overrun;
  last_live = l.last_live;
}

abbrev pub no_claude : Bytes
no_claude = codes "No Claude connected"

-- What is shown of a host that is gone.
unfoldable pub asleep : ℕ → TamaState → TamaState
unfolding ask_clear prompt_clear
asleep now t = record (ask_clear (prompt_clear t)) {
  connected = false;
  sessions_total = 0;
  sessions_running = 0;
  sessions_waiting = 0;
  recently_completed = false;
  last_updated = now;
  n_lines = 0;
  msg = no_claude;
}

module _ {V D : Type 0} (json : Json V) (dev : Device V D) (invalidate_clock : D → D) where
  unfoldable pub poll_usb : Bytes → Feed D → Feed D
  poll_usb bytes f =
      let l =
        feed json dev bytes
          (record { line = f.usb_line; wire = wire_of f.usb_proto f; last_live = f.last_live }) in
      record (fed l f) { usb_line = l.line; usb_proto = l.wire.ps }

  -- The time of the last byte is the time at which it is read.
  unfoldable pub bt_byte : ℕ → Feed D → Feed D
  bt_byte c f =
      let l =
        feed_byte json dev c
          (record { line = f.bt_line; wire = wire_of f.bt_proto f; last_live = f.last_live }) in
      record (fed l f) { bt_line = l.line; bt_proto = l.wire.ps; last_bt_byte = dev.millis f.dev }

  unfoldable pub poll_bt : Bytes → Feed D → Feed D
  poll_bt [] f = f
  poll_bt (c ∷ s) f = poll_bt s (bt_byte c f)

  -- The end of a BLE link: the next one starts fresh.
  unfoldable pub bt_boundary : Bool → Feed D → Feed D
  bt_boundary conn f =
      let g =
        if f.bt_proto.hello_seen
        then record f { sessions = Sessions.clear f.sessions; tama = ask_clear f.tama }
        else f in
      let ended = record g { bt_proto = reset_conn f.bt_proto; bt_line = []; bt_was_conn = conn } in
      if f.bt_was_conn && not conn then ended else record f { bt_was_conn = conn }

  unfoldable pub data_connected : Feed D → Bool
  data_connected f = not (f.last_live == 0) && leb (sub32 (dev.millis f.dev) f.last_live) 30000

  unfoldable pub bt_active : Feed D → Bool
  bt_active f = not (f.last_bt_byte == 0) && leb (sub32 (dev.millis f.dev) f.last_bt_byte) 15000

  -- The change from connected to silent also forgets what the host had agreed on.
  unfoldable pub liveness : ℕ → Feed D → Feed D
  liveness now f =
      let g =
        if f.tama.connected
        then record f {
          dev = invalidate_clock f.dev;
          usb_proto = reset_conn f.usb_proto;
          sessions = Sessions.clear f.sessions;
        }
        else f in
      if data_connected f
      then record f { tama = record f.tama { connected = true } }
      else record g { tama = asleep now f.tama }

  unfoldable pub demo_scene : ℕ → Fake → Feed D → Feed D
  demo_scene now s f = record f {
    tama = record f.tama {
      sessions_total = s.t;
      sessions_running = s.r;
      sessions_waiting = s.w;
      recently_completed = s.c;
      tokens_today = s.tok;
      last_updated = now;
      connected = true;
      msg = codes "demo: " ++ s.name;
    };
  }

  unfoldable pub poll_demo : ℕ → Feed D → Feed D
  unfolding demo_scene
  poll_demo now f =
      let idx = if leb f.demo_next now then (f.demo_idx + 1) % 5 else f.demo_idx in
      let next = if leb f.demo_next now then add32 now 8000 else f.demo_next in
      demo_scene now (get_or fakes idx no_fake) (record f { demo_idx = idx; demo_next = next })

  -- dataPoll
  unfoldable pub poll : Input → Feed D → Feed D
  poll i f =
      let now = dev.millis f.dev in
      let u = if i.usb_feed then poll_usb i.usb_bytes f else f in
      let live = liveness now (poll_bt i.bt_bytes (bt_boundary i.bt_connected u)) in
      if f.demo_mode then poll_demo now f else live

  unfoldable pub set_demo : Bool → Feed D → Feed D
  set_demo on f =
      if on
      then record f { demo_mode = true; demo_idx = 0; demo_next = dev.millis f.dev }
      else record f { demo_mode = false }

  unfoldable pub scenario_name : Feed D → Bytes
  unfolding data_connected bt_active
  scenario_name f =
      if f.demo_mode
      then (get_or fakes f.demo_idx no_fake).name
      else if data_connected f
      then (if bt_active f then codes "bt" else codes "usb")
      else codes "none"
