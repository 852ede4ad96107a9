-- ===== src/Feed/Examples.antt =====
-- The line feeders at concrete inputs.
use sticks3_buddy.Prelude.{
  false, ℕ, ◌≡◌, refl, true, List, [], ◌∷◌, ◌++◌, arith, if◌then◌else◌, take, Bytes, codes,
  until_nul,
}
use sticks3_buddy.Sessions
use sticks3_buddy.Ntfy
use sticks3_buddy.Proto.Sample.{tree, log, link}
use sticks3_buddy.Proto.State.{transport_usb}
use sticks3_buddy.Proto.Apply.{apply_json}
use sticks3_buddy.Feed.{
  Link, Feed, Input, feed, feed_byte, finish_line, poll, starts_object, scenario_name,
}
use sticks3_buddy.Feed.Framing.{received, feed-line}
use sticks3_buddy.Feed.Silence.{poll-stale}

abbrev idle : Link (List Bytes)
idle = record { line = []; wire = link false 0; last_live = 0 }

-- A line that is no object is skipped, and its bytes count.
feed_runs : feed tree log (codes "hello\n") idle ≡ received 6 [] idle
unfolding feed feed_byte finish_line until_nul
feed_runs = refl

feed-line_example :
    let r = feed tree log (codes "{}" ++ (10 ∷ [])) idle in
    let w = (received 3 [] idle).wire in
    (r.line ≡ [])
    × (r.wire ≡ (
        if starts_object (codes "{}")
        then (apply_json tree log (until_nul (take 4607 (codes "{}"))) w).0
        else w))
feed-line_example =
    feed-line tree log (codes "{}") idle (refl, (refl, tt)) refl (omega arith) (omega arith)

-- The clock of the sample device stands at 1000 ms; the last live line came 70 seconds before its
-- wrap.
abbrev waiting : ℕ → Feed (List Bytes)
waiting last = record {
  tama = (link true 0).tama;
  sessions = Sessions.reset;
  ntfy = Ntfy.init;
  dev = [];
  overrun = false;
  usb_proto = record (link true 0).ps { transport = transport_usb };
  bt_proto = (link true 0).ps;
  usb_line = [];
  bt_line = codes "{";
  last_live = last;
  last_bt_byte = 0;
  bt_was_conn = true;
  demo_mode = false;
  demo_idx = 0;
  demo_next = 0;
}

abbrev same_clock : List Bytes → List Bytes
same_clock d = d

scenario_runs : scenario_name tree log same_clock (waiting 900) ≡ codes "usb"
unfolding scenario_name
scenario_runs = refl

abbrev half_line : Input
half_line = record {
  usb_feed = false;
  usb_bytes = [];
  bt_bytes = codes "{\"evt\"";
  bt_connected = false;
}

abbrev next_link : Input
next_link = record {
  usb_feed = true;
  usb_bytes = codes "{";
  bt_bytes = codes "{\"cmd\"";
  bt_connected = true;
}

poll-stale_example :
    let g = poll tree log same_clock half_line (waiting 900) in
    (g.bt_line ≡ codes "{\"evt\"")
    × ((poll tree log same_clock next_link g).bt_line ≡ codes "{\"evt\"{\"cmd\"")
poll-stale_example =
    poll-stale tree log same_clock (waiting 900) half_line next_link refl refl refl
      (refl, (refl, (refl, (refl, (refl, (refl, tt)))))) refl
      (refl, (refl, (refl, (refl, (refl, (refl, tt)))))) (omega arith)
