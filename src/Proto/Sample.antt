-- ===== src/Proto/Sample.antt =====
-- A concrete JSON value, and a device that records what it sends.
use sticks3_buddy.Prelude.{
  ℕ, Bool, true, false, none, some, List, [], ◌∷◌, ◌++◌, ltb, if◌then◌else◌, get_or, replicate,
  u32_mod, pos, Bytes, codes, bytes_eq,
}
use Prim.Native.String.{String}
use sticks3_buddy.Sessions
use sticks3_buddy.Ntfy
use sticks3_buddy.Wifi.Networks.{counted, list_err}
use sticks3_buddy.Proto.Json.{Json}
use sticks3_buddy.Proto.State.{TamaState, transport_bt}
use sticks3_buddy.Proto.Device.{Device, Wire}

mutual
  pub data Value : Type 0 where
    null : Value
    number : ℕ → Value
    text : Bytes → Value
    flag : Bool → Value
    array : Values → Value
    object : Members → Value

  pub data Values : Type 0 where
    nil : Values
    one : Value → Values → Values

  pub data Members : Type 0 where
    close : Members
    field : Bytes → Value → Members → Members

abbrev pub lookup : Members → Bytes → Value
lookup close k = null
lookup (field name v ms) k = if bytes_eq name k then v else lookup ms k

abbrev pub list_of : Values → List Value
list_of nil = []
list_of (one v vs) = v ∷ list_of vs

abbrev pub json_items : Value → List Value
json_items (array vs) = list_of vs
json_items _ = []

abbrev pub tree : Json Value
tree = record {
  parse = λ line. some (text line);
  member = λ v k. elim v [ object ms ↦ lookup ms k | _ ↦ null ];
  element = λ v i. get_or (json_items v) i null;
  items = json_items;
  is_array = λ v. elim v [ array vs ↦ true | _ ↦ false ];
  is_object = λ v. elim v [ object ms ↦ true | _ ↦ false ];
  str = λ v. elim v [ text s ↦ some s | _ ↦ none ];
  bool_or = λ v d. elim v [ flag b ↦ b | _ ↦ d ];
  u8_or = λ v d. elim v [ number n ↦ (if ltb n 256 then n else d) | _ ↦ d ];
  u32_or = λ v d. elim v [ number n ↦ (if ltb n u32_mod then n else d) | _ ↦ d ];
  int_or = λ v d. elim v [ number n ↦ (if ltb n 2147483648 then pos n else d) | _ ↦ d ];
  is_u32 = λ v. elim v [ number n ↦ ltb n u32_mod | _ ↦ false ];
  as_u32 = λ v. elim v [ number n ↦ n | _ ↦ 0 ];
  as_i32 = λ v. elim v [ number n ↦ pos n | _ ↦ pos 0 ];
}

-- A device whose state is what it has sent.
abbrev pub log : Device Value (List Bytes)
log = record {
  emit = λ line d. d ++ (line ∷ []);
  millis = λ d. 1000;
  xfer_command = λ doc d. (d, false);
  set_clock = λ epoch tz d. d;
  tokens = λ total d. d;
  hello_accept = λ h d. (d, true);
  wifi_upsert = λ ssid pass d. (d, counted 1);
  wifi_remove = λ ssid d. (d, list_err);
  wifi_clear = λ d. (d, true);
  wifi_count = λ d. 1;
  wifi_ssids = λ size d. (d, [], 0);
  fw_version = codes "dev";
  board_name = λ d. codes "s3";
  device_name = λ d. codes "Buddy";
  line_buf = 4608;
}

abbrev pub tama0 : TamaState
tama0 = record {
  sessions_total = 0;
  sessions_running = 0;
  sessions_waiting = 0;
  recently_completed = false;
  tokens_today = 0;
  last_updated = 0;
  msg = [];
  connected = true;
  lines = replicate 8 [];
  n_lines = 0;
  line_gen = 0;
  prompt_id = codes "p1";
  prompt_tool = [];
  prompt_hint = [];
  prompt_sid = [];
  prompt_qn = 0;
  q_ask_id = [];
  q_sid = [];
  q_header = [];
  q_text = [];
  q_opts = replicate 4 [];
  q_n_opts = 0;
  q_multi = false;
}

abbrev pub link : Bool → ℕ → Wire (List Bytes)
link hello caps = record {
  tama = tama0;
  ps = record {
    hello_seen = hello;
    eff_proto = 2;
    host_caps = caps;
    transport = transport_bt;
    rx_bytes = 77;
  };
  sessions = Sessions.reset;
  ntfy = Ntfy.init;
  dev = [];
  overrun = false;
}

abbrev pub id_line : String → String → Value
id_line cmd id =
    object (field (codes "cmd") (text (codes cmd)) (field (codes "id") (text (codes id)) close))

abbrev pub cancel_line : Value
cancel_line = id_line "prompt_cancel" "p1"
