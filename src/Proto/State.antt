-- ===== src/Proto/State.antt =====
-- The state of the wire protocol (src/proto_parse.h): what is displayed, and what each connection
-- has agreed on.
use sticks3_buddy.Prelude.{ℕ, Bool, true, false, ◌&&◌, List, [], leb, Bytes, fill_loop}

pub record TamaState : Type 0 where
  pub sessions_total : ℕ
  pub sessions_running : ℕ
  pub sessions_waiting : ℕ
  pub recently_completed : Bool
  pub tokens_today : ℕ
  pub last_updated : ℕ
  pub msg : Bytes
  pub connected : Bool
  pub lines : List Bytes
  pub n_lines : ℕ
  pub line_gen : ℕ
  pub prompt_id : Bytes
  pub prompt_tool : Bytes
  pub prompt_hint : Bytes
  pub prompt_sid : Bytes
  pub prompt_qn : ℕ
  pub q_ask_id : Bytes
  pub q_sid : Bytes
  pub q_header : Bytes
  pub q_text : Bytes
  pub q_opts : List Bytes
  pub q_n_opts : ℕ
  pub q_multi : Bool

unfoldable pub ask_clear : TamaState → TamaState
ask_clear t = record t {
  q_ask_id = [];
  q_sid = [];
  q_header = [];
  q_text = [];
  q_opts = fill_loop 4 0 t.q_opts [];
  q_n_opts = 0;
  q_multi = false;
}

unfoldable pub prompt_clear : TamaState → TamaState
prompt_clear t = record t {
  prompt_id = [];
  prompt_tool = [];
  prompt_hint = [];
  prompt_sid = [];
  prompt_qn = 0;
}

pub data Transport : Type 0 where
  transport_usb transport_bt : Transport

pub record ProtoState : Type 0 where
  pub hello_seen : Bool
  pub eff_proto : ℕ
  pub host_caps : ℕ
  pub transport : Transport
  pub rx_bytes : ℕ

unfoldable pub reset_conn : ProtoState → ProtoState
reset_conn ps = record {
  hello_seen = false;
  eff_proto = 1;
  host_caps = 0;
  transport = ps.transport;
  rx_bytes = 0;
}

-- BUDDY_PROTO_VER
abbrev pub proto_ver : ℕ
proto_ver = 2

-- Post-hello at version 2 or later.
abbrev pub v2 : ProtoState → Bool
v2 ps = ps.hello_seen && leb 2 ps.eff_proto

pub record ProtoHello : Type 0 where
  pub id : Bytes
  pub name : Bytes
  pub app : Bytes
  pub ver : Bytes
  pub proto : ℕ
  pub via_ble : Bool

abbrev pub is_bt : Transport → Bool
is_bt transport_usb = false
is_bt transport_bt = true
