-- ===== src/Proto/Device.antt =====
-- The hooks of the parse core (the proto* functions of src/proto_parse.h, implemented by
-- src/data.h) over a device state D, and everything that one line may change.
use sticks3_buddy.Prelude.{ℕ, Bool, Bytes, ℤ}
use sticks3_buddy.Sessions.{SessionTable}
use sticks3_buddy.Ntfy.{NtfyStore}
use sticks3_buddy.Wifi.Networks.{Outcome}
use sticks3_buddy.Proto.State.{TamaState, ProtoState, ProtoHello}

pub record Device (V D : Type 0) : Type 0 where
  pub emit : Bytes → D → D
  pub millis : D → ℕ
  pub xfer_command : V → D → D × Bool
  pub set_clock : ℕ → ℤ → D → D
  pub tokens : ℕ → D → D
  pub hello_accept : ProtoHello → D → D × Bool
  pub wifi_upsert : Bytes → Bytes → D → D × Outcome
  pub wifi_remove : Bytes → D → D × Outcome
  pub wifi_clear : D → D × Bool
  pub wifi_count : D → ℕ
  -- The text of names for a buffer of the given size, and how many it holds.
  pub wifi_ssids : ℕ → D → D × Bytes × ℕ
  pub fw_version : Bytes
  pub board_name : D → Bytes
  pub device_name : D → Bytes
  -- BUDDY_LINEBUF of the board
  pub line_buf : ℕ

pub record Wire (D : Type 0) : Type 0 where
  pub tama : TamaState
  pub ps : ProtoState
  pub sessions : SessionTable
  pub ntfy : NtfyStore
  pub dev : D
  -- A write has gone past the end of `lines`: what follows is undefined in the source.
  pub overrun : Bool
