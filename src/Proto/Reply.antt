-- ===== src/Proto/Reply.antt =====
-- Replies: one line to the host (src/proto_parse.h).
use sticks3_buddy.Prelude.{
  ℕ, ◌-◌, Bool, not, ◌&&◌, [], ◌++◌, ◌==◌, if◌then◌else◌, or_else, take, decimal, Bytes, codes,
  bytes_eq,
}
use sticks3_buddy.Proto.Json.{Json}
use sticks3_buddy.Proto.Device.{Device, Wire}
use sticks3_buddy.Proto.State.{ProtoState, v2}
use Prim.Native.Nat.{bit_and}

-- snprintf into a buffer of `size` bytes.
abbrev pub snprintf : ℕ → Bytes → Bytes
snprintf size text = take (size - 1) text

abbrev pub bool_text : Bool → Bytes
bool_text b = if b then codes "true" else codes "false"

-- A JSON member that may not be there, as a string.
abbrev pub text_or : {V : Type 0} → Json V → V → Bytes
text_or json v = or_else (json.str v) []

-- PCAP_SESSIONS, PCAP_ASK, PCAP_RXACK, PCAP_CANCEL, PCAP_NTFY
abbrev pub pcap_rxack : ℕ
pcap_rxack = 4

abbrev pub cap_bit : Bytes → ℕ
cap_bit s =
    if bytes_eq s (codes "sessions")
    then 1
    else if bytes_eq s (codes "ask")
    then 2
    else if bytes_eq s (codes "rxack")
    then pcap_rxack
    else if bytes_eq s (codes "cancel")
    then 8
    else if bytes_eq s (codes "ntfy")
    then 16
    else 0

module _ {V D : Type 0} (dev : Device V D) where
  abbrev pub send : Bytes → Wire D → Wire D
  send line w = record w { dev = dev.emit line w.dev }

  unfoldable pub rxack_line : ProtoState → Bytes
  rxack_line ps = snprintf 48 (codes "{\"ack\":\"rx\",\"n\":" ++ (decimal ps.rx_bytes ++ codes "}"))

  abbrev pub wants_rxack : ProtoState → Bool
  wants_rxack ps = v2 ps && not (bit_and ps.host_caps pcap_rxack == 0)

  -- _protoMaybeRxAck
  unfoldable pub maybe_rxack : Wire D → Wire D
  maybe_rxack w = if wants_rxack w.ps then send (rxack_line w.ps) w else w
