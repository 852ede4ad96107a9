-- ===== src/Ble/Ring.antt =====
-- The ring of received bytes (rxPush, bleAvailable and bleRead of src/ble_bridge.cpp). Each call
-- holds the lock, so it is one step; `cap` is RX_CAP.
use sticks3_buddy.Prelude.{
  ℕ, ◌+◌, ◌-◌, ◌%◌, Option, none, some, List, [], ◌∷◌, ◌==◌, if◌then◌else◌, get_or, set, Bytes,
}
pub mod Queue
pub mod Refine

pub record Ring : Type 0 where
  pub buf : List ℕ
  pub head : ℕ
  pub tail : ℕ

module _ (cap : ℕ) where
  -- A full ring drops the rest.
  unfoldable pub push : Bytes → Ring → Ring
  push [] r = r
  push (b ∷ p) r =
      let next = (r.head + 1) % cap in
      let more = push p (record r { buf = set r.buf r.head b; head = next }) in
      if next == r.tail then r else more

  unfoldable pub available : Ring → ℕ
  available r = (r.head + cap - r.tail) % cap

  -- `none` stands for -1.
  unfoldable pub read : Ring → Ring × Option ℕ
  read r =
      if r.head == r.tail
      then (r, none)
      else (record r { tail = (r.tail + 1) % cap }, some (get_or r.buf r.tail 0))

-- A call of the BLE task, or of the main loop.
pub data Call : Type 0 where
  pushed : Bytes → Call
  reads : Call

-- The bytes that the reads of a schedule of calls return, and the ring after it.
unfoldable pub run : ℕ → Ring → List Call → Ring × List (Option ℕ)
run cap r [] = (r, [])
run cap r (pushed p ∷ calls) = run cap (push cap p r) calls
run cap r (reads ∷ calls) = let (s, b) = read cap r in let (t, bs) = run cap s calls in (t, b ∷ bs)
