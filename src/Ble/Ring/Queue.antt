-- ===== src/Ble/Ring/Queue.antt =====
-- The queue that the ring of received bytes stands for.
use sticks3_buddy.Prelude.{ℕ, ◌-◌, Option, none, some, List, [], ◌∷◌, ◌++◌, length, take, Bytes}
use sticks3_buddy.Ble.Ring.{Call, pushed, reads}

-- At most `cap - 1` bytes: what does not fit is dropped.
unfoldable pub push : ℕ → Bytes → Bytes → Bytes
push cap p q = q ++ take (cap - 1 - length q) p

unfoldable pub read : Bytes → Bytes × Option ℕ
read [] = ([], none)
read (b ∷ q) = (q, some b)

unfoldable pub run : ℕ → Bytes → List Call → List (Option ℕ)
run cap q [] = []
run cap q (pushed p ∷ calls) = run cap (push cap p q) calls
run cap q (reads ∷ calls) = let (r, b) = read q in b ∷ run cap r calls
