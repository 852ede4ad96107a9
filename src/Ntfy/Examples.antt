-- ===== src/Ntfy/Examples.antt =====
-- Runs of the ring.
use sticks3_buddy.Prelude.{◌≡◌, refl, true, false, none, some, [], ◌∷◌, arith, codes, copy_loop}
use Prim.Native.String.{String}
use sticks3_buddy.Ntfy.{
  NtfyCard, NtfyStore, new_card, push, card_at, keep, keep_loop, repack, dismiss,
}
use sticks3_buddy.Ntfy.Ring.{IsValid, push-IsValid, card_at-push, card_at-dismiss, dismiss-IsValid}

abbrev card_of : String → NtfyCard
card_of s = record { kind = codes "info"; title = codes s; body = []; ts = 7 }

-- A full ring whose newest card is in slot 1.
abbrev wrapped : NtfyStore
wrapped = record {
  card = card_of "d" ∷ card_of "e" ∷ card_of "b" ∷ card_of "c" ∷ [];
  head = 2;
  count = 4;
  unread = 3;
  total = 5;
}

wrapped-IsValid : IsValid wrapped
wrapped-IsValid = record {
  full = refl;
  head_fits = omega arith;
  count_fits = omega arith;
  seen = omega arith;
}

dismiss_test :
    (card_at (dismiss wrapped 1).0 1 ≡ some (card_of "c")) × ((dismiss wrapped 4).1 ≡ false)
unfolding dismiss keep keep_loop repack card_at copy_loop
dismiss_test = (refl, refl)

push-IsValid_test : IsValid (push wrapped (some (codes "info")) (some (codes "f")) none 9)
push-IsValid_test =
    push-IsValid wrapped (some (codes "info")) (some (codes "f")) none 9 wrapped-IsValid

card_at-push_example :
    (card_at (push wrapped (some (codes "info")) (some (codes "f")) none 9) 0
      ≡ some (new_card (some (codes "info")) (some (codes "f")) none 9))
    × (card_at (push wrapped (some (codes "info")) (some (codes "f")) none 9) 1 ≡ card_at wrapped 0)
card_at-push_example =
    card_at-push wrapped (some (codes "info")) (some (codes "f")) none 9 0 wrapped-IsValid

card_at-dismiss_example : card_at (dismiss wrapped 1).0 1 ≡ card_at wrapped 2
card_at-dismiss_example = card_at-dismiss wrapped 1 1 wrapped-IsValid (omega arith)

dismiss-IsValid_test : IsValid (dismiss wrapped 1).0 × ((dismiss wrapped 1).1 ≡ true)
dismiss-IsValid_test = dismiss-IsValid wrapped 1 wrapped-IsValid
