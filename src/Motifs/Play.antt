-- ===== src/Motifs/Play.antt =====
-- A motif plays each of its notes once.
use sticks3_buddy.Prelude.{
  ℕ, zero, suc, ◌+◌, ◌≤◌, ◌<◌, ◌≡◌, refl, ap, ◌∙◌, true, false, Option, none, some, List, [], ◌∷◌,
  map, arith, leb, if_false, length, get_or, drop, All-get_or, u8, u32, before32,
}
use sticks3_buddy.Motifs.{
  MotifNote, MotifPlayer, motifs, motif_count, start, emit, tick_notes, tick,
}

-- The notes of `k` ticks, each at the time that the player waits for.
unfoldable pub run : ℕ → MotifPlayer → List (Option MotifNote) × MotifPlayer
run zero p = ([], p)
run (suc k) p = let (q, n) = tick p p.next_at in let (ns, r) = run k q in (n ∷ ns, r)

due : (t : ℕ) → before32 t t ≡ false
due t = ground arith

abbrev ready : List MotifNote → ℕ → ℕ → MotifPlayer
ready ns i t = record { m = some ns; idx = i; next_at = t }

silence : MotifNote
silence = record { freq = 0; dur_ms = 0; gap_ms = 0 }

tick-emit : (ns : List MotifNote) (i t : ℕ) → tick (ready ns i t) t ≡ emit (ready ns i t) ns t
unfolding tick tick_notes
tick-emit ns i t = if_false (before32 t t) _ _ (due t)

drop-get_or :
    {A : Type 0} (xs : List A) (i : ℕ) (d : A)
    → i < length xs
    → drop i xs ≡ get_or xs i d ∷ drop (suc i) xs
drop-get_or [] i d h = elim h [ ]
drop-get_or (x ∷ xs) zero d h = refl
drop-get_or (x ∷ xs) (suc i) d h = drop-get_or xs i d (omega arith)

note_at : List MotifNote → ℕ → MotifNote
note_at ns i = get_or ns i silence

-- When the note behind note i is due.
after : List MotifNote → ℕ → ℕ → ℕ
after ns i t = u32 (t + (note_at ns i).dur_ms + (note_at ns i).gap_ms)

tick-next :
    (ns : List MotifNote) (i t : ℕ)
    → i + 1 < length ns
    → length ns < 256
    → tick (ready ns i t) t ≡ (ready ns (suc i) (after ns i t), some (note_at ns i))
unfolding after note_at silence
tick-next ns i t h k = tick-emit ns i t ∙ unfold emit in rw (more, next) refl
  where
    more : leb (length ns) (i + 1) ≡ false
    more = ground arith

    next : u8 (i + 1) ≡ suc i
    next = omega arith

tick-last :
    (ns : List MotifNote) (i t : ℕ)
    → i + 1 ≡ length ns
    → ((tick (ready ns i t) t).1 ≡ some (note_at ns i)) × ((tick (ready ns i t) t).0.m ≡ none)
unfolding note_at silence
tick-last ns i t h = rw (tick-emit ns i t) (unfold emit in (refl, rw last refl))
  where
    last : leb (length ns) (i + 1) ≡ true
    last = ground arith

drop_of_length_le : {A : Type 0} (xs : List A) (n : ℕ) → length xs ≤ n → drop n xs ≡ []
drop_of_length_le [] zero h = refl
drop_of_length_le [] (suc n) h = refl
drop_of_length_le (x ∷ xs) zero h = absurd (omega arith)
drop_of_length_le (x ∷ xs) (suc n) h = drop_of_length_le xs n (omega arith)

-- From note i on, as many ticks as notes are left.
run_rest :
    (ns : List MotifNote) (k i t : ℕ)
    → i + suc k ≡ length ns
    → length ns < 256
    → ((run (suc k) (ready ns i t)).0 ≡ map some (drop i ns))
      × ((run (suc k) (ready ns i t)).1.m ≡ none)
unfolding run note_at
run_rest ns zero i t e h =
    let (a, b) = tick-last ns i t e in
    (rw (a, drop-get_or ns i silence (omega arith), none_left) refl, b)
  where
    none_left : drop (suc i) ns ≡ []
    none_left = drop_of_length_le ns (suc i) (omega arith)
run_rest ns (suc k) i t e h =
    let (a, b) = run_rest ns k (suc i) (after ns i t) (omega arith) h in
    rw (tick-next ns i t (omega arith) h, drop-get_or ns i silence (omega arith))
      (ap (λ xs. some (get_or ns i silence) ∷ xs) a, b)

run_whole :
    (ns : List MotifNote) (t : ℕ)
    → 0 < length ns
    → length ns < 256
    → ((run (length ns) (ready ns 0 t)).0 ≡ map some ns)
      × ((run (length ns) (ready ns 0 t)).1.m ≡ none)
run_whole [] t h k = elim h [ ]
run_whole (n ∷ ns) t h k = run_rest (n ∷ ns) (length ns) 0 t (omega arith) k

-- A motif that is started plays each of its notes once, in their order, when the player is ticked
-- at the times that it waits for, and it is then idle.
pub run-start :
    (p : MotifPlayer) (id now : ℕ)
    → id < motif_count
    → let ns = get_or motifs id [] in
      ((run (length ns) (start p id now)).0 ≡ map some ns)
      × ((run (length ns) (start p id now)).1.m ≡ none)
run-start p id now h =
    let (some_note, few) = sized id h in
    rw started (run_whole (get_or motifs id []) now some_note few)
  where
    sized :
        (i : ℕ) → i < 11 → (0 < length (get_or motifs i [])) × (length (get_or motifs i []) < 256)
    sized i l = All-get_or (λ ns. (0 < length ns) × (length ns < 256)) motifs i [] (ground arith) l

    started : start p id now ≡ ready (get_or motifs id []) 0 now
    started = unfold start in if_false (leb motif_count id) _ _ (ground arith)
