-- ===== src/Motifs.antt =====
-- The motif player (src/audio/motifs.h).
use sticks3_buddy.Prelude.{
  ℕ, ◌+◌, Bool, Option, none, some, List, [], ◌∷◌, leb, if◌then◌else◌, is_some, length, get_or, u8,
  u32, before32,
}
mod Play
mod Examples

pub record MotifNote : Type 0 where
  pub freq : ℕ
  pub dur_ms : ℕ
  pub gap_ms : ℕ

abbrev note : ℕ → ℕ → ℕ → MotifNote
note freq dur_ms gap_ms = record { freq = freq; dur_ms = dur_ms; gap_ms = gap_ms }

-- MOTIFS, in the order of the ids; MOTIF_OTA_OK is MOTIF_EV_DONE.
abbrev pub motifs : List (List MotifNote)
motifs =
    (note 1200 70 20 ∷ note 1600 70 20 ∷ note 2000 70 0 ∷ [])
    ∷ (note 2400 60 0 ∷ [])
    ∷ (note 600 90 0 ∷ [])
    ∷ (note 2000 100 30 ∷ note 2800 150 0 ∷ [])
    ∷ (note 900 40 0 ∷ [])
    ∷ (note 900 50 20 ∷ note 1400 60 0 ∷ [])
    ∷ (note 1400 50 20 ∷ note 900 60 0 ∷ [])
    ∷ (note 1000 60 60 ∷ note 1000 60 0 ∷ [])
    ∷ (note 2000 100 30 ∷ note 2800 150 0 ∷ [])
    ∷ (note 500 90 40 ∷ note 500 90 40 ∷ note 500 90 0 ∷ [])
    ∷ (note 1800 60 0 ∷ [])
    ∷ []

-- MOTIF_COUNT
abbrev pub motif_count : ℕ
motif_count = 11

-- `none` is the idle player.
pub record MotifPlayer : Type 0 where
  pub m : Option (List MotifNote)
  pub idx : ℕ
  pub next_at : ℕ

unfoldable pub reset : MotifPlayer
reset = record { m = none; idx = 0; next_at = 0 }

-- A new motif takes over from the one that plays.
unfoldable pub start : MotifPlayer → ℕ → ℕ → MotifPlayer
unfolding reset
start p id now =
    if leb motif_count id
    then reset
    else record { m = some (get_or motifs id []); idx = 0; next_at = now }

unfoldable pub active : MotifPlayer → Bool
active p = is_some p.m

-- The note that is due, and the player behind it: idle after the last note.
unfoldable pub emit : MotifPlayer → List MotifNote → ℕ → MotifPlayer × Option MotifNote
emit p ns now =
    let n = get_or ns p.idx (note 0 0 0) in
    let last = leb (length ns) (p.idx + 1) in
    (
      record {
        m = if last then none else some ns;
        idx = if last then 0 else u8 (p.idx + 1);
        next_at = u32 (now + n.dur_ms + n.gap_ms);
      },
      some n,
    )

unfoldable pub tick_notes :
    MotifPlayer → Option (List MotifNote) → ℕ → MotifPlayer × Option MotifNote
unfolding emit
tick_notes p none now = (p, none)
tick_notes p (some ns) now = if before32 now p.next_at then (p, none) else emit p ns now

unfoldable pub tick : MotifPlayer → ℕ → MotifPlayer × Option MotifNote
unfolding tick_notes
tick p now = tick_notes p p.m now
