-- ===== src/Motifs/Examples.antt =====
-- A motif at concrete inputs.
use sticks3_buddy.Prelude.{◌≡◌, none, some, [], map, arith, get_or}
use sticks3_buddy.Motifs.{reset, start, motifs}
use sticks3_buddy.Motifs.Play.{run, run-start}

run-start_test :
    ((run 3 (start reset 0 70000)).0 ≡ map some (get_or motifs 0 []))
    × ((run 3 (start reset 0 70000)).1.m ≡ none)
run-start_test = run-start reset 0 70000 (omega arith)
