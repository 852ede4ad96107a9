-- ===== src/Ble/Examples.antt =====
-- The BLE bridge at concrete inputs.
use sticks3_buddy.Prelude.{
  inl, ◌⊎◌, ℕ, ◌+◌, ◌≤◌, ◌<◌, ◌≡◌, refl, true, none, some, List, [], ◌∷◌, arith, if◌then◌else◌,
  length, get_or, All, add32, Bytes, codes, bytes_eq,
}
use sticks3_buddy.Ble.Ring.{Ring, push, read, Call, pushed, reads, run}
use sticks3_buddy.Ble.Ring.Queue
use sticks3_buddy.Ble.Ring.Refine.{IsValid, contents, run-Refines}
use sticks3_buddy.Ble.Link.{
  Bridge, BondStore, drop_link, ask, is_bonded, any_bond, on_connect, on_disconnect,
  on_authentication_complete, allow_pairing, pairing_tick,
}
use sticks3_buddy.Ble.Link.Attribution.{
  Reach, here, next, connects, authenticates, disconnects, boot, IsAttributed, Reach-IsAttributed,
}
use sticks3_buddy.Ble.Link.Window.{let_in, pairing_window_gates}
use sticks3_buddy.Ble.Bonds.{
  no_bond, any_candidate, is_entry_of, candidates, bond_key, bond_key-entry,
}
use sticks3_buddy.Ble.Chunks.{sent_by, chunk_size, chunks_loop, write, joined, joined-write}

-- Four places, so three bytes; the head stands at the end.
abbrev small : Ring
small = record { buf = 0 ∷ 0 ∷ 0 ∷ 7 ∷ []; head = 0; tail = 3 }

small-IsValid : IsValid 4 small
small-IsValid = record { head_in = omega arith; tail_in = omega arith; whole = refl }

abbrev calls : List Call
calls = pushed (1 ∷ 2 ∷ 3 ∷ []) ∷ reads ∷ reads ∷ reads ∷ reads ∷ []

run_runs : (run 4 small calls).1 ≡ some 7 ∷ some 1 ∷ some 2 ∷ none ∷ []
unfolding run push read
run_runs = refl

run-Refines_example : (run 4 small calls).1 ≡ Queue.run 4 (contents 4 small) calls
run-Refines_example = run-Refines 4 calls small small-IsValid

abbrev laptop : Bytes
laptop = 1 ∷ 2 ∷ 3 ∷ 4 ∷ 5 ∷ 6 ∷ []

abbrev tablet : Bytes
tablet = 9 ∷ 9 ∷ 9 ∷ 9 ∷ 9 ∷ 9 ∷ []

abbrev bonded : BondStore
bonded = record { num = 1; list = some (record { addr = laptop; identity = some tablet } ∷ []) }

-- The laptop connects and authenticates, and an event of a link that was turned away comes late.
abbrev met : Bridge
met =
    on_disconnect tablet
      (on_authentication_complete laptop true (on_connect 5 bonded laptop 0 boot))

met_reached : Reach boot met
met_reached =
    next
      (next (next here (connects boot 5 bonded laptop 0 (inl refl))) (authenticates _ laptop true))
      (disconnects _ tablet)

Reach-IsAttributed_example : IsAttributed met
Reach-IsAttributed_example = Reach-IsAttributed met_reached

pairing_window_gates_example :
    let w = allow_pairing 4294967000 true 60000 boot in
    let t = add32 4294967000 1000 in
    ((1000 < 60000)
      × (on_connect t bonded laptop 3 w
          ≡ (if is_bonded bonded laptop then ask (drop_link 3) w else let_in laptop w)))
    ⊎ ((60000 < 1000)
        × (on_connect t bonded laptop 3 w
            ≡ (if is_bonded bonded laptop then let_in laptop w else ask (drop_link 3) w))
        × ((pairing_tick t w).pair_win_until ≡ 0))
pairing_window_gates_example =
    pairing_window_gates boot bonded laptop 4294967000 60000 1000 3 (omega arith) (omega arith)
      (omega arith) (omega arith) (λ e. omega (arith, e))

abbrev private_link : Bridge
private_link = record boot {
  connected = true;
  peer = some (7 ∷ []);
  auth = some (7 ∷ []);
  pid = some tablet;
}

bond_key-entry_example :
    (i : ℕ) × (i < 1)
    × (bond_key bonded private_link
        ≡ some (get_or (record { addr = laptop; identity = some tablet } ∷ []) i no_bond).addr)
    × (any_candidate
          (is_entry_of (get_or (record { addr = laptop; identity = some tablet } ∷ []) i no_bond))
          (candidates private_link)
        ≡ true)
bond_key-entry_example =
    bond_key-entry bonded private_link (record { addr = laptop; identity = some tablet } ∷ []) refl
      (omega arith) refl matched
  where
    matched :
        any_bond
          (λ d. any_candidate (is_entry_of d) (candidates private_link))
          (record { addr = laptop; identity = some tablet } ∷ [])
        ≡ true
    matched = unfold any_bond any_candidate bytes_eq in refl

write_runs : write true 5 (codes "hello") ≡ (codes "he" ∷ codes "ll" ∷ codes "o" ∷ [], 5)
unfolding write sent_by chunks_loop chunk_size
write_runs = refl

joined-write_example :
    (joined (write true 23 (codes "hello")).0 ≡ codes "hello")
    × All (λ c. length c + 3 ≤ 23) (write true 23 (codes "hello")).0
    × ((write true 23 (codes "hello")).1 ≡ 5)
joined-write_example = joined-write 23 (codes "hello") (omega arith)
