-- ===== src/Hosts/Examples.antt =====
-- The host registry at concrete inputs.
use sticks3_buddy.Prelude.{
  ℕ, zero, suc, ◌≤◌, ◌<◌, ◌≡◌, refl, none, some, [], ◌∷◌, arith, if◌then◌else◌, Bytes, codes,
  bytes_eq, first_index,
}
use sticks3_buddy.Text.Utf8.{sanitize, sanitize_loop, render}
use sticks3_buddy.Hosts.{
  HostTable, host, init, find_bda, adopt, hello_route, greeted, hello, rekey, remap_pin, lru,
}
use sticks3_buddy.Hosts.Keys.{IsValid, init-IsValid, adopt-IsValid, rekey-IsValid}
use sticks3_buddy.Hosts.Hello.{hello_route-owner, hello_route-others}
use sticks3_buddy.Hosts.Removal.{dropped, pinned_host, names, pinned_host-dropped, find_bda-dropped}
use sticks3_buddy.Hosts.Recency.{lru-least}

abbrev desk : Bytes
desk = 1 ∷ 2 ∷ 3 ∷ 4 ∷ 5 ∷ 6 ∷ []

abbrev laptop : Bytes
laptop = 9 ∷ 2 ∷ 3 ∷ 4 ∷ 5 ∷ 6 ∷ []

-- Two hosts, adopted in this order.
two : HostTable
two = (adopt (adopt init desk).0 laptop).0

two_names : (host two 1).name ≡ codes "Host-2"
unfolding two adopt init
two_names = refl

two_hello :
    (host (hello_route two desk (some (codes "abc")) (some (codes "Desk")) none).0 0).name
    ≡ codes "Desk"
unfolding two adopt init hello_route hello greeted find_bda first_index bytes_eq sanitize
    sanitize_loop render
two_hello = refl

two-IsValid : IsValid two
unfolding two
two-IsValid =
    adopt-IsValid (adopt init desk).0 laptop
      (adopt-IsValid init desk init-IsValid (unfold init find_bda first_index in refl)
        (unfold init in omega arith))
      (unfold adopt init find_bda first_index bytes_eq in refl) (unfold adopt init in omega arith)

abbrev phone : Bytes
phone = 7 ∷ 7 ∷ 7 ∷ 7 ∷ 7 ∷ 7 ∷ []

hello_route-owner_example :
    let u = (hello_route two phone none (some (codes "Phone")) none).0 in
    IsValid u
    × (find_bda u phone ≡ some 2)
    × ((host u 2).name ≡ sanitize 24 (some (codes "Phone")))
    × ((host u 2).last_seen ≡ u.seq)
hello_route-owner_example =
    hello_route-owner two phone none (some (codes "Phone")) none 2 two-IsValid
      (unfold two adopt init in omega arith) refl
      (unfold two adopt init hello_route find_bda first_index bytes_eq in refl)

hello_route-others_test :
    host (hello_route two laptop none (some (codes "Mac")) none).0 0 ≡ host two 0
hello_route-others_test =
    hello_route-others two laptop none (some (codes "Mac")) none 0 two-IsValid
      (unfold two adopt init in omega arith) (unfold two adopt init in λ e. ground arith)

rekey-IsValid_test : IsValid (rekey two (some 0) phone).0
rekey-IsValid_test = rekey-IsValid two (some 0) phone two-IsValid

pinned_host-dropped_example :
    pinned_host (dropped two 0) (remap_pin (some 1) 0)
    ≡ (if names (some 1) 0 then none else pinned_host two (some 1))
pinned_host-dropped_example =
    pinned_host-dropped two 0 (some 1) two-IsValid (unfold two adopt init in omega arith)

find_bda-dropped_test : find_bda (dropped two 0) (host two 1).bda ≡ remap_pin (some 1) 0
find_bda-dropped_test =
    find_bda-dropped two 0 1 two-IsValid (unfold two adopt init in omega arith)
      (unfold two adopt init in omega arith)

two_stamps : (m : ℕ) → m < two.count → (host two m).last_seen < 0xFFFFFFFF
unfolding two adopt init
two_stamps zero h = omega arith
two_stamps (suc zero) h = omega arith
two_stamps (suc (suc m)) h = absurd (omega arith)

lru-least_test :
    (v : ℕ) × (lru two ≡ some v)
    × (v < two.count)
    × ((m : ℕ) → m < two.count → (host two v).last_seen ≤ (host two m).last_seen)
lru-least_test = lru-least two (unfold two adopt init in omega arith) two_stamps
