-- ===== src/HostLink/Pinning.antt =====
-- The policy around the pinned host: the soft reject, the fallback, and what the removals do to
-- the pin.
use sticks3_buddy.Prelude.{
  List, All, ℕ, ◌<◌, ◌≡◌, refl, ap, ◌∙◌, inl, inr, true, false, Option, none, some, [], ◌∷◌, ◌++◌,
  arith, leb, ◌==◌, if◌then◌else◌, Bool-cases, before32,
}
use sticks3_buddy.Hosts.{host, remap_pin}
use sticks3_buddy.Hosts.Keys.{IsValid}
use sticks3_buddy.Hosts.Removal.{dropped, dropped-IsValid, pinned_host, names, pinned_host-dropped}
use sticks3_buddy.HostLink.{Glue, Radio, remove_bond, drop_slot}
use sticks3_buddy.HostLink.Store.{save, save_glue}
use sticks3_buddy.HostLink.Poll.{on_secure, poll}
use sticks3_buddy.HostLink.Controls.{is_slot, shifted, forget, drop_link}

-- What decides about the link of a rejected host.
abbrev Same : Glue → Glue → Type 0
Same x y = (x.doom_at ≡ y.doom_at) × (x.conn_selected ≡ y.conn_selected)

-- The link is that of a rejected host, which is dropped at that time.
pub record IsDoomed (time : ℕ) (g : Glue) : Type 0 where
  pub seen : g.was_conn ≡ true
  pub not_selected : g.conn_selected ≡ false
  pub due : g.doom_at ≡ time

-- The polls of the main loop, with their times and what the radio says.
unfoldable pub polls : List (ℕ × Radio) → Glue → Glue
polls [] g = g
polls ((now, r) ∷ rest) g = polls rest (poll now r g)

-- Polls at which the link is up and the time has not come.
abbrev pub AreEarly : ℕ → List (ℕ × Radio) → Type 0
AreEarly time between =
    All (λ (s : ℕ × Radio). (s.1.connected ≡ true) × (before32 s.0 time ≡ true)) between

-- What a poll does to a link that is up after its first part.
linked : Radio → Glue → Glue
linked r g = record (on_secure r g) { was_conn = true; was_secure = r.secure }

-- After a removal the pin and the link name the same hosts as before, in whatever slots they now
-- are; the bond of the removed host is given up, and the new registry is the one that is saved.
pub forget-pinned :
    (g : Glue) (slot : ℕ)
    → IsValid g.table
    → slot < g.table.count
    → let u = forget slot g in
      IsValid u.table
      × (pinned_host u.table u.pin ≡ (if names g.pin slot then none else pinned_host g.table g.pin))
      × (pinned_host u.table u.conn_slot
          ≡ (if names g.conn_slot slot then none else pinned_host g.table g.conn_slot))
      × (u.done ≡ (drop_link slot g).done ++ (remove_bond (host g.table slot).bda ∷ []))
      × (u.nvs ≡ save u.table g.nvs)
unfolding forget drop_slot save_glue drop_link
forget-pinned g slot v h = rw in_use (
  dropped-IsValid g.table slot v h,
  pinned_host-dropped g.table slot g.pin v h,
  ap (pinned_host (dropped g.table slot)) (follows g.conn_slot)
      ∙ pinned_host-dropped g.table slot g.conn_slot v h,
  refl,
  refl,
)
  where
    follows : (o : Option ℕ) → shifted (if is_slot o slot then none else o) slot ≡ remap_pin o slot
    follows none = unfold remap_pin in refl
    follows (some i) =
        unfold remap_pin in elim (Bool-cases (i == slot)) [ inl e ↦ rw e refl | inr e ↦ rw e refl ]

    in_use : leb g.table.count slot ≡ false
    in_use = ground arith
