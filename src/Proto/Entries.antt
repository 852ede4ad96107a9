-- ===== src/Proto/Entries.antt =====
-- The entries of a heartbeat: the newest eight are kept, and where the array is overrun.
use sticks3_buddy.Prelude.{
  u8, map, sym, take, take_ext, length-map, get_or-map, ◌||◌, leb, Bool, set, ℕ, zero, suc, ◌+◌,
  ◌-◌, ◌≤◌, ◌<◌, min, ◌≡◌, refl, ap, ◌∙◌, inl, inr, true, false, some, List, [], ◌∷◌, arith, ltb,
  Bool-cases, length, get_or, drop, length-set, length-drop, Bytes, get_or-set_self, get_or-set_ne,
}
use sticks3_buddy.Text.Utf8.{sanitize}
use sticks3_buddy.Proto.Json.{Json}
use sticks3_buddy.Proto.State.{TamaState}
use sticks3_buddy.Proto.Reply.{text_or}
use sticks3_buddy.Proto.Heartbeat.{skipped, entries_loop, show_entries, entries}

module _ {V : Type 0} (json : Json V) where
  -- The text that an element is shown as.
  abbrev pub entry_text : V → Bytes
  entry_text v = sanitize 92 (some (text_or json v))

  entries_loop-skip :
      (vs : List V) (k : ℕ) (lines : List Bytes) (n : ℕ) (over : Bool)
      → k ≤ length vs
      → entries_loop json vs k lines n over ≡ entries_loop json (drop k vs) 0 lines n over
  unfolding entries_loop
  entries_loop-skip vs zero lines n over h = refl
  entries_loop-skip [] (suc k) lines n over h = absurd (omega arith)
  entries_loop-skip (v ∷ vs) (suc k) lines n over h =
      entries_loop-skip vs k lines n over (omega arith)

  loop_step :
      (v : V) (vs : List V) (lines : List Bytes) (n : ℕ) (over : Bool)
      → n ≤ 254
      → entries_loop json (v ∷ vs) 0 lines n over
        ≡ entries_loop json vs 0 (set lines n (entry_text v)) (n + 1) (over || leb 8 n)
  unfolding entries_loop
  loop_step v vs lines n over h =
      ap (λ (x : ℕ). entries_loop json vs 0 (set lines n (entry_text v)) x (over || leb 8 n))
        (omega arith)

  loop_room :
      (v : V) (vs : List V) (lines : List Bytes) (n : ℕ)
      → n < 8
      → entries_loop json (v ∷ vs) 0 lines n false
        ≡ entries_loop json vs 0 (set lines n (entry_text v)) (n + 1) false
  loop_room v vs lines n h =
      loop_step v vs lines n false (omega arith)
      ∙ ap (λ (b : Bool). entries_loop json vs 0 (set lines n (entry_text v)) (n + 1) b)
          (ground arith)

  -- With room for all of them no write goes past the array.
  entries_loop_fits :
      (vs : List V) (lines : List Bytes) (n : ℕ)
      → n + length vs ≤ 8
      → ((entries_loop json vs 0 lines n false).1 ≡ n + length vs)
        × ((entries_loop json vs 0 lines n false).2 ≡ false)
  entries_loop_fits [] lines n h = unfold entries_loop in (omega arith, refl)
  entries_loop_fits (v ∷ vs) lines n h =
      let (a, b) = entries_loop_fits vs (set lines n (entry_text v)) (n + 1) (omega arith) in
      rw (loop_room v vs lines n (omega arith)) (omega (arith, a), b)

  entries_loop_over :
      (vs : List V) (lines : List Bytes) (n : ℕ) → (entries_loop json vs 0 lines n true).2 ≡ true
  unfolding entries_loop
  entries_loop_over [] lines n = refl
  entries_loop_over (v ∷ vs) lines n = entries_loop_over vs _ _

  entries_loop_overruns :
      (vs : List V) (lines : List Bytes) (n : ℕ)
      → n ≤ 8
      → 8 < n + length vs
      → (entries_loop json vs 0 lines n false).2 ≡ true
  entries_loop_overruns [] lines n h k = absurd (omega arith)
  entries_loop_overruns (v ∷ vs) lines n h k = elim (Bool-cases (ltb n 8)) [
    | inl room ↦
        rw (loop_room v vs lines n (ground arith)) (
          entries_loop_overruns vs (set lines n (entry_text v)) (n + 1) (ground arith)
            (omega arith))
    | inr past ↦
        ap (λ (r : List Bytes × ℕ × Bool). r.2) (loop_step v vs lines n false (omega arith))
        ∙ ap (λ (b : Bool). (entries_loop json vs 0 (set lines n (entry_text v)) (n + 1) b).2)
            (ground arith)
        ∙ entries_loop_over vs (set lines n (entry_text v)) (n + 1)
  ]

  -- The rows below the first one written stay, and row i behind it is the text of element i.
  entries_loop_below :
      (vs : List V) (lines : List Bytes) (n j : ℕ)
      → n + length vs ≤ 8
      → j < n
      → get_or (entries_loop json vs 0 lines n false).0 j [] ≡ get_or lines j []
  entries_loop_below [] lines n j h l = unfold entries_loop in refl
  entries_loop_below (v ∷ vs) lines n j h l = rw (loop_room v vs lines n (omega arith)) (
      entries_loop_below vs (set lines n (entry_text v)) (n + 1) j (omega arith) (omega arith)
      ∙ get_or-set_ne lines n j (entry_text v) [] (omega arith))

  entries_loop_rows :
      (vs : List V) (lines : List Bytes) (n i m : ℕ) (d : V)
      → length lines ≡ 8
      → n + length vs ≤ 8
      → i < length vs
      → m ≡ n + i
      → get_or (entries_loop json vs 0 lines n false).0 m [] ≡ entry_text (get_or vs i d)
  entries_loop_rows [] lines n i m d f h l e = absurd (omega arith)
  entries_loop_rows (v ∷ vs) lines n zero m d f h l e = rw (loop_room v vs lines n (omega arith)) (
      entries_loop_below vs (set lines n (entry_text v)) (n + 1) m (omega arith) (omega arith)
      ∙ ap (λ (x : ℕ). get_or (set lines n (entry_text v)) x []) {y = n} (omega arith)
      ∙ get_or-set_self lines n (entry_text v) [] (omega arith))
  entries_loop_rows (v ∷ vs) lines n (suc i) m d f h l e =
      rw (loop_room v vs lines n (omega arith)) (
        entries_loop_rows vs (set lines n (entry_text v)) (n + 1) i m d
          (length-set lines n (entry_text v) ∙ f) (omega arith) (omega arith) (omega arith))

  length-entries_loop :
      (vs : List V) (lines : List Bytes) (n : ℕ) (over : Bool)
      → length (entries_loop json vs 0 lines n over).0 ≡ length lines
  unfolding entries_loop
  length-entries_loop [] lines n over = refl
  length-entries_loop (v ∷ vs) lines n over =
      length-entries_loop vs (set lines n (entry_text v)) (u8 (n + 1)) (over || leb 8 n)
      ∙ length-set lines n (entry_text v)

  -- A heartbeat with an array of fewer than 256 entries leaves the newest eight, or all if there are
  -- fewer, also where there are none: the rows in use are their texts, in their order.
  pub entries_newest :
      (la : V) (t : TamaState)
      → json.is_array la ≡ true
      → length t.lines ≡ 8
      → length (json.items la) < 256
      → let u = (entries json la t).0 in
        (u.n_lines ≡ min 8 (length (json.items la)))
        × (take u.n_lines u.lines
            ≡ map entry_text (drop (length (json.items la) - 8) (json.items la)))
  unfolding entries show_entries
  entries_newest la t e f h =
      rw (e, k, entries_loop-skip vs (length vs - 8) t.lines 0 false (omega arith))
        (
          count,
          take_ext n (entries_loop json kept 0 t.lines 0 false).0 (map entry_text kept) []
              (omega (arith, count, length-entries_loop kept t.lines 0 false, f))
              (omega (arith, length-map entry_text kept, length-drop (length vs - 8) vs, count))
              same,
        )
    where
      vs : List V
      vs = json.items la

      k : skipped (length vs) ≡ length vs - 8
      k = omega arith

      kept : List V
      kept = drop (length vs - 8) vs

      room : 0 + length kept ≤ 8
      room = omega (arith, length-drop (length vs - 8) vs)

      n : ℕ
      n = (entries_loop json kept 0 t.lines 0 false).1

      count : n ≡ min 8 (length vs)
      count =
          omega (arith, length-drop (length vs - 8) vs, (entries_loop_fits kept t.lines 0 room).0)

      same :
          (i : ℕ)
          → i < n
          → get_or (entries_loop json kept 0 t.lines 0 false).0 i []
            ≡ get_or (map entry_text kept) i []
      same i l =
          entries_loop_rows kept t.lines 0 i i la f room
            (omega (arith, length-drop (length vs - 8) vs, count, l)) (omega arith)
          ∙ sym (
              get_or-map entry_text kept i la []
                (omega (arith, length-drop (length vs - 8) vs, count, l)))

  -- A write goes past the eight rows exactly when there are 256 entries or more.
  pub entries_overrun :
      (la : V) (t : TamaState)
      → json.is_array la ≡ true
      → (entries json la t).1 ≡ leb 256 (length (json.items la))
  unfolding entries show_entries
  entries_overrun la t e =
      rw (e, entries_loop-skip vs (skipped (length vs)) t.lines 0 false (omega arith))
        (elim (Bool-cases (leb 256 (length vs))) [
          | inl many ↦
              entries_loop_overruns kept t.lines 0 (omega arith)
                (ground (arith, length-drop (skipped (length vs)) vs))
              ∙ sym many
          | inr few ↦
              (entries_loop_fits kept t.lines 0
                (ground (arith, length-drop (skipped (length vs)) vs))).1
              ∙ sym few
        ])
    where
      vs : List V
      vs = json.items la

      kept : List V
      kept = drop (skipped (length vs)) vs
