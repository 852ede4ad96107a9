-- ===== src/Text/Wrap/Fits.antt =====
-- The wrap stays within its rows.
use sticks3_buddy.Prelude.{
  ℕ, zero, suc, ◌+◌, ◌-◌, ◌≤◌, ◌<◌, ◌≡◌, refl, ◌⊎◌, inl, inr, false, not, ◌&&◌, ◌||◌, List, [], ◌∷◌,
  ◌++◌, arith, ltb, ◌==◌, if◌then◌else◌, if_split, Bool-cases, length, get_or, take, drop, All,
  All-append, All-map, length-append, length-take_le, length-drop, u8, Bytes,
}
use sticks3_buddy.Text.Wrap.{
  Wrap, skip_spaces, next_word, is_full, break_row, hard_break, spaced, place, wrap_loop, wrap_into,
}

-- Every row fits the width, and there are not too many.
pub record Fits (width max_rows : ℕ) (w : Wrap) : Type 0 where
  pub rows_fit : All (λ r. length r ≤ width) w.rows
  pub cur_fits : length w.cur ≤ width
  pub few : length w.rows ≤ max_rows

module _ (width max_rows : ℕ) (wide : 1 < width) where
  break_row-Fits :
      (w : Wrap)
      → Fits width max_rows w
      → length w.rows < max_rows
      → Fits width max_rows (break_row width max_rows w)
  break_row-Fits w v h = record {
    rows_fit = All-append (λ r. length r ≤ width) w.rows (w.cur ∷ []) v.rows_fit (v.cur_fits, tt);
    cur_fits = omega (arith, wide);
    few = omega (arith, length-append w.rows (w.cur ∷ []), h);
  }

  -- The last part of a word, which fits.
  last-Fits :
      (word : Bytes) (w : Wrap)
      → Fits width max_rows w
      → length w.cur + length word ≤ width
      → Fits width max_rows (record w { cur = w.cur ++ word })
  last-Fits word w v h = record {
    rows_fit = v.rows_fit;
    cur_fits = omega (arith, length-append w.cur word, h);
    few = v.few;
  }

  hard_break-Fits :
      (fuel : ℕ) (word : Bytes) (w : Wrap)
      → length word ≤ fuel
      → Fits width max_rows w
      → length w.rows < max_rows
      → (length w.cur < width) ⊎ (length w.cur + length word ≤ width)
      → Fits width max_rows (hard_break width max_rows fuel word w)
  unfolding hard_break
  hard_break-Fits zero word w l v r h = last-Fits word w v (omega (arith, l, v.cur_fits))
  hard_break-Fits (suc fuel) word w l v r h =
      if_split (Fits width max_rows)
        (ltb (length w.cur) width && ltb (width - length w.cur) (length word))
        (λ e.
          if_split (Fits width max_rows) (is_full width max_rows cut) (λ f. cut-Fits)
            (λ f.
              hard_break-Fits fuel (drop (width - length w.cur) word) cut
                (shorter (ground (arith, e))) cut-Fits (ground (arith, f)) (inl wide)))
        (λ e. last-Fits word w v (fits e h))
    where
      filled : Wrap
      filled = record w { cur = w.cur ++ take (width - length w.cur) word }

      cut : Wrap
      cut = break_row width max_rows filled

      cut-Fits : Fits width max_rows cut
      cut-Fits =
          break_row-Fits filled
            (last-Fits (take (width - length w.cur) word) w v
              (omega (arith, length-take_le (width - length w.cur) word, v.cur_fits)))
            r

      shorter : length w.cur < width → length (drop (width - length w.cur) word) ≤ fuel
      shorter k = omega (arith, length-drop (width - length w.cur) word, l, k)

      fits :
          (ltb (length w.cur) width && ltb (width - length w.cur) (length word)) ≡ false
          → (length w.cur < width) ⊎ (length w.cur + length word ≤ width)
          → length w.cur + length word ≤ width
      fits e (inl k) = ground (arith, e, k)
      fits e (inr k) = k

  -- Where a word goes that is short enough for its length to be counted.
  spaced-Fits :
      (w : Wrap) (n : ℕ)
      → Fits width max_rows w
      → (length w.cur < 1) ⊎ (length w.cur + 1 + n ≤ width)
      → let u = spaced width max_rows w in
        Fits width max_rows u
        × (length u.rows ≡ length w.rows)
        × ((length u.cur < width) ⊎ (length u.cur + n ≤ width))
  unfolding spaced
  spaced-Fits w n v h =
      if_split
        (λ (u : Wrap).
          Fits width max_rows u
          × (length u.rows ≡ length w.rows)
          × ((length u.cur < width) ⊎ (length u.cur + n ≤ width)))
        (ltb 1 (length w.cur) || ((length w.cur == 1) && not (get_or w.cur 0 0 == 32)))
        (λ e.
          (last-Fits (32 ∷ []) w v (ground (arith, e, h)), refl, inr (room (ground (arith, e, h)))))
        (λ e. (v, refl, left h))
    where
      room : length w.cur + 1 + n ≤ width → length (w.cur ++ (32 ∷ [])) + n ≤ width
      room k = omega (arith, length-append w.cur (32 ∷ []), k)

      left :
          (length w.cur < 1) ⊎ (length w.cur + 1 + n ≤ width)
          → (length w.cur < width) ⊎ (length w.cur + n ≤ width)
      left (inl k) = inl (omega (arith, k, wide))
      left (inr k) = inr (omega (arith, k))

  place-Fits :
      (word : Bytes) (w : Wrap)
      → length word < 255
      → Fits width max_rows w
      → length w.rows < max_rows
      → Fits width max_rows (place width max_rows word w)
  unfolding place spaced
  place-Fits word w s v r =
      if_split (Fits width max_rows) (ltb width (length w.cur + need))
        (λ e.
          if_split (Fits width max_rows) (is_full width max_rows (break_row width max_rows w))
            (λ f. next)
            (λ f.
              hard_break-Fits (length word) word (break_row width max_rows w) (omega arith) next
                (ground (arith, f)) (inl wide)))
        (λ e.
          let (ok, same, room) = spaced-Fits w (length word) v (one_line e) in
          hard_break-Fits (length word) word (spaced width max_rows w) (omega arith) ok
            (omega (arith, same, r)) room)
    where
      need : ℕ
      need = u8 ((if ltb 0 (length w.cur) then 1 else 0) + length word)

      next : Fits width max_rows (break_row width max_rows w)
      next = break_row-Fits w v r

      one_line :
          ltb width (length w.cur + need) ≡ false
          → (length w.cur < 1) ⊎ (length w.cur + 1 + length word ≤ width)
      one_line e = elim (Bool-cases (ltb 0 (length w.cur))) [
        | inl k ↦ inr (ground (arith, e, k, s))
        | inr k ↦ inl (ground (arith, k))
      ]

skip_spaces_le : (p : Bytes) → length (skip_spaces p) ≤ length p
unfolding skip_spaces
skip_spaces_le [] = omega arith
skip_spaces_le (c ∷ p) = ground (arith, skip_spaces_le p)

next_word_le : (p : Bytes) → length (next_word p) ≤ length p
unfolding next_word
next_word_le [] = omega arith
next_word_le (c ∷ p) = ground (arith, next_word_le p)

wrap_loop-Fits :
    (width max_rows fuel : ℕ) (p : Bytes) (w : Wrap)
    → 1 < width
    → length p < 255
    → Fits width max_rows w
    → Fits width max_rows (wrap_loop width max_rows fuel p w)
unfolding wrap_loop
wrap_loop-Fits width max_rows zero p w k l v = v
wrap_loop-Fits width max_rows (suc fuel) p w k l v =
    if_split (Fits width max_rows) ((length p == 0) || is_full width max_rows w) (λ e. v)
      (λ e.
        if_split (Fits width max_rows) (length short == 0) (λ f. v)
          (λ f.
            wrap_loop-Fits width max_rows fuel (drop (length word) q) (place width max_rows short w)
              k (omega (arith, length-drop (length word) q, skip_spaces_le p, l))
              (place-Fits width max_rows k short w
                (omega (arith, length-take_le (u8 (length word)) word, small)) v
                (ground (arith, e)))))
  where
    q : Bytes
    q = skip_spaces p

    word : Bytes
    word = next_word q

    short : Bytes
    short = take (u8 (length word)) word

    small : u8 (length word) < 255
    small = omega (arith, next_word_le q, skip_spaces_le p, l)

-- A text of less than 255 bytes, wrapped to a width of 2 or more, takes at most the given number of
-- rows, and each row fits the width and, with its terminator, the 24 bytes of its storage.
pub wrap_into-Fits :
    (text : Bytes) (max_rows width : ℕ)
    → 1 < width
    → length text < 255
    → let rows = wrap_into text max_rows width in
      All (λ r. (length r ≤ width) × (length r ≤ 23)) rows × (length rows ≤ max_rows)
unfolding wrap_into
wrap_into-Fits text max_rows width k l = (
  All-map (λ r (h : length r ≤ fit). (omega (arith, h, clipped.0), omega (arith, h, clipped.1)))
      rows all.0,
  all.1,
)
  where
    fit : ℕ
    fit = if ltb 23 width then 23 else width

    clipped : (fit ≤ width) × (fit ≤ 23) × (1 < fit)
    clipped = (ground (arith, k), ground (arith, k), ground (arith, k))

    w : Wrap
    w = wrap_loop fit max_rows (length text) text (record { rows = []; cur = [] })

    v : Fits fit max_rows w
    v =
        wrap_loop-Fits fit max_rows (length text) text (record { rows = []; cur = [] }) clipped.2 l
          (record { rows_fit = tt; cur_fits = omega arith; few = omega arith })

    rows : List Bytes
    rows = wrap_into text max_rows width

    all : All (λ r. length r ≤ fit) rows × (length rows ≤ max_rows)
    all =
        if_split (λ (rs : List Bytes). All (λ r. length r ≤ fit) rs × (length rs ≤ max_rows))
          (ltb 0 (length w.cur) && ltb (length w.rows) max_rows)
          (λ e. (
            All-append (λ r. length r ≤ fit) w.rows (w.cur ∷ []) v.rows_fit (v.cur_fits, tt),
            ground (arith, length-append w.rows (w.cur ∷ []), e),
          ))
          (λ e. (v.rows_fit, v.few))
