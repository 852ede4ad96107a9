-- ===== src/Text/Wrap.antt =====
-- The greedy word wrap of src/logic/wrap_text_logic.h into rows of 24 bytes. A row is the list of its
-- bytes, so what would go past the end of a row makes it too long. The loops run on fuel: the
-- length of the text, and of the word, of which each round takes a byte or more.
use sticks3_buddy.Prelude.{
  ℕ, zero, suc, ◌+◌, ◌-◌, Bool, not, ◌&&◌, ◌||◌, List, [], ◌∷◌, ◌++◌, ltb, leb, ◌==◌, if◌then◌else◌,
  length, get_or, take, drop, u8, Bytes,
}
pub mod Fits
mod Examples

-- The rows that are finished, and the text of the row that is being filled: `col` is its length.
pub record Wrap : Type 0 where
  pub rows : List Bytes
  pub cur : Bytes

unfoldable pub skip_spaces : Bytes → Bytes
skip_spaces [] = []
skip_spaces (c ∷ p) = let rest = skip_spaces p in if c == 32 then rest else c ∷ p

unfoldable pub next_word : Bytes → Bytes
next_word [] = []
next_word (c ∷ p) = let rest = next_word p in if c == 32 then [] else c ∷ rest

module _ (width max_rows : ℕ) where
  abbrev pub is_full : Wrap → Bool
  is_full w = leb max_rows (length w.rows)

  -- The row ends, and the next one begins with the indent.
  abbrev pub break_row : Wrap → Wrap
  break_row w = record { rows = w.rows ++ (w.cur ∷ []); cur = 32 ∷ [] }

  -- The word goes into the row, broken where it is longer than what is left of it.
  unfoldable pub hard_break : ℕ → Bytes → Wrap → Wrap
  hard_break zero word w = record w { cur = w.cur ++ word }
  hard_break (suc fuel) word w =
      let room = width - length w.cur in
      let broken = break_row (record w { cur = w.cur ++ take room word }) in
      let more = hard_break fuel (drop room word) broken in
      if ltb (length w.cur) width && ltb room (length word)
      then (if is_full broken then broken else more)
      else record w { cur = w.cur ++ word }

  -- A space stands between two words of a row, where it has more than the indent.
  unfoldable pub spaced : Wrap → Wrap
  spaced w =
      if ltb 1 (length w.cur) || ((length w.cur == 1) && not (get_or w.cur 0 0 == 32))
      then record w { cur = w.cur ++ (32 ∷ []) }
      else w

  unfoldable pub place : Bytes → Wrap → Wrap
  unfolding hard_break spaced
  place word w =
      let need = u8 ((if ltb 0 (length w.cur) then 1 else 0) + length word) in
      let broken = break_row w in
      if ltb width (length w.cur + need)
      then (if is_full broken then broken else hard_break (length word) word (spaced broken))
      else hard_break (length word) word (spaced w)

  -- One round for each word; its length is kept in a uint8_t.
  unfoldable pub wrap_loop : ℕ → Bytes → Wrap → Wrap
  unfolding skip_spaces next_word place
  wrap_loop zero p w = w
  wrap_loop (suc fuel) p w =
      let q = skip_spaces p in
      let word = next_word q in
      let short = take (u8 (length word)) word in
      let more = wrap_loop fuel (drop (length word) q) (place short w) in
      if (length p == 0) || is_full w then w else if length short == 0 then w else more

unfoldable pub wrap_into : Bytes → ℕ → ℕ → List Bytes
unfolding wrap_loop
wrap_into text max_rows width =
    let fit = if ltb 23 width then 23 else width in
    let w = wrap_loop fit max_rows (length text) text (record { rows = []; cur = [] }) in
    if ltb 0 (length w.cur) && ltb (length w.rows) max_rows then w.rows ++ (w.cur ∷ []) else w.rows
