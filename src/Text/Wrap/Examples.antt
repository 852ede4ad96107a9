-- ===== src/Text/Wrap/Examples.antt =====
-- The wrap at concrete inputs.
use sticks3_buddy.Prelude.{
  ◌≤◌, ◌≡◌, refl, [], ◌∷◌, ◌++◌, arith, length, get_or, replicate, All, codes,
}
use sticks3_buddy.Text.Wrap.Fits.{wrap_into-Fits}
use sticks3_buddy.Text.Wrap.{
  wrap_into, wrap_loop, place, hard_break, spaced, skip_spaces, next_word,
}

wraps :
    wrap_into (codes "run the tests again") 8 10
    ≡ (codes "run the" ∷ (codes " tests" ∷ (codes " again" ∷ [])))
unfolding wrap_into wrap_loop place hard_break spaced skip_spaces next_word
wraps = refl

wrap_into-Fits_example :
    let rows = wrap_into (codes "run the tests again") 8 10 in
    All (λ r. (length r ≤ 10) × (length r ≤ 23)) rows × (length rows ≤ 8)
wrap_into-Fits_example =
    wrap_into-Fits (codes "run the tests again") 8 10 (omega arith) (omega arith)

-- The width that a word of 255 bytes needs is counted as 0, and it runs past the end of a row that
-- is full.
long_word_runs :
    length (get_or (wrap_into (replicate 22 120 ++ (32 ∷ replicate 255 121)) 8 23) 0 []) ≡ 278
unfolding wrap_into wrap_loop place hard_break spaced skip_spaces next_word
long_word_runs = refl
