-- ===== src/Ota/Tag.antt =====
-- What is accepted as a tag.
use sticks3_buddy.Prelude.{
  ℕ, ◌<◌, ◌≡◌, ap, subst, ◌∙◌, inl, inr, false, ◌||◌, some, [], ◌∷◌, ◌++◌, arith, leb, ◌==◌,
  Bool-cases, Option-cases, is_some, length, All, Bytes, before,
}
use sticks3_buddy.Ota.{
  release_mark, strip, find_after, before_slash, drop_v, parse_tag_from_location,
}

abbrev pub NoSlash : ℕ → Type 0
NoSlash c = (c == 47) ≡ false

strip_prefix : (m s r : Bytes) → strip m s ≡ some r → s ≡ m ++ r
unfolding strip
strip_prefix [] s r e = cc e
strip_prefix (m ∷ ms) [] r e = cc e
strip_prefix (m ∷ ms) (c ∷ s) r e = elim (Bool-cases (m == c)) [
  | inl h ↦
      ap (λ (k : Bytes). c ∷ k) (strip_prefix ms s r (rw h at e))
      ∙ ap (λ k. k ∷ (ms ++ r)) (ground (arith, h))
  | inr h ↦ cc (rw h at e)
]

find_after_mark :
    (m s r : Bytes) → find_after m s ≡ some r → (before : Bytes) × (s ≡ before ++ (m ++ r))
unfolding find_after
find_after_mark m [] r e = ([], strip_prefix m [] r e)
find_after_mark m (c ∷ s) r e = elim (Bool-cases (is_some (strip m (c ∷ s)))) [
  | inl h ↦ ([], strip_prefix m (c ∷ s) r (rw h at e))
  | inr h ↦
      let (before, same) = find_after_mark m s r (rw h at e) in
      (c ∷ before, ap (λ (k : Bytes). c ∷ k) same)
]

before_slash_first :
    (s raw : Bytes)
    → before_slash s ≡ some raw
    → (after : Bytes) × (s ≡ raw ++ (47 ∷ after)) × All NoSlash raw
unfolding before_slash
before_slash_first [] raw e = cc e
before_slash_first (c ∷ s) raw e = elim (Bool-cases (c == 47)) [
  | inl h ↦
      (s, slash raw (ground (arith, h)) (rw h at e), subst (All NoSlash) (some_eq (rw h at e)) tt)
  | inr h ↦ elim (Option-cases (before_slash s)) [
    | inl none_left ↦ cc (rw (h, none_left) at e)
    | inr (t, found) ↦
        let (after, same, clean) = before_slash_first s t found in
        let whole = some_eq (rw (h, found) at e) in
        (
          after,
          ap (λ (k : Bytes). c ∷ k) same ∙ ap (λ (k : Bytes). k ++ (47 ∷ after)) whole,
          subst (All NoSlash) whole (h, clean),
        )
  ]
]
  where
    some_eq : {a b : Bytes} → some a ≡ some b → a ≡ b
    some_eq k = cc k

    slash : (raw : Bytes) → c ≡ 47 → some [] ≡ some raw → (c ∷ s) ≡ raw ++ (47 ∷ s)
    slash raw h k = subst (λ (t : Bytes). (c ∷ s) ≡ t ++ (47 ∷ s)) (some_eq k) (ap (λ n. n ∷ s) h)

-- A tag is accepted only as a whole path segment after the mark that a slash ends, less a leading v;
-- what follows that slash may be empty. The tag is not empty, has no slash, and fits its buffer with
-- its terminator.
pub parse_tag-whole :
    (location tag : Bytes) (size : ℕ)
    → parse_tag_from_location (some location) size ≡ some tag
    → (before raw after : Bytes) × (location ≡ before ++ (release_mark ++ (raw ++ (47 ∷ after))))
      × (drop_v raw ≡ tag)
      × All NoSlash raw
      × (0 < length tag)
      × (length tag < size)
unfolding parse_tag_from_location
parse_tag-whole location tag size e = elim (Option-cases (find_after release_mark location)) [
  | inl lost ↦ cc (rw lost at e)
  | inr (rest, found) ↦ elim (Option-cases (before_slash rest)) [
    | inl lost ↦ cc (rw (found, lost) at e)
    | inr (raw, cut) ↦
        taken rest raw found cut
          (elim (Bool-cases ((length (drop_v raw) == 0) || leb size (length (drop_v raw)))) [
            | inl bad ↦ cc (rw (found, cut, bad) at e)
            | inr good ↦ (good, cc (rw (found, cut, good) at e))
          ])
  ]
]
  where
    taken :
        (rest raw : Bytes)
        → find_after release_mark location ≡ some rest
        → before_slash rest ≡ some raw
        → (((length (drop_v raw) == 0) || leb size (length (drop_v raw))) ≡ false)
          × (drop_v raw ≡ tag)
        → (before raw after : Bytes) × (location
            ≡ before ++ (release_mark ++ (raw ++ (47 ∷ after))))
          × (drop_v raw ≡ tag)
          × All NoSlash raw
          × (0 < length tag)
          × (length tag < size)
    taken rest raw found cut (good, same) =
        let (before, l) = find_after_mark release_mark location rest found in
        let (after, r, clean) = before_slash_first rest raw cut in
        (
          before,
          raw,
          after,
          l ∙ ap (λ (k : Bytes). before ++ (release_mark ++ k)) r,
          same,
          clean,
          subst (λ (t : Bytes). 0 < length t) same (ground (arith, good)),
          subst (λ (t : Bytes). length t < size) same (ground (arith, good)),
        )
