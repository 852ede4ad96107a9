-- ===== src/Ota/Examples.antt =====
-- The tag of a release at concrete inputs.
use sticks3_buddy.Prelude.{◌<◌, ◌≡◌, refl, none, some, ◌∷◌, ◌++◌, All, Bytes, codes}
use sticks3_buddy.Ota.{
  release_mark, drop_v, parse_tag_from_location, find_after, strip, before_slash,
}
use sticks3_buddy.Ota.Tag.{NoSlash, parse_tag-whole}

abbrev redirect : Bytes
redirect = codes "https://github.com/o/r/releases/download/v1.4.2/firmware.bin"

clipped_runs : parse_tag_from_location (some redirect) 5 ≡ none
unfolding parse_tag_from_location find_after strip before_slash
clipped_runs = refl

parse_tag-whole_example :
    (before raw after : Bytes) × (redirect ≡ before ++ (release_mark ++ (raw ++ (47 ∷ after))))
    × (drop_v raw ≡ codes "1.4.2")
    × All NoSlash raw
    × (0 < 5)
    × (5 < 16)
unfolding parse_tag_from_location find_after strip before_slash
parse_tag-whole_example = parse_tag-whole redirect (codes "1.4.2") 16 refl
