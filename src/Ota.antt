-- ===== src/Ota.antt =====
-- The version tag of a release in the address that the update is redirected to
-- (src/logic/ota_url_logic.h).
use sticks3_buddy.Prelude.{
  ℕ, ◌||◌, Option, none, some, [], ◌∷◌, leb, ◌==◌, if◌then◌else◌, is_some, length, Bytes, codes,
}
pub mod Tag
mod Examples

abbrev pub release_mark : Bytes
release_mark = codes "/releases/download/"

-- What follows a prefix.
unfoldable pub strip : Bytes → Bytes → Option Bytes
strip [] s = some s
strip (m ∷ ms) [] = none
strip (m ∷ ms) (c ∷ s) = let rest = strip ms s in if m == c then rest else none

-- strstr, and past what it finds.
unfoldable pub find_after : Bytes → Bytes → Option Bytes
unfolding strip
find_after mark [] = strip mark []
find_after mark (c ∷ s) =
    let later = find_after mark s in
    if is_some (strip mark (c ∷ s)) then strip mark (c ∷ s) else later

abbrev pub with_first : ℕ → Option Bytes → Option Bytes
with_first c none = none
with_first c (some s) = some (c ∷ s)

-- The bytes in front of the next slash: `none` where there is none.
unfoldable pub before_slash : Bytes → Option Bytes
before_slash [] = none
before_slash (c ∷ s) = let rest = before_slash s in if c == 47 then some [] else with_first c rest

-- A leading v or V.
abbrev pub drop_v : Bytes → Bytes
drop_v [] = []
drop_v (c ∷ s) = if (c == 118) || (c == 86) then s else c ∷ s

abbrev pub accept : ℕ → Option Bytes → Option Bytes
accept size none = none
accept size (some raw) =
    if (length (drop_v raw) == 0) || leb size (length (drop_v raw)) then none else some (drop_v raw)

abbrev pub segment : Option Bytes → Option Bytes
segment none = none
segment (some s) = before_slash s

-- otaParseTagFromLocation
unfoldable pub parse_tag_from_location : Option Bytes → ℕ → Option Bytes
unfolding find_after before_slash
parse_tag_from_location none size = none
parse_tag_from_location (some location) size =
    accept size (segment (find_after release_mark location))
