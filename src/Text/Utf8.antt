-- ===== src/Text/Utf8.antt =====
-- src/logic/utf8_text_logic.h: UTF-8 in, printable ASCII out, and truncation between code points.
-- A loop over the text takes fuel; the length of the text is enough, since each round drops a byte.
mod Sanitize
mod Prefix
mod Examples
use Prim.Native.Nat.{bit_and, bit_or}
use sticks3_buddy.Prelude.{
  ℕ, zero, suc, ◌+◌, ◌-◌, ◌*◌, Bool, true, false, not, ◌&&◌, ◌||◌, Option, none, some, [], ◌∷◌,
  ◌++◌, ltb, leb, ◌==◌, if◌then◌else◌, length, take, drop, Bytes, codes,
}

any_high : Bytes → Bool
any_high [] = false
any_high (c ∷ rest) = not (bit_and c 0x80 == 0) || any_high rest

unfoldable pub contains_non_ascii : Option Bytes → Bool
unfolding any_high
contains_non_ascii none = false
contains_non_ascii (some s) = any_high s

-- The length that a lead byte promises; 1 for ASCII and stray bytes.
unfoldable pub codepoint_bytes : ℕ → ℕ
codepoint_bytes lead =
    if bit_and lead 0x80 == 0x00
    then 1
    else if bit_and lead 0xE0 == 0xC0
    then 2
    else if bit_and lead 0xF0 == 0xE0
    then 3
    else if bit_and lead 0xF8 == 0xF0
    then 4
    else 1

abbrev pub is_continuation : ℕ → Bool
is_continuation c = bit_and c 0xC0 == 0x80

-- The next `k` bytes are there and continue a sequence.
unfoldable pub continues : ℕ → Bytes → Bool
continues zero rest = true
continues (suc k) [] = false
continues (suc k) (c ∷ rest) = is_continuation c && continues k rest

-- The bytes of the code point at the head of a text: 1 where its sequence is cut.
unfoldable pub step_bytes : Bytes → ℕ
step_bytes [] = 1
step_bytes (c ∷ rest) = let cp = codepoint_bytes c in if continues (cp - 1) rest then cp else 1

unfoldable pub prefix_loop : ℕ → ℕ → Bytes → ℕ → ℕ
prefix_loop zero max_bytes text used = used
prefix_loop (suc fuel) max_bytes [] used = used
prefix_loop (suc fuel) max_bytes (c ∷ rest) used =
    let cp = step_bytes (c ∷ rest) in
    let more = prefix_loop fuel max_bytes (drop cp (c ∷ rest)) (used + cp) in
    if ltb used max_bytes then (if ltb max_bytes (used + cp) then used else more) else used

unfoldable pub safe_prefix_bytes : Option Bytes → ℕ → ℕ
safe_prefix_bytes none max_bytes = 0
safe_prefix_bytes (some text) max_bytes = prefix_loop (length text) max_bytes text 0

-- The lead byte's share of the code point and the promised length; `none` for a stray byte.
unfoldable pub lead_byte : ℕ → Option (ℕ × ℕ)
lead_byte c =
    if bit_and c 0xE0 == 0xC0
    then some (bit_and c 0x1F, 2)
    else if bit_and c 0xF0 == 0xE0
    then some (bit_and c 0x0F, 3)
    else if bit_and c 0xF8 == 0xF0
    then some (bit_and c 0x07, 4)
    else none

-- for (k = 1; k < len; k++): at most `m` more bytes; the code point and the bytes consumed.
unfoldable pub decode : ℕ → Bytes → ℕ → ℕ → ℕ × ℕ
decode zero rest cp k = (cp, k)
decode (suc m) [] cp k = (cp, k)
decode (suc m) (c ∷ rest) cp k =
    let more = decode m rest (bit_or (cp * 64) (bit_and c 0x3F)) (suc k) in
    if is_continuation c then more else (cp, k)

-- The `switch` on the code point.
unfoldable pub replacement : ℕ → Bytes
replacement cp =
    if cp == 0x2012 || cp == 0x2013 || cp == 0x2014 || cp == 0x2015
    then codes "-"
    else if cp == 0x2018 || cp == 0x2019 || cp == 0x201B || cp == 0x2032
    then codes "'"
    else if cp == 0x201C || cp == 0x201D || cp == 0x201F || cp == 0x2033
    then codes "\""
    else if cp == 0x2026
    then codes "..."
    else if cp == 0x2022 || cp == 0x00B7 || cp == 0x2219
    then codes "*"
    else if cp == 0x2192
    then codes "->"
    else if cp == 0x00A0
    then codes " "
    else codes "?"

abbrev pub display_byte : ℕ → ℕ
display_byte c = if leb 0x20 c && ltb c 0x7F then c else 0x20

-- What one round writes for the sequence at the head of the text, and the bytes that it takes.
unfoldable pub render : ℕ → Bytes → Bytes × ℕ
render c rest = if ltb c 0x80 then (display_byte c ∷ [], 1) else elim (lead_byte c) [
  | none ↦ ([], 1)
  | some (cp, len) ↦ let (point, used) = decode (len - 1) rest cp 1 in (replacement point, used)
]

-- `limit` is cap - 1; `out` holds what is written.
unfoldable pub sanitize_loop : ℕ → ℕ → Bytes → Bytes → Bytes
sanitize_loop zero limit src out = out
sanitize_loop (suc fuel) limit [] out = out
sanitize_loop (suc fuel) limit (c ∷ rest) out =
    let written = render c rest in
    let more =
      sanitize_loop fuel limit (drop written.1 (c ∷ rest))
        (out ++ take (limit - length out) written.0) in
    if ltb (length out) limit then more else out

-- The string in `dst` after the call, for a buffer of `cap` bytes; with no byte nothing is written.
unfoldable pub sanitize : ℕ → Option Bytes → Bytes
sanitize cap none = []
sanitize cap (some src) = if cap == 0 then [] else sanitize_loop (length src) (cap - 1) src []
