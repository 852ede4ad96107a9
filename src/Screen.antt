-- ===== src/Screen.antt =====
-- List windows, pages and the marquee (src/logic/ui_layout_logic.h), and the two decision tables of
-- src/logic/persona_logic.h and src/logic/pairing_gate_logic.h.
use sticks3_buddy.Prelude.{
  ℕ, ◌+◌, ◌-◌, ◌*◌, ◌/◌, ◌%◌, Bool, not, ◌||◌, ltb, leb, ◌==◌, if◌then◌else◌, u8, u16, ℤ, clamp_int,
}
mod Window
mod Examples

unfoldable pub page_of : ℕ → ℕ → ℕ
page_of idx per_page = if per_page == 0 then 0 else u8 (idx / per_page)

unfoldable pub page_count : ℕ → ℕ → ℕ
page_count count per_page =
    if per_page == 0 || count == 0 then 1 else u8 ((count + per_page - 1) / per_page)

unfoldable pub page_start : ℕ → ℕ → ℕ
page_start page per_page = u8 (page * per_page)

unfoldable pub rows_on_page : ℕ → ℕ → ℕ → ℕ
unfolding page_start
rows_on_page count page per_page =
    let s = page_start page per_page in
    let left = u8 (count - s) in
    if leb count s then 0 else if ltb left per_page then left else per_page

-- The first visible row of a list, for a selection that has to be visible.
unfoldable pub window_start : ℕ → ℕ → ℕ → ℕ
window_start sel count vis =
    let start = u8 (sel - vis + 1) in
    let max_start = u8 (count - vis) in
    if leb count vis || vis == 0
    then 0
    else if ltb sel vis
    then 0
    else if ltb max_start start
    then max_start
    else start

-- HOLD
abbrev pub hold_ticks : ℕ
hold_ticks = 8

-- The offset at a phase of the cycle.
abbrev pub offset_at : ℕ → ℕ → ℕ
offset_at span ph =
    if ltb ph hold_ticks
    then 0
    else if ltb ph (hold_ticks + span)
    then u16 (ph - hold_ticks)
    else span

-- The cycle is never 0 where the division is done.
unfoldable pub marquee_offset : ℕ → ℕ → ℕ → ℕ
marquee_offset len window tick =
    let span = u16 (len - window) in
    if window == 0 || leb len window then 0 else offset_at span (tick % (span + 2 * hold_ticks))

pub data PersonaState : Type 0 where
  p_sleep p_idle p_busy p_attention p_celebrate p_dizzy p_heart : PersonaState

pub record PersonaInputs : Type 0 where
  pub connected : Bool
  pub sessions_running : ℕ
  pub sessions_waiting : ℕ
  pub recently_completed : Bool

unfoldable pub derive_persona : PersonaInputs → PersonaState
derive_persona s =
    if not s.connected
    then p_idle
    else if ltb 0 s.sessions_waiting
    then p_attention
    else if s.recently_completed
    then p_celebrate
    else if leb 3 s.sessions_running
    then p_busy
    else p_idle

pub data PairGateDecision : Type 0 where
  pairgate_accept pairgate_reject : PairGateDecision

-- The bond count is an int that is tested for `<= 0`.
unfoldable pub pairing_gate_decision : Bool → Bool → ℤ → PairGateDecision
pairing_gate_decision window_active peer_bonded bond_count =
    if window_active
    then (if peer_bonded then pairgate_reject else pairgate_accept)
    else if clamp_int 0 1 bond_count == 0
    then pairgate_accept
    else (if peer_bonded then pairgate_accept else pairgate_reject)
