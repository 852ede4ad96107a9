-- ===== src/Stats.antt =====
-- The statistics of the pet and its settings (src/stats.h). The clock is an argument, and what is
-- in NVS is part of the state.
use sticks3_buddy.Prelude.{
  ℕ, zero, suc, ◌+◌, ◌-◌, ◌*◌, ◌/◌, ◌%◌, min, Bool, true, false, not, ◌&&◌, ◌||◌, List, [], ◌∷◌,
  ◌++◌, ltb, leb, ◌==◌, if◌then◌else◌, length, get_or, set, u8, u32, add32, sub32, Bytes,
}
pub mod Prefs
mod Tokens
mod Names
mod Energy
mod RoundTrip
mod Examples

-- TOKENS_PER_LEVEL
abbrev pub tokens_per_level : ℕ
tokens_per_level = 50000

pub record Stats : Type 0 where
  pub nap_seconds : ℕ
  pub approvals : ℕ
  pub denials : ℕ
  pub velocity : List ℕ
  pub vel_idx : ℕ
  pub vel_count : ℕ
  pub level : ℕ
  pub tokens : ℕ

-- The static variables; `saved` is what NVS holds.
pub record StatsState : Type 0 where
  pub stats : Stats
  pub saved : Stats
  pub dirty : Bool
  pub last_bridge_tokens : ℕ
  pub tokens_synced : Bool
  pub level_up_pending : Bool
  pub last_nap_end_ms : ℕ
  pub energy_at_nap : ℕ

unfoldable pub save : StatsState → StatsState
save s = if not s.dirty then s else record s { saved = s.stats; dirty = false }

-- _dirty = true; statsSave();
abbrev pub commit : Stats → StatsState → StatsState
commit st s = save (record s { stats = st; dirty = true })

unfoldable pub on_approval : ℕ → StatsState → StatsState
on_approval seconds s =
    commit
      (record (s.stats) {
        approvals = u32 (s.stats.approvals + 1);
        velocity = set s.stats.velocity s.stats.vel_idx (min seconds 65535);
        vel_idx = (s.stats.vel_idx + 1) % 8;
        vel_count = if ltb s.stats.vel_count 8 then s.stats.vel_count + 1 else s.stats.vel_count;
      })
      s

unfoldable pub on_denial : StatsState → StatsState
on_denial s = commit (record (s.stats) { denials = u32 (s.stats.denials + 1) }) s

unfoldable pub on_nap_end : ℕ → StatsState → StatsState
on_nap_end seconds s =
    commit (record (s.stats) { nap_seconds = u32 (s.stats.nap_seconds + seconds) }) s

abbrev pub level_of : ℕ → ℕ
level_of tokens = u8 (tokens / tokens_per_level)

-- The tokens of one heartbeat; a new level is saved.
unfoldable pub credit : ℕ → StatsState → StatsState
credit delta s =
    let tokens = u32 (s.stats.tokens + delta) in
    let added = record s { stats = record (s.stats) { tokens = tokens } } in
    if ltb (level_of s.stats.tokens) (level_of tokens)
    then commit (record (s.stats) { tokens = tokens; level = level_of tokens })
        (record s { level_up_pending = true })
    else added

unfoldable pub on_bridge_tokens : ℕ → StatsState → StatsState
unfolding credit
on_bridge_tokens total s =
    let seen = record s { last_bridge_tokens = total } in
    if not s.tokens_synced
    then record seen { tokens_synced = true }
    else if ltb total s.last_bridge_tokens
    then seen
    else if total == s.last_bridge_tokens
    then seen
    else credit (total - s.last_bridge_tokens) seen

unfoldable pub poll_level_up : StatsState → StatsState × Bool
poll_level_up s = (record s { level_up_pending = false }, s.level_up_pending)

-- while (j >= 0 && tmp[j] > k): the entries above k move up; `j` counts one more than the source's.
unfoldable pub insert_loop : ℕ → ℕ → List ℕ → List ℕ
insert_loop zero k tmp = set tmp 0 k
insert_loop (suc j) k tmp =
    let moved = insert_loop j k (set tmp (suc j) (get_or tmp j 0)) in
    if ltb k (get_or tmp j 0) then moved else set tmp (suc j) k

-- for (i = 1; i < n; i++)
unfoldable pub sort_loop : ℕ → ℕ → List ℕ → List ℕ
sort_loop zero i tmp = tmp
sort_loop (suc rounds) i tmp = sort_loop rounds (suc i) (insert_loop i (get_or tmp i 0) tmp)

unfoldable pub median_velocity : Stats → ℕ
unfolding insert_loop sort_loop
median_velocity st =
    if st.vel_count == 0
    then 0
    else get_or (sort_loop (st.vel_count - 1) 1 st.velocity) (st.vel_count / 2) 0

abbrev pub base_tier : ℕ → ℕ
base_tier vel =
    if vel == 0
    then 2
    else if ltb vel 15
    then 4
    else if ltb vel 30
    then 3
    else if ltb vel 60
    then 2
    else if ltb vel 120
    then 1
    else 0

-- A tier below 0 is 0.
unfoldable pub mood_tier : Stats → ℕ
unfolding median_velocity
mood_tier st =
    let tier = base_tier (median_velocity st) in
    if ltb (add32 st.approvals st.denials) 3
    then tier
    else if ltb st.approvals st.denials
    then tier - 2
    else if ltb st.approvals (u32 (st.denials * 2))
    then tier - 1
    else tier

unfoldable pub on_wake : ℕ → StatsState → StatsState
on_wake now s = record s { last_nap_end_ms = now; energy_at_nap = 5 }

-- The difference is an int8_t, and so is what is subtracted: 128 and more is negative.
unfoldable pub energy_tier : Bool → ℕ → StatsState → ℕ
energy_tier on_usb now s =
    let hours = sub32 now s.last_nap_end_ms / 3600000 in
    let e = u8 (s.energy_at_nap + 256 - u8 (hours / 2)) in
    let min_energy = if on_usb then 1 else 0 in
    if leb 128 e || ltb e min_energy then min_energy else if ltb 5 e then 5 else e

unfoldable pub fed_progress : Stats → ℕ
fed_progress st = (st.tokens % tokens_per_level) / (tokens_per_level / 10)

-- _safeCopy: `room` is dstLen - 1, and the bytes are unsigned as on the device's compilers.
unfoldable pub safe_copy_loop : Bytes → ℕ → Bytes → Bytes
safe_copy_loop [] room out = out
safe_copy_loop (c ∷ rest) room out =
    let kept = safe_copy_loop rest room (out ++ (c ∷ [])) in
    let left_out = safe_copy_loop rest room out in
    if ltb (length out) room
    then (if not (c == b'"') && not (c == b'\\') && leb 0x20 c then kept else left_out)
    else out

unfoldable pub safe_copy : ℕ → Bytes → Bytes
unfolding safe_copy_loop
safe_copy dst_len src = safe_copy_loop src (dst_len - 1) []
