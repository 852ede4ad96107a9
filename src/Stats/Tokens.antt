-- ===== src/Stats/Tokens.antt =====
-- The tokens that the heartbeats credit.
use sticks3_buddy.Prelude.{
  false, sym, subst, if_true, ℕ, ◌+◌, ◌-◌, ◌≤◌, ◌<◌, ◌≡◌, refl, ap, ◌∙◌, inl, inr, true, not, List,
  [], ◌∷◌, arith, ltb, ◌==◌, if◌then◌else◌, if_intro, if_false, Bool-cases, u32, u32_mod,
}
use sticks3_buddy.Stats.{StatsState, level_of, save, credit, on_bridge_tokens}

-- The heartbeats of one bridge.
unfoldable pub feed : List ℕ → StatsState → StatsState
feed [] s = s
feed (total ∷ rest) s = feed rest (on_bridge_tokens total s)

-- Each total is at least the one before.
abbrev pub Ascending : ℕ → List ℕ → Type 0
Ascending last [] = Unit
Ascending last (total ∷ rest) = (last ≤ total) × Ascending total rest

abbrev pub final : ℕ → List ℕ → ℕ
final last [] = last
final last (total ∷ rest) = final total rest

final-ascends : (last : ℕ) (totals : List ℕ) → Ascending last totals → last ≤ final last totals
final-ascends last [] h = omega arith
final-ascends last (total ∷ rest) h = omega (arith, h.0, final-ascends total rest h.1)

credit_lem :
    (delta : ℕ) (s : StatsState)
    → s.stats.tokens + delta < u32_mod
    → ((credit delta s).stats.tokens ≡ s.stats.tokens + delta)
      × ((credit delta s).last_bridge_tokens ≡ s.last_bridge_tokens)
      × ((credit delta s).tokens_synced ≡ s.tokens_synced)
unfolding credit save
credit_lem delta s h =
    if_intro
      (λ (u : StatsState).
        (u.stats.tokens ≡ s.stats.tokens + delta)
        × (u.last_bridge_tokens ≡ s.last_bridge_tokens)
        × (u.tokens_synced ≡ s.tokens_synced))
      (ltb (level_of s.stats.tokens) (level_of (u32 (s.stats.tokens + delta))))
      (omega arith, refl, refl) (omega arith, refl, refl)

-- One heartbeat of a synced state.
step :
    (total : ℕ) (s : StatsState)
    → s.tokens_synced ≡ true
    → s.last_bridge_tokens ≤ total
    → s.stats.tokens + (total - s.last_bridge_tokens) < u32_mod
    → ((on_bridge_tokens total s).stats.tokens ≡ s.stats.tokens + (total - s.last_bridge_tokens))
      × ((on_bridge_tokens total s).last_bridge_tokens ≡ total)
      × ((on_bridge_tokens total s).tokens_synced ≡ true)
unfolding on_bridge_tokens
step total s y h k = rw credited (elim (Bool-cases (total == s.last_bridge_tokens)) [
  | inl e ↦ rw e (ground arith, refl, y)
  | inr e ↦ let (a, b, c) = credit_lem (total - s.last_bridge_tokens) seen k in rw e (a, b, c ∙ y)
])
  where
    seen : StatsState
    seen = record s { last_bridge_tokens = total }

    credited : on_bridge_tokens total s ≡ (
        if total == s.last_bridge_tokens then seen else credit (total - s.last_bridge_tokens) seen)
    credited =
        if_false (not s.tokens_synced) _ _ (rw y refl)
        ∙ if_false (ltb total s.last_bridge_tokens) _ _ (ground arith)

-- The same for a state that has seen a total before.
synced-tokens :
    (totals : List ℕ) (s : StatsState)
    → s.tokens_synced ≡ true
    → Ascending s.last_bridge_tokens totals
    → s.stats.tokens + (final s.last_bridge_tokens totals - s.last_bridge_tokens) < u32_mod
    → ((feed totals s).stats.tokens
        ≡ s.stats.tokens + (final s.last_bridge_tokens totals - s.last_bridge_tokens))
      × ((feed totals s).last_bridge_tokens ≡ final s.last_bridge_tokens totals)
unfolding feed
synced-tokens [] s y h k = (omega arith, refl)
synced-tokens (total ∷ rest) s y h k =
    let up : total ≤ final total rest = final-ascends total rest h.1 in
    let (a, b, c) = step total s y h.0 (omega arith) in
    let (d, e) =
      synced-tokens rest (on_bridge_tokens total s) c (rw b h.1) (rw b (omega (arith, a))) in
    let ends : final (on_bridge_tokens total s).last_bridge_tokens rest ≡ final total rest =
      ap (λ (x : ℕ). final x rest) b in
    (d ∙ omega (arith, ends, a, b), e ∙ ends)

-- What the growth is counted from: the first total after a boot is only taken note of.
abbrev pub reference : StatsState → List ℕ → ℕ
reference s [] = s.last_bridge_tokens
reference s (total ∷ rest) = if s.tokens_synced then s.last_bridge_tokens else total

-- While the bridge's totals ascend, the tokens grow by exactly the growth of the total, however
-- many heartbeats bring it: from the last total seen, or, after a boot, from the first one. The
-- sum must fit its 32 bits.
pub feed-tokens :
    (totals : List ℕ) (s : StatsState)
    → Ascending (reference s totals) totals
    → s.stats.tokens + (final (reference s totals) totals - reference s totals) < u32_mod
    → (feed totals s).stats.tokens
      ≡ s.stats.tokens + (final (reference s totals) totals - reference s totals)
unfolding feed on_bridge_tokens
feed-tokens [] s h k = omega arith
feed-tokens (total ∷ rest) s h k = elim (Bool-cases s.tokens_synced) [
  | inl y ↦ from_last y
  | inr n ↦ from_first n
]
  where
    from : ℕ
    from = reference s (total ∷ rest)

    from_last :
        s.tokens_synced ≡ true
        → (feed (total ∷ rest) s).stats.tokens ≡ s.stats.tokens + (final from (total ∷ rest) - from)
    from_last y =
        let same : from ≡ s.last_bridge_tokens = if_true s.tokens_synced _ _ y in
        (synced-tokens (total ∷ rest) s y (subst (λ (b : ℕ). Ascending b (total ∷ rest)) same h)
          (subst (λ (b : ℕ). s.stats.tokens + (final total rest - b) < u32_mod) same k)).0
        ∙ ap (λ (b : ℕ). s.stats.tokens + (final total rest - b)) (sym same)

    from_first :
        s.tokens_synced ≡ false
        → (feed (total ∷ rest) s).stats.tokens ≡ s.stats.tokens + (final from (total ∷ rest) - from)
    from_first n =
        let same : from ≡ total = if_false s.tokens_synced _ _ n in
        ap (λ (u : StatsState). (feed rest u).stats.tokens)
          (if_true (not s.tokens_synced) _ _ (rw n refl))
        ∙ (synced-tokens rest (record s { last_bridge_tokens = total; tokens_synced = true }) refl
            h.1 (subst (λ (b : ℕ). s.stats.tokens + (final total rest - b) < u32_mod) same k)).0
        ∙ ap (λ (b : ℕ). s.stats.tokens + (final total rest - b)) (sym same)
