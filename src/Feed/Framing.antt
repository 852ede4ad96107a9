-- ===== src/Feed/Framing.antt =====
-- The line feeder cuts the byte stream into the lines that were sent.
use sticks3_buddy.Prelude.{
  ℕ, zero, suc, ◌+◌, ◌-◌, ◌≤◌, ◌<◌, ◌≡◌, refl, sym, ap, ◌∙◌, inl, inr, Bool, true, false, List, [],
  ◌∷◌, ◌++◌, arith, ltb, if◌then◌else◌, Bool-cases, ltb→lt, lt→ltb, length, take, All,
  length-append, take_of_length_le, u32, u32_mod, Bytes, until_nul,
}
use mathlib.Core.List.{append-nil, append_assoc}
use sticks3_buddy.Proto.Json.{Json}
use sticks3_buddy.Proto.Device.{Device}
use sticks3_buddy.Proto.Apply.{apply_json}
use sticks3_buddy.Feed.{Link, starts_object, finish_line, is_newline, feed_byte, feed}

-- The first bytes of a text, where it is longer than they are, do not depend on the rest.
pub take_full {ℓ} :
    {A : Type ℓ} (m : ℕ) (a b c : List A) → length a ≡ m → take m (a ++ b) ≡ take m (a ++ c)
take_full zero a b c e = refl
take_full (suc m) [] b c e = absurd (omega arith)
take_full (suc m) (x ∷ a) b c e = ap (λ t. x ∷ t) (take_full m a b c (omega arith))

-- `n` more bytes received, and the line so far.
abbrev pub received : {D : Type 0} → ℕ → Bytes → Link D → Link D
received n line l = record l {
  line = line;
  wire = record l.wire { ps = record l.wire.ps { rx_bytes = u32 (l.wire.ps.rx_bytes + n) } };
}

module _ {V D : Type 0} (json : Json V) (dev : Device V D) where
  feed-append :
      (a b : Bytes) (l : Link D) → feed json dev (a ++ b) l ≡ feed json dev b (feed json dev a l)
  unfolding feed
  feed-append [] b l = refl
  feed-append (c ∷ a) b l = feed-append a b (feed_byte json dev c l)

  pub byte_room :
      (c : ℕ) (l : Link D)
      → is_newline c ≡ false
      → length l.line < dev.line_buf - 1
      → feed_byte json dev c l ≡ received 1 (l.line ++ (c ∷ [])) l
  unfolding feed_byte
  byte_room c l p h = rw (p, lt→ltb _ _ h) refl

  byte_full :
      (c : ℕ) (l : Link D)
      → is_newline c ≡ false
      → dev.line_buf - 1 ≤ length l.line
      → feed_byte json dev c l ≡ received 1 l.line l
  unfolding feed_byte
  byte_full c l p h = rw (p, no_room) refl
    where
      no_room : ltb (length l.line) (dev.line_buf - 1) ≡ false
      no_room = ground arith

  received-received :
      (m n k : ℕ) (a b : Bytes) (l : Link D)
      → k ≡ m + n
      → received n b (received m a l) ≡ received k b l
  received-received m n k a b l e = λ i. received_at i
    where
      sums : u32 (u32 (l.wire.ps.rx_bytes + m) + n) ≡ u32 (l.wire.ps.rx_bytes + k)
      sums = omega arith

      received_at : ◌≡◌ {A = Link D} (received n b (received m a l)) (received k b l)
      received_at =
          ap
            (λ (t : ℕ). record l {
              line = b;
              wire = record l.wire { ps = record l.wire.ps { rx_bytes = t } };
            })
            sums

  feed-plain :
      (s : Bytes) (l : Link D)
      → All (λ c. is_newline c ≡ false) s
      → length l.line ≤ dev.line_buf - 1
      → l.wire.ps.rx_bytes < u32_mod
      → feed json dev s l ≡ received (length s) (take (dev.line_buf - 1) (l.line ++ s)) l
  unfolding feed
  feed-plain [] l p h k = sym (
      ap (λ (t : Bytes). received 0 t l)
        (ap (take (dev.line_buf - 1)) (append-nil l.line) ∙ take_of_length_le _ l.line h)
      ∙ ap (λ (n : ℕ). record l { wire = record l.wire { ps = record l.wire.ps { rx_bytes = n } } })
          (omega arith))
  feed-plain (c ∷ s) l p h k = elim (Bool-cases (ltb (length l.line) (dev.line_buf - 1))) [
    | inl room ↦
        let fits : length (l.line ++ (c ∷ [])) ≤ dev.line_buf - 1 =
          omega (arith, ltb→lt _ _ room, length-append l.line (c ∷ [])) in
        rw (byte_room c l p.0 (ltb→lt _ _ room)) (
          feed-plain s (received 1 (l.line ++ (c ∷ [])) l) p.1 fits (omega arith)
          ∙ received-received 1 (length s) (suc (length s)) (l.line ++ (c ∷ []))
              (take (dev.line_buf - 1) ((l.line ++ (c ∷ [])) ++ s)) l (omega arith)
          ∙ ap (λ (t : Bytes). received (suc (length s)) (take (dev.line_buf - 1) t) l)
              (append_assoc l.line (c ∷ []) s))
    | inr full ↦
        let at_cap : dev.line_buf - 1 ≤ length l.line = ground (arith, full) in
        rw (byte_full c l p.0 at_cap) (
          feed-plain s (received 1 l.line l) p.1 h (omega arith)
          ∙ received-received 1 (length s) (suc (length s)) l.line
              (take (dev.line_buf - 1) (l.line ++ s)) l (omega arith)
          ∙ ap (λ (t : Bytes). received (suc (length s)) t l)
              (take_full (dev.line_buf - 1) l.line s (c ∷ s) (omega arith)))
  ]

  finished :
      (x : Link D)
      → ((finish_line json dev x).line ≡ [])
        × ((finish_line json dev x).wire ≡ (
            if starts_object x.line
            then (apply_json json dev (until_nul x.line) x.wire).0
            else x.wire))
  unfolding finish_line
  finished x = at (starts_object x.line)
    where
      live : Link D
      live = record {
        line = [];
        wire = (apply_json json dev (until_nul x.line) x.wire).0;
        last_live =
            if (apply_json json dev (until_nul x.line) x.wire).1
            then dev.millis (apply_json json dev (until_nul x.line) x.wire).0.dev
            else x.last_live;
      }

      at :
          (b : Bool)
          → ((if b then live else record x { line = [] }).line ≡ [])
            × ((if b then live else record x { line = [] }).wire
                ≡ (if b then live.wire else x.wire))
      at true = (refl, refl)
      at false = (refl, refl)

  feed_newline :
      (s : Bytes) (l : Link D)
      → All (λ c. is_newline c ≡ false) s
      → l.line ≡ []
      → l.wire.ps.rx_bytes < u32_mod
      → feed json dev (s ++ (10 ∷ [])) l
        ≡ finish_line json dev (received (length s + 1) (take (dev.line_buf - 1) s) l)
  feed_newline s l p e k =
      feed-append s (10 ∷ []) l
      ∙ ap (feed json dev (10 ∷ [])) (
          feed-plain s l p (rw e (omega arith)) k
          ∙ ap (λ (t : Bytes). received (length s) (take (dev.line_buf - 1) (t ++ s)) l) e)
      ∙ (unfold feed feed_byte in
          ap (finish_line json dev) (
            received-received (length s) 1 (length s + 1) (take (dev.line_buf - 1) s)
              (take (dev.line_buf - 1) s) l refl))

  starts_object-take : (m : ℕ) (s : Bytes) → 0 < m → starts_object (take m s) ≡ starts_object s
  starts_object-take zero s h = absurd (omega arith)
  starts_object-take (suc m) [] h = refl
  starts_object-take (suc m) (c ∷ s) h = refl

  -- A text without a line end, and then a line end, on an idle transport: the parse core gets the
  -- text, cut to the size of the line buffer, if it starts an object, and the buffer is empty
  -- again; every byte counts as received.
  pub feed-line :
      (s : Bytes) (l : Link D)
      → All (λ c. is_newline c ≡ false) s
      → l.line ≡ []
      → 1 < dev.line_buf
      → l.wire.ps.rx_bytes < u32_mod
      → let r = feed json dev (s ++ (10 ∷ [])) l in
        let w = (received (length s + 1) [] l).wire in
        (r.line ≡ [])
        × (r.wire ≡ (
            if starts_object s
            then (apply_json json dev (until_nul (take (dev.line_buf - 1) s)) w).0
            else w))
  feed-line s l p e h k = rw (feed_newline s l p e k) (
    out.0,
    out.1
        ∙ ap (λ b. if b then (apply_json json dev (until_nul x.line) x.wire).0 else x.wire)
            (starts_object-take (dev.line_buf - 1) s (omega arith)),
  )
    where
      x : Link D
      x = received (length s + 1) (take (dev.line_buf - 1) s) l

      out :
          ((finish_line json dev x).line ≡ [])
          × ((finish_line json dev x).wire ≡ (
              if starts_object x.line
              then (apply_json json dev (until_nul x.line) x.wire).0
              else x.wire))
      out = finished x
