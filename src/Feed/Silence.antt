-- ===== src/Feed/Silence.antt =====
-- A host that falls silent, and a BLE link that ends.
use sticks3_buddy.Prelude.{
  if_intro, ℕ, ◌+◌, ◌-◌, ◌<◌, ◌≡◌, refl, sym, ap, ◌∙◌, Bool, true, false, [], ◌∷◌, ◌++◌, arith,
  if◌then◌else◌, if_false, length, All, length-append, Bytes,
}
use mathlib.Core.List.{append-nil, append_assoc}
use sticks3_buddy.Sessions
use sticks3_buddy.Proto.Json.{Json}
use sticks3_buddy.Proto.Device.{Device}
use sticks3_buddy.Proto.State.{TamaState, reset_conn}
use sticks3_buddy.Feed.{
  Link, Feed, Input, is_newline, poll_usb, bt_byte, poll_bt, bt_boundary, liveness, poll, no_claude,
  wire_of,
}
use sticks3_buddy.Feed.Framing.{byte_room}

-- Nothing is shown of a host.
pub record IsAsleep (t : TamaState) : Type 0 where
  pub gone : t.connected ≡ false
  pub counts : (t.sessions_total ≡ 0) × (t.sessions_running ≡ 0) × (t.sessions_waiting ≡ 0)
  pub no_lines : t.n_lines ≡ 0
  pub no_prompt : t.prompt_id ≡ []
  pub no_ask : (t.q_ask_id ≡ []) × (t.q_n_opts ≡ 0)
  pub told : t.msg ≡ no_claude

-- A poll at which nothing has arrived.
abbrev pub quiet : Bool → Input
quiet conn = record { usb_feed = true; usb_bytes = []; bt_bytes = []; bt_connected = conn }

module _ {V D : Type 0} (json : Json V) (dev : Device V D) (invalidate_clock : D → D) where
  bt_line-bt_byte :
      (c : ℕ) (f : Feed D)
      → is_newline c ≡ false
      → length f.bt_line < dev.line_buf - 1
      → (bt_byte json dev invalidate_clock c f).bt_line ≡ f.bt_line ++ (c ∷ [])
  unfolding bt_byte
  bt_line-bt_byte c f p h =
      ap (λ (l : Link D). l.line)
        (byte_room json dev c
          (record { line = f.bt_line; wire = wire_of f.bt_proto f; last_live = f.last_live }) p h)

  -- Bytes without a line end that the radio hands over are kept in the line buffer.
  bt_line-poll_bt :
      (s : Bytes) (f : Feed D)
      → All (λ c. is_newline c ≡ false) s
      → length f.bt_line + length s < dev.line_buf
      → (poll_bt json dev invalidate_clock s f).bt_line ≡ f.bt_line ++ s
  unfolding poll_bt
  bt_line-poll_bt [] f p h = sym (append-nil f.bt_line)
  bt_line-poll_bt (c ∷ s) f p h =
      let kept = bt_line-bt_byte c f p.0 (omega arith) in
      bt_line-poll_bt s (bt_byte json dev invalidate_clock c f) p.1
        (omega (arith, ap (λ (b : Bytes). length b) kept, length-append f.bt_line (c ∷ [])))
      ∙ ap (λ b. b ++ s) kept
      ∙ append_assoc f.bt_line (c ∷ []) s

  boundary-ended :
      (f : Feed D)
      → f.bt_was_conn ≡ true
      → let u = bt_boundary json dev invalidate_clock false f in
        (u.bt_line ≡ []) × (u.bt_proto ≡ reset_conn f.bt_proto)
  unfolding bt_boundary
  boundary-ended f e = rw e (refl, refl)

  bt_line-liveness :
      (now : ℕ) (f : Feed D) → (liveness json dev invalidate_clock now f).bt_line ≡ f.bt_line
  unfolding liveness
  bt_line-liveness now f = ground arith

  -- What reading the USB link leaves alone.
  usb-Keeps :
      (f : Feed D) (i : Input)
      → let u = if i.usb_feed then poll_usb json dev invalidate_clock i.usb_bytes f else f in
        (u.bt_line ≡ f.bt_line) × (u.bt_was_conn ≡ f.bt_was_conn) × (u.demo_mode ≡ f.demo_mode)
  unfolding poll_usb
  usb-Keeps f i =
      if_intro
        (λ (u : Feed D).
          (u.bt_line ≡ f.bt_line) × (u.bt_was_conn ≡ f.bt_was_conn) × (u.demo_mode ≡ f.demo_mode))
        i.usb_feed (refl, refl, refl) (refl, refl, refl)

  demo_mode-poll_bt :
      (s : Bytes) (f : Feed D) → (poll_bt json dev invalidate_clock s f).demo_mode ≡ f.demo_mode
  unfolding poll_bt bt_byte
  demo_mode-poll_bt [] f = refl
  demo_mode-poll_bt (c ∷ s) f = demo_mode-poll_bt s (bt_byte json dev invalidate_clock c f)

  demo_mode-boundary :
      (conn : Bool) (f : Feed D)
      → (bt_boundary json dev invalidate_clock conn f).demo_mode ≡ f.demo_mode
  unfolding bt_boundary
  demo_mode-boundary conn f = ground arith

  demo_mode-liveness :
      (now : ℕ) (f : Feed D) → (liveness json dev invalidate_clock now f).demo_mode ≡ f.demo_mode
  unfolding liveness
  demo_mode-liveness now f = ground arith

  boundary-up : (f : Feed D) → (bt_boundary json dev invalidate_clock true f).bt_line ≡ f.bt_line
  unfolding bt_boundary
  boundary-up f = ground arith

  -- A poll out of demo mode, in the order of its steps.
  abbrev steps : Input → Feed D → Feed D
  steps i f =
      let u = if i.usb_feed then poll_usb json dev invalidate_clock i.usb_bytes f else f in
      poll_bt json dev invalidate_clock i.bt_bytes
        (bt_boundary json dev invalidate_clock i.bt_connected u)

  poll-steps :
      (f : Feed D) (i : Input)
      → f.demo_mode ≡ false
      → let g = poll json dev invalidate_clock i f in
        (g.bt_line ≡ (steps i f).bt_line) × (g.demo_mode ≡ false)
  unfolding poll
  poll-steps f i d = (
    ap (λ (g : Feed D). g.bt_line) (if_false f.demo_mode _ _ d)
        ∙ bt_line-liveness (dev.millis f.dev) (steps i f),
    ap (λ (g : Feed D). g.demo_mode) (if_false f.demo_mode _ _ d)
        ∙ demo_mode-liveness (dev.millis f.dev) (steps i f)
        ∙ demo_mode-poll_bt i.bt_bytes _
        ∙ demo_mode-boundary i.bt_connected _
        ∙ (usb-Keeps f i).2
        ∙ d,
  )

  -- A poll adds the bytes of the radio to the line that the boundary has left.
  poll-adds :
      (f : Feed D) (i : Input) (line : Bytes)
      → f.demo_mode ≡ false
      → let u = if i.usb_feed then poll_usb json dev invalidate_clock i.usb_bytes f else f in
        (bt_boundary json dev invalidate_clock i.bt_connected u).bt_line ≡ line
        → All (λ c. is_newline c ≡ false) i.bt_bytes
        → length line + length i.bt_bytes < dev.line_buf
        → (poll json dev invalidate_clock i f).bt_line ≡ line ++ i.bt_bytes
  poll-adds f i line d e p h =
      (poll-steps f i d).0
      ∙ bt_line-poll_bt i.bt_bytes _ p (omega (arith, ap (λ (b : Bytes). length b) e))
      ∙ ap (λ b. b ++ i.bt_bytes) e

  -- Bytes of a BLE link that has ended, which are still in the ring, are read after the line buffer
  -- has been emptied: if they hold no line end and fit the buffer, they stay in it, and what the
  -- next link sends is put behind them, so its first line begins with them. Demo mode is off, and
  -- the next poll finds the new link up.
  pub poll-stale :
      (f : Feed D) (i i2 : Input)
      → f.demo_mode ≡ false
      → f.bt_was_conn ≡ true
      → i.bt_connected ≡ false
      → All (λ c. is_newline c ≡ false) i.bt_bytes
      → i2.bt_connected ≡ true
      → All (λ c. is_newline c ≡ false) i2.bt_bytes
      → length i.bt_bytes + length i2.bt_bytes < dev.line_buf
      → let g = poll json dev invalidate_clock i f in
        (g.bt_line ≡ i.bt_bytes)
        × ((poll json dev invalidate_clock i2 g).bt_line ≡ i.bt_bytes ++ i2.bt_bytes)
  poll-stale f i i2 d w e p e2 p2 h = (
    first,
    poll-adds g i2 i.bt_bytes (poll-steps f i d).1
        (ap (λ c. (bt_boundary json dev invalidate_clock c usb2).bt_line) e2
          ∙ boundary-up usb2
          ∙ (usb-Keeps g i2).0
          ∙ first)
        p2 h,
  )
    where
      usb : Feed D
      usb = if i.usb_feed then poll_usb json dev invalidate_clock i.usb_bytes f else f

      g : Feed D
      g = poll json dev invalidate_clock i f

      usb2 : Feed D
      usb2 = if i2.usb_feed then poll_usb json dev invalidate_clock i2.usb_bytes g else g

      first : g.bt_line ≡ i.bt_bytes
      first =
          poll-adds f i [] d
            (ap (λ c. (bt_boundary json dev invalidate_clock c usb).bt_line) e
              ∙ (boundary-ended usb ((usb-Keeps f i).1 ∙ w)).0)
            p (omega arith)
