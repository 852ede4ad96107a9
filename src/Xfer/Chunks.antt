-- ===== src/Xfer/Chunks.antt =====
-- The chunks of a file, one after the other (src/xfer.h).
use sticks3_buddy.Prelude.{
  take, ℕ, ◌+◌, ◌<◌, ◌≡◌, refl, sym, ap, subst, ◌∙◌, Bool, true, not, some, List, [], ◌∷◌, ◌++◌,
  arith, if_false, length, length-append, u32_mod, add32, Bytes, codes, bytes_eq, before,
}
use mathlib.Core.List.{append-nil, append_assoc}
use sticks3_buddy.Proto.Json.{Json}
use sticks3_buddy.Xfer.Interface.{Board, Laws}
use sticks3_buddy.Xfer.{
  Xfer, ack, say, store_chunk, chunk_for, chunk, text_of, transfer_command, command, xfer_command,
}

-- The chunks one after the other.
unfoldable pub joined : List Bytes → Bytes
joined [] = []
joined (b ∷ bs) = b ++ joined bs

-- An acknowledgement for each chunk with the bytes so far, the newest first.
unfoldable pub chunk_acks : ℕ → List Bytes → List Bytes → List Bytes
unfolding ack
chunk_acks w [] before = before
chunk_acks w (b ∷ bs) before =
    chunk_acks (w + length b) bs (ack (codes "chunk") true (w + length b) ∷ before)

module _ {V D : Type 0} (json : Json V) (board : Board D) where
  -- Lines one after the other.
  unfoldable pub run : List V → Xfer D → Xfer D
  unfolding xfer_command
  run [] x = x
  run (doc ∷ docs) x = run docs (xfer_command json board doc x).0

  -- The parts of the chunks that the file system writes when they come, one after the other: the
  -- chunks themselves where every write is whole.
  unfoldable pub stored : Bytes → List V → List Bytes → Xfer D → Bytes
  unfolding xfer_command
  stored p [] bs x = []
  stored p (doc ∷ docs) [] x = []
  stored p (doc ∷ docs) (b ∷ bs) x =
      take (board.write p b x.dev).1 b ++ stored p docs bs (xfer_command json board doc x).0

  -- A chunk line whose text decodes to those bytes.
  abbrev pub IsChunk : V → Bytes → Type 0
  IsChunk doc bytes =
      (text_of json board doc (codes "cmd") ≡ some (codes "chunk"))
      × ((t : Bytes) × (text_of json board doc (codes "d") ≡ some t)
          × (board.base64_decode 300 t ≡ some bytes))

  abbrev pub AreChunks : List V → List Bytes → Type 0
  AreChunks [] [] = Unit {0}
  AreChunks [] (b ∷ bs) = ⊥
  AreChunks (doc ∷ docs) [] = ⊥
  AreChunks (doc ∷ docs) (b ∷ bs) = IsChunk doc b × AreChunks docs bs

  pub run-append : (a b : List V) (x : Xfer D) → run (a ++ b) x ≡ run b (run a x)
  unfolding run
  run-append [] b x = refl
  run-append (doc ∷ a) b x = run-append a b (xfer_command json board doc x).0

  chunk_line :
      (doc : V) (bytes p : Bytes) (x : Xfer D)
      → IsChunk doc bytes
      → x.active ≡ true
      → x.file ≡ some p
      → (xfer_command json board doc x).0 ≡ store_chunk board p (some bytes) x
  unfolding xfer_command command transfer_command chunk chunk_for bytes_eq
  chunk_line doc bytes p x (c, (t, d, e)) a f =
      ap (λ cmd. (command json board cmd doc x).0) c
      ∙ ap (λ (r : Xfer D × Bool). r.0) (if_false (not x.active) _ _ (rw a refl))
      ∙ ap (λ text. chunk board text x) d
      ∙ ap (λ h. chunk_for board h t x) f
      ∙ ap (λ o. store_chunk board p o x) e

  module _ (content : Bytes → D → Bytes) (sent : D → List Bytes)
      (laws : Laws board content sent) where
    -- What a chunk changes.
    store_chunk-file :
        (bytes p : Bytes) (x : Xfer D)
        → x.written + length bytes < u32_mod
        → let y = store_chunk board p (some bytes) x in
          (content p y.dev ≡ content p x.dev ++ take (board.write p bytes x.dev).1 bytes)
          × (sent y.dev ≡ ack (codes "chunk") true (x.written + length bytes) ∷ sent x.dev)
          × (y.written ≡ x.written + length bytes)
    unfolding store_chunk say
    store_chunk-file bytes p x h = (
      laws.reply_keeps p _ _ ∙ laws.write_appends p bytes x.dev,
      laws.reply_sends _ _
          ∙ ap (λ (s : List Bytes). ack (codes "chunk") true (add32 x.written (length bytes)) ∷ s)
              (laws.write_silent p bytes x.dev)
          ∙ ap (λ n. ack (codes "chunk") true n ∷ sent x.dev) small,
      small,
    )
      where
        small : add32 x.written (length bytes) ≡ x.written + length bytes
        small = omega (arith, h)

    store_chunk-Open :
        (bytes p : Bytes) (x : Xfer D)
        → let y = store_chunk board p (some bytes) x in
          (y.active ≡ x.active) × (y.file ≡ x.file) × (y.expected ≡ x.expected)
    unfolding store_chunk say
    store_chunk-Open bytes p x = (refl, refl, refl)

    -- The state of an open file: what has arrived, and what has been answered.
    pub record IsOpen (p : Bytes) (size w : ℕ) (c : Bytes) (s : List Bytes) (x : Xfer D)
        : Type 0 where
      pub active : x.active ≡ true
      pub file : x.file ≡ some p
      pub expected : x.expected ≡ size
      pub written : x.written ≡ w
      pub holds : content p x.dev ≡ c
      pub told : sent x.dev ≡ s

    chunk-IsOpen :
        (doc : V) (b p : Bytes) (size w : ℕ) (c : Bytes) (s : List Bytes) (x : Xfer D)
        → IsChunk doc b
        → w + length b < u32_mod
        → IsOpen p size w c s x
        → IsOpen p size
            (w + length b)
            (c ++ take (board.write p b x.dev).1 b)
            (ack (codes "chunk") true (w + length b) ∷ s)
            (xfer_command json board doc x).0
    chunk-IsOpen doc b p size w c s x k h o =
        subst
          (λ y.
            IsOpen p size (w + length b) (c ++ take (board.write p b x.dev).1 b)
              (ack (codes "chunk") true (w + length b) ∷ s) y)
          (sym (chunk_line doc b p x k o.active o.file))
          (record {
            active = opened.0 ∙ o.active;
            file = opened.1 ∙ o.file;
            expected = opened.2 ∙ o.expected;
            written = step.2 ∙ ap (λ n. n + length b) o.written;
            holds = step.0 ∙ ap (λ t. t ++ take (board.write p b x.dev).1 b) o.holds;
            told =
                step.1
                ∙ ap (λ n. ack (codes "chunk") true (n + length b) ∷ sent x.dev) o.written
                ∙ ap (λ (t : List Bytes). ack (codes "chunk") true (w + length b) ∷ t) o.told;
          })
      where
        step :
            let y = store_chunk board p (some b) x in
            (content p y.dev ≡ content p x.dev ++ take (board.write p b x.dev).1 b)
            × (sent y.dev ≡ ack (codes "chunk") true (x.written + length b) ∷ sent x.dev)
            × (y.written ≡ x.written + length b)
        step = store_chunk-file b p x (rw o.written h)

        opened :
            let y = store_chunk board p (some b) x in
            (y.active ≡ x.active) × (y.file ≡ x.file) × (y.expected ≡ x.expected)
        opened = store_chunk-Open b p x

    pub chunks-IsOpen :
        (docs : List V) (bs : List Bytes) (p : Bytes) (size w : ℕ) (c : Bytes) (s : List Bytes)
        (x : Xfer D)
        → AreChunks docs bs
        → w + length (joined bs) < u32_mod
        → IsOpen p size w c s x
        → IsOpen p size
            (w + length (joined bs))
            (c ++ stored p docs bs x)
            (chunk_acks w bs s)
            (run docs x)
    unfolding run joined stored chunk_acks
    chunks-IsOpen [] [] p size w c s x k h o =
        subst (λ n. IsOpen p size n (c ++ []) s x) {x = w} {y = w + 0} (omega arith)
          (rw (append-nil c) o)
    chunks-IsOpen [] (b ∷ bs) p size w c s x k h o = elim k [ ]
    chunks-IsOpen (doc ∷ docs) [] p size w c s x k h o = elim k [ ]
    chunks-IsOpen (doc ∷ docs) (b ∷ bs) p size w c s x k h o =
        let lens = length-append b (joined bs) in
        rw (lens, sym (append_assoc c part rest))
          (subst
            (λ n.
              IsOpen p size n ((c ++ part) ++ rest)
                (chunk_acks (w + length b) bs (ack (codes "chunk") true (w + length b) ∷ s))
                (run docs next))
            {x = w + length b + length (joined bs)} {y = w + (length b + length (joined bs))}
            (omega arith)
            (chunks-IsOpen docs bs p size (w + length b) (c ++ part)
              (ack (codes "chunk") true (w + length b) ∷ s) next k.1 (omega (arith, lens, h))
              (chunk-IsOpen doc b p size w c s x k.0 (omega (arith, lens, h)) o)))
      where
        next : Xfer D
        next = (xfer_command json board doc x).0

        part : Bytes
        part = take (board.write p b x.dev).1 b

        rest : Bytes
        rest = stored p docs bs next
