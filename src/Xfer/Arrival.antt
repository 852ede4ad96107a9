-- ===== src/Xfer/Arrival.antt =====
-- A file that is sent in chunks arrives.
use sticks3_buddy.Prelude.{
  ℕ, ◌+◌, ◌<◌, ◌≡◌, refl, sym, ap, subst, ◌∙◌, Bool, true, not, ◌||◌, none, some, List, [], ◌∷◌,
  ◌++◌, arith, leb, ◌==◌, if_true, if_false, length, u32_mod, Bytes, codes, bytes_eq,
}
use sticks3_buddy.Proto.Json.{Json}
use sticks3_buddy.Xfer.Interface.{Board, Laws}
use sticks3_buddy.Xfer.{
  Xfer, ack, full_path, say, release, file, end_of, file_end, text_of, number_of, transfer_command,
  command, xfer_command,
}
use sticks3_buddy.Xfer.Chunks.{
  stored, joined, chunk_acks, run, AreChunks, run-append, IsOpen, chunks-IsOpen,
}

module _ {V D : Type 0} (json : Json V) (board : Board D) (content : Bytes → D → Bytes)
    (sent : D → List Bytes) (laws : Laws board content sent) where
  file_line :
      (doc : V) (path : Bytes) (x : Xfer D)
      → text_of json board doc (codes "cmd") ≡ some (codes "file")
      → text_of json board doc (codes "path") ≡ some path
      → x.active ≡ true
      → (xfer_command json board doc x).0
        ≡ file board (some path) (number_of json board doc (codes "size")) x
  unfolding xfer_command command transfer_command bytes_eq
  file_line doc path x c e a =
      ap (λ cmd. (command json board cmd doc x).0) c
      ∙ ap (λ (r : Xfer D × Bool). r.0) (if_false (not x.active) _ _ (rw a refl))
      ∙ ap (λ o. file board o (number_of json board doc (codes "size")) x) e

  file_end_line :
      (doc : V) (x : Xfer D)
      → text_of json board doc (codes "cmd") ≡ some (codes "file_end")
      → x.active ≡ true
      → (xfer_command json board doc x).0 ≡ file_end board x
  unfolding xfer_command command transfer_command bytes_eq
  file_end_line doc x c a =
      ap (λ cmd. (command json board cmd doc x).0) c
      ∙ ap (λ (r : Xfer D × Bool). r.0) (if_false (not x.active) _ _ (rw a refl))

  file-IsOpen :
      (path : Bytes) (size : ℕ) (x : Xfer D)
      → x.active ≡ true
      → x.file ≡ none
      → length (full_path x.char_name path) < 80
      → (board.create (full_path x.char_name path) x.dev).1 ≡ true
      → IsOpen json board content sent laws
          (full_path x.char_name path)
          size
          0
          []
          (ack (codes "file") true 0 ∷ sent x.dev)
          (file board (some path) size x)
  unfolding file say
  file-IsOpen path size x a f l o =
      subst
        (λ y.
          IsOpen json board content sent laws full size 0 []
            (ack (codes "file") true 0 ∷ sent x.dev) y)
        (sym (if_false (leb 80 (length full)) _ _ (ground (arith, l))))
        (record {
          active = a;
          file = if_true (board.create full x.dev).1 _ _ o;
          expected = refl;
          written = refl;
          holds =
              laws.reply_keeps full _ _
              ∙ ap (λ h. content full (release board h (board.create full x.dev).0)) f
              ∙ laws.create_empties full x.dev o;
          told =
              laws.reply_sends _ _
              ∙ ap
                  (λ k.
                    ack (codes "file") k 0
                    ∷ sent (release board x.file (board.create full x.dev).0))
                  o
              ∙ ap
                  (λ h.
                    ack (codes "file") true 0 ∷ sent (release board h (board.create full x.dev).0))
                  f
              ∙ ap (λ (t : List Bytes). ack (codes "file") true 0 ∷ t)
                  (laws.create_silent full x.dev);
        })
    where
      full : Bytes
      full = full_path x.char_name path

  end-Closed :
      (p : Bytes) (size w : ℕ) (c : Bytes) (s : List Bytes) (x : Xfer D)
      → IsOpen json board content sent laws p size w c s x
      → let y = file_end board x in
        (content p y.dev ≡ c)
        × (sent y.dev ≡ ack (codes "file_end") ((w == size) || (size == 0)) w ∷ s)
        × (y.file ≡ none)
  unfolding file_end end_of say
  end-Closed p size w c s x o =
      subst
        (λ h.
          let y = end_of board h x in
          (content p y.dev ≡ c)
          × (sent y.dev ≡ ack (codes "file_end") ((w == size) || (size == 0)) w ∷ s)
          × (y.file ≡ none))
        (sym o.file)
        (
          laws.reply_keeps p _ _ ∙ laws.close_keeps p x.dev ∙ o.holds,
          laws.reply_sends _ _
              ∙ ap
                  (λ n.
                    ack (codes "file_end") ((n == x.expected) || (x.expected == 0)) n
                    ∷ sent (board.close p x.dev))
                  o.written
              ∙ ap
                  (λ n.
                    ack (codes "file_end") ((w == n) || (n == 0)) w ∷ sent (board.close p x.dev))
                  o.expected
              ∙ ap (λ (t : List Bytes). ack (codes "file_end") ((w == size) || (size == 0)) w ∷ t)
                  (laws.close_silent p x.dev ∙ o.told),
          refl,
        )

  -- During a transfer with no file open, a file that can be created and is announced, sent in chunks
  -- and ended holds the chunks one after the other, each as far as the file system wrote it. Each
  -- line is answered, also where a write was short: a chunk with the bytes sent so far, and the end
  -- says that all is well exactly if the announced size is 0 or the number of bytes sent. The path
  -- fits its buffer, and the bytes fit 32 bits.
  pub file-Arrives :
      (opening ending : V) (docs : List V) (bs : List Bytes) (path : Bytes) (x : Xfer D)
      → text_of json board opening (codes "cmd") ≡ some (codes "file")
      → text_of json board opening (codes "path") ≡ some path
      → AreChunks json board docs bs
      → text_of json board ending (codes "cmd") ≡ some (codes "file_end")
      → x.active ≡ true
      → x.file ≡ none
      → length (full_path x.char_name path) < 80
      → (board.create (full_path x.char_name path) x.dev).1 ≡ true
      → length (joined bs) < u32_mod
      → let size = number_of json board opening (codes "size") in
        let y = run json board (opening ∷ (docs ++ (ending ∷ []))) x in
        let n = length (joined bs) in
        (content (full_path x.char_name path) y.dev
          ≡ stored json board
              (full_path x.char_name path)
              docs
              bs
              (xfer_command json board opening x).0)
        × (sent y.dev
            ≡ ack (codes "file_end") ((n == size) || (size == 0)) n
              ∷ chunk_acks 0 bs (ack (codes "file") true 0 ∷ sent x.dev))
        × (y.file ≡ none)
  unfolding run
  file-Arrives opening ending docs bs path x c e k c' a f l o h =
      subst
        (λ y.
          (content full y.dev ≡ got)
          × (sent y.dev
              ≡ ack (codes "file_end") ((length (joined bs) == size) || (size == 0))
                  (length (joined bs))
                ∷ chunk_acks 0 bs (ack (codes "file") true 0 ∷ sent x.dev))
          × (y.file ≡ none))
        (sym (
          run-append json board docs (ending ∷ []) (xfer_command json board opening x).0
          ∙ file_end_line ending _ c' arrived.active))
        (end-Closed full size (length (joined bs)) got _ _ arrived)
    where
      full : Bytes
      full = full_path x.char_name path

      size : ℕ
      size = number_of json board opening (codes "size")

      got : Bytes
      got = stored json board full docs bs (xfer_command json board opening x).0

      arrived :
          IsOpen json board content sent laws full size
            (length (joined bs))
            got
            (chunk_acks 0 bs (ack (codes "file") true 0 ∷ sent x.dev))
            (run json board docs (xfer_command json board opening x).0)
      arrived =
          subst
            (λ n.
              IsOpen json board content sent laws full size n got
                (chunk_acks 0 bs (ack (codes "file") true 0 ∷ sent x.dev))
                (run json board docs (xfer_command json board opening x).0))
            {x = 0 + length (joined bs)} {y = length (joined bs)} (omega arith)
            (chunks-IsOpen json board content sent laws docs bs full size 0 [] _ _ k
              (omega (arith, h))
              (subst
                (λ y.
                  IsOpen json board content sent laws full size 0 []
                    (ack (codes "file") true 0 ∷ sent x.dev) y)
                (sym (file_line opening path x c e a)) (file-IsOpen path size x a f l o)))
