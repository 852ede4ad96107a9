-- ===== src/Ble/Chunks.antt =====
-- Sending over BLE (bleWrite of src/ble_bridge.cpp): the chunks of a text, each a notification.
use sticks3_buddy.Prelude.{
  length-append, ℕ, zero, suc, ◌+◌, ◌-◌, ◌≤◌, ◌<◌, ◌≡◌, refl, ap, ◌∙◌, Bool, true, List, [], ◌∷◌,
  ◌++◌, arith, ltb, if◌then◌else◌, length, take, drop, All, All-map, length-take_le, length-drop,
  Bytes,
}

-- What fits the payload of a notification.
unfoldable pub chunk_size : ℕ → ℕ
chunk_size mtu =
    let chunk = if ltb 3 mtu then mtu - 3 else 20 in if ltb 180 chunk then 180 else chunk

-- while (sent < len); `rest` is what is left, and the fuel its length.
unfoldable pub chunks_loop : ℕ → ℕ → Bytes → List Bytes
chunks_loop zero chunk rest = []
chunks_loop (suc fuel) chunk [] = []
chunks_loop (suc fuel) chunk (b ∷ rest) =
    take chunk (b ∷ rest) ∷ chunks_loop fuel chunk (drop chunk (b ∷ rest))

-- `sent` after the notifications.
unfoldable pub sent_by : List Bytes → ℕ
sent_by [] = 0
sent_by (c ∷ cs) = length c + sent_by cs

-- The notifications, and the count of bytes sent.
unfoldable pub write : Bool → ℕ → Bytes → List Bytes × ℕ
write ready mtu text =
    let chunks = chunks_loop (length text) (chunk_size mtu) text in
    if ready then (chunks, sent_by chunks) else ([], 0)

unfoldable pub joined : List Bytes → Bytes
joined [] = []
joined (c ∷ cs) = c ++ joined cs

chunk_size_range :
    (mtu : ℕ) → (1 ≤ chunk_size mtu) × (chunk_size mtu ≤ 180) × (3 < mtu → chunk_size mtu + 3 ≤ mtu)
unfolding chunk_size
chunk_size_range mtu = (ground arith, ground arith, λ h. ground arith)

take-drop {ℓ} : {A : Type ℓ} (n : ℕ) (xs : List A) → take n xs ++ drop n xs ≡ xs
take-drop zero xs = refl
take-drop (suc n) [] = refl
take-drop (suc n) (x ∷ xs) = ap (λ t. x ∷ t) (take-drop n xs)

chunks-joined :
    (fuel chunk : ℕ) (rest : Bytes)
    → 1 ≤ chunk
    → length rest ≤ fuel
    → joined (chunks_loop fuel chunk rest) ≡ rest
unfolding chunks_loop joined
chunks-joined zero chunk [] h k = refl
chunks-joined zero chunk (b ∷ rest) h k = absurd (omega arith)
chunks-joined (suc fuel) chunk [] h k = refl
chunks-joined (suc fuel) chunk (b ∷ rest) h k =
    ap (λ t. take chunk (b ∷ rest) ++ t)
      (chunks-joined fuel chunk (drop chunk (b ∷ rest)) h
        (omega (arith, length-drop chunk (b ∷ rest))))
    ∙ take-drop chunk (b ∷ rest)

chunks_fit :
    (fuel chunk : ℕ) (rest : Bytes) → All (λ c. length c ≤ chunk) (chunks_loop fuel chunk rest)
unfolding chunks_loop
chunks_fit zero chunk rest = tt
chunks_fit (suc fuel) chunk [] = tt
chunks_fit (suc fuel) chunk (b ∷ rest) =
    (length-take_le chunk (b ∷ rest), chunks_fit fuel chunk (drop chunk (b ∷ rest)))

sent_by-joined : (cs : List Bytes) → sent_by cs ≡ length (joined cs)
unfolding sent_by joined
sent_by-joined [] = refl
sent_by-joined (c ∷ cs) = omega (arith, sent_by-joined cs, length-append c (joined cs))

-- Over a link whose MTU is more than 3, a text arrives whole and in order, in notifications that
-- fit the MTU less the three bytes of the protocol.
pub joined-write :
    (mtu : ℕ) (text : Bytes)
    → 3 < mtu
    → (joined (write true mtu text).0 ≡ text)
      × All (λ c. length c + 3 ≤ mtu) (write true mtu text).0
      × ((write true mtu text).1 ≡ length text)
unfolding write
joined-write mtu text h =
    let (low, high, fit) = chunk_size_range mtu in
    (
      chunks-joined (length text) (chunk_size mtu) text low (omega arith),
      All-map (λ c (k : length c ≤ chunk_size mtu). omega (arith, fit h))
          (chunks_loop (length text) (chunk_size mtu) text)
          (chunks_fit (length text) (chunk_size mtu) text),
      sent_by-joined (chunks_loop (length text) (chunk_size mtu) text)
          ∙ ap (λ (t : Bytes). length t)
              (chunks-joined (length text) (chunk_size mtu) text low (omega arith)),
    )
