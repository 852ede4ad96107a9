-- ===== src/Proto/Ingest.antt =====
-- The session list of a heartbeat, and the table that it leaves.
use sticks3_buddy.Prelude.{
  map, sym, take_ext, length-map, length-take, get_or-map, get_or-take, length-copy_loop,
  length-fill_loop, ℕ, zero, suc, ◌+◌, ◌-◌, ◌≤◌, ◌<◌, min, ◌≡◌, refl, ap, ◌∙◌, inl, inr, Bool, true,
  false, ◌&&◌, List, [], ◌∷◌, arith, leb, if◌then◌else◌, if_intro, Bool-cases, length, get_or, set,
  take, replicate, All, All-get_or, length-set, length-take_le, Bytes, codes, non_empty,
  get_or-set_self, get_or-set_ne,
}
use sticks3_buddy.Sessions.{Session, SessionTable, no_session, commit}
use sticks3_buddy.Sessions.Rows.{IsValid, row-commit, commit-IsValid}
use sticks3_buddy.Proto.Json.{Json}
use sticks3_buddy.Proto.Reply.{text_or}
use sticks3_buddy.Proto.Events.{session_row, is_row, ingest_loop, ingest_sessions}

module _ {V : Type 0} (json : Json V) where
  -- The elements that are sessions: objects with an id.
  abbrev pub rows_of : List V → List V
  rows_of [] = []
  rows_of (v ∷ vs) = if is_row json v then v ∷ rows_of vs else rows_of vs

  within : (n : ℕ) → n < 6 → leb 6 n ≡ false
  within n h = ground arith

  ingest_loop-count :
      (vs : List V) (tmp : List Session) (n : ℕ)
      → n ≤ 6
      → (ingest_loop json vs tmp n).1 ≡ n + min (6 - n) (length (rows_of vs))
  unfolding ingest_loop
  ingest_loop-count [] tmp n h = omega arith
  ingest_loop-count (v ∷ vs) tmp n h = elim (Bool-cases (leb 6 n)) [
    | inl full ↦ rw full (ground arith)
    | inr room ↦
        let lt : n < 6 = ground arith in
        rw room (elim (Bool-cases (is_row json v)) [
          | inl here ↦ rw here (
              omega (
                arith,
                ingest_loop-count vs (set tmp n (session_row json v)) (n + 1) (omega arith),
              ))
          | inr none_here ↦ rw none_here (ingest_loop-count vs tmp n h)
        ])
  ]

  ingest_loop_below :
      (vs : List V) (tmp : List Session) (n j : ℕ)
      → j < n
      → get_or (ingest_loop json vs tmp n).0 j no_session ≡ get_or tmp j no_session
  unfolding ingest_loop
  ingest_loop_below [] tmp n j l = refl
  ingest_loop_below (v ∷ vs) tmp n j l =
      if_intro (λ (r : List Session × ℕ). get_or r.0 j no_session ≡ get_or tmp j no_session)
        (leb 6 n) refl
        (if_intro (λ (r : List Session × ℕ). get_or r.0 j no_session ≡ get_or tmp j no_session)
          (is_row json v)
          (ingest_loop_below vs (set tmp n (session_row json v)) (n + 1) j (omega arith)
            ∙ get_or-set_ne tmp n j (session_row json v) no_session (omega arith))
          (ingest_loop_below vs tmp n j l))

  ingest_loop_rows :
      (vs : List V) (tmp : List Session) (n i m : ℕ) (d : V)
      → length tmp ≡ 6
      → m ≡ n + i
      → i < min (6 - n) (length (rows_of vs))
      → get_or (ingest_loop json vs tmp n).0 m no_session
        ≡ session_row json (get_or (rows_of vs) i d)
  unfolding ingest_loop
  ingest_loop_rows [] tmp n i m d f e l = absurd (omega arith)
  ingest_loop_rows (v ∷ vs) tmp n zero m d f e l = elim (Bool-cases (is_row json v)) [
    | inl here ↦
        rw (within n (omega arith), here)
          (ingest_loop_below vs (set tmp n (session_row json v)) (n + 1) m (omega arith)
            ∙ ap (λ (x : ℕ). get_or (set tmp n (session_row json v)) x no_session) {y = n}
                (omega arith)
            ∙ get_or-set_self tmp n (session_row json v) no_session (omega arith))
    | inr other ↦
        rw (within n (omega arith), other) (ingest_loop_rows vs tmp n zero m d f e (rw other at l))
  ]
  ingest_loop_rows (v ∷ vs) tmp n (suc i) m d f e l = elim (Bool-cases (is_row json v)) [
    | inl here ↦
        rw (within n (omega arith), here)
          (ingest_loop_rows vs (set tmp n (session_row json v)) (n + 1) i m d
            (length-set tmp n (session_row json v) ∙ f) (omega arith) (below (rw here at l)))
    | inr other ↦
        rw (within n (omega arith), other)
          (ingest_loop_rows vs tmp n (suc i) m d f e (rw other at l))
  ]
    where
      below :
          suc i < min (6 - n) (suc (length (rows_of vs)))
          → i < min (6 - (n + 1)) (length (rows_of vs))
      below h = omega arith

  -- Every element of the list of rows is a session.
  rows_of-IsRow : (vs : List V) → All (λ v. is_row json v ≡ true) (rows_of vs)
  rows_of-IsRow [] = tt
  rows_of-IsRow (v ∷ vs) = elim (Bool-cases (is_row json v)) [
    | inl here ↦ rw here (here, rows_of-IsRow vs)
    | inr other ↦ rw other (rows_of-IsRow vs)
  ]

  -- What the loop makes of the whole list.
  abbrev parsed : V → List Session × ℕ
  parsed sa = ingest_loop json (json.items sa) (replicate 6 no_session) 0

  parsed-count : (sa : V) → (parsed sa).1 ≡ min 6 (length (rows_of (json.items sa)))
  parsed-count sa =
      omega (arith, ingest_loop-count (json.items sa) (replicate 6 no_session) 0 (omega arith))

  parsed-row :
      (sa : V) (i : ℕ) (d : V)
      → i < (parsed sa).1
      → get_or (parsed sa).0 i no_session ≡ session_row json (get_or (rows_of (json.items sa)) i d)
  parsed-row sa i d h =
      ingest_loop_rows (json.items sa) (replicate 6 no_session) 0 i i d refl (omega arith)
        (omega (arith, parsed-count sa))

  commit_all :
      (t : SessionTable) (rows : List Session) (n : ℕ) → n ≤ 6 → (commit t rows n).count ≡ n
  unfolding commit
  commit_all t rows n h = ground arith

  -- The rows of the table are the sessions of the list in their order, the first six at most, and no
  -- others, also where there are none; elements that are no object or have no id leave no row,
  -- whatever the table, which has its six places, held before.
  pub ingest_sessions-row :
      (sa : V) (t : SessionTable)
      → length t.rows ≡ 6
      → let u = ingest_sessions json sa t in
        (u.count ≡ min 6 (length (rows_of (json.items sa))))
        × (take u.count u.rows ≡ map (session_row json) (take 6 (rows_of (json.items sa))))
  unfolding ingest_sessions
  ingest_sessions-row sa t f = (
    all ∙ parsed-count sa,
    take_ext u.count u.rows (map (session_row json) (take 6 vs)) no_session
        (omega (arith, whole, all, parsed-count sa, f))
        (omega (
          arith,
          length-map (session_row json) (take 6 vs),
          length-take 6 vs,
          all,
          parsed-count sa,
        ))
        same,
  )
    where
      vs : List V
      vs = rows_of (json.items sa)

      u : SessionTable
      u = commit t (parsed sa).0 (parsed sa).1

      all : u.count ≡ (parsed sa).1
      all = commit_all t (parsed sa).0 (parsed sa).1 (omega (arith, parsed-count sa))

      whole : length u.rows ≡ length t.rows
      whole = unfold commit in (length-fill_loop _ _ _ _ ∙ length-copy_loop _ _ _ _ _)

      same :
          (i : ℕ)
          → i < u.count
          → get_or u.rows i no_session ≡ get_or (map (session_row json) (take 6 vs)) i no_session
      same i h =
          row-commit t (parsed sa).0 (parsed sa).1 i f (omega (arith, h))
          ∙ parsed-row sa i sa (omega (arith, all, h))
          ∙ ap (session_row json)
              (sym (get_or-take 6 vs i sa (omega (arith, all, parsed-count sa, h))))
          ∙ sym (
              get_or-map (session_row json) (take 6 vs) i sa no_session
                (omega (arith, length-take 6 vs, all, parsed-count sa, h)))

  -- And it is a valid table.
  pub ingest_sessions-IsValid :
      (sa : V) (t : SessionTable) → length t.rows ≡ 6 → IsValid (ingest_sessions json sa t)
  unfolding ingest_sessions
  ingest_sessions-IsValid sa t f =
      commit-IsValid t (parsed sa).0 (parsed sa).1 f
        (λ i h. rw (parsed-row sa i sa h) (kept (get_or vs i sa) (one i h)))
        (λ i h. rw (parsed-row sa i sa h) (cut (get_or vs i sa)))
    where
      vs : List V
      vs = rows_of (json.items sa)

      one : (i : ℕ) → i < (parsed sa).1 → is_row json (get_or vs i sa) ≡ true
      one i h =
          All-get_or (λ v. is_row json v ≡ true) vs i sa (rows_of-IsRow (json.items sa))
            (omega (arith, parsed-count sa))

      named : (s : Bytes) → non_empty s ≡ true → non_empty (take 11 s) ≡ true
      named [] h = h
      named (c ∷ s) h = refl

      and_right : (a b : Bool) → a && b ≡ true → b ≡ true
      and_right true b e = e
      and_right false b e = cc

      kept : (v : V) → is_row json v ≡ true → non_empty (session_row json v).sid ≡ true
      kept v h = unfold session_row in named _ (and_right (json.is_object v) _ h)

      cut : (v : V) → length (session_row json v).sid < 12
      cut v =
          unfold session_row in
          omega (arith, length-take_le 11 (text_or json (json.member v (codes "sid"))))
