-- ===== src/Sessions/Rows.antt =====
-- The rows after a commit, and the lookup by session id.
use sticks3_buddy.Prelude.{
  ℕ, ◌-◌, ◌≤◌, ◌<◌, ◌≡◌, ◌∙◌, ◌≢◌, inl, inr, true, Option, none, some, List, arith, ltb, Bool-cases,
  length, get_or, Bytes, bytes_eq→eq, bytes_eq-of_eq, non_empty, first_index, copy_loop, fill_loop,
  first_index_sound, first_index_first, first_index_finds, first_index_unique, length-copy_loop,
  length-fill_loop, fill_loop_outside, copy_loop_inside,
}
use sticks3_buddy.Sessions.{
  Session, SessionTable, max_sessions, sid_cap, no_session, has_sid, commit, find_sid,
}

abbrev pub row : SessionTable → ℕ → Session
row t i = get_or t.rows i no_session

-- The array has its size, the count fits, and a live row has an id that fits its buffer.
pub record IsValid (t : SessionTable) : Type 0 where
  pub full : length t.rows ≡ max_sessions
  pub fits : t.count ≤ max_sessions
  pub named : (i : ℕ) → i < t.count → non_empty (row t i).sid ≡ true
  pub short : (i : ℕ) → i < t.count → length (row t i).sid < sid_cap

pub commit-count : (t : SessionTable) (rows : List Session) (n : ℕ) → (commit t rows n).count ≤ 6
unfolding commit
commit-count t rows n = ground arith

-- A committed list is stored in its order, as far as the table reaches.
pub row-commit :
    (t : SessionTable) (rows : List Session) (n i : ℕ)
    → length t.rows ≡ max_sessions
    → i < (commit t rows n).count
    → row (commit t rows n) i ≡ get_or rows i no_session
unfolding commit
row-commit t rows n i full h = elim (Bool-cases (ltb max_sessions n)) [
  | inl more ↦ rw (more, commit) (stored 6 i (omega arith) (rw (more, commit) at h))
  | inr fits ↦ rw (fits, commit) (stored n i (ground arith) (rw (fits, commit) at h))
]
  where
    stored :
        (m j : ℕ)
        → m ≤ 6
        → j < m
        → get_or
            (fill_loop (6 - m) m (copy_loop m 0 t.rows rows no_session) no_session)
            j
            no_session
          ≡ get_or rows j no_session
    stored m j l r =
        fill_loop_outside (6 - m) m (copy_loop m 0 t.rows rows no_session) no_session no_session j
          (inl r)
        ∙ copy_loop_inside m 0 t.rows rows no_session j (omega arith) (omega arith)
            (omega (arith, full))

pub length-commit :
    (t : SessionTable) (rows : List Session) (n : ℕ) → length (commit t rows n).rows ≡ length t.rows
unfolding commit
length-commit t rows n = simp (length-fill_loop, length-copy_loop)

pub count-commit_le :
    (t : SessionTable) (rows : List Session) (n i : ℕ) → i < (commit t rows n).count → i < n
unfolding commit
count-commit_le t rows n i h = ground arith

-- The parse loop hands over rows with ids that fit: then the table is valid after the commit.
pub commit-IsValid :
    (t : SessionTable) (rows : List Session) (n : ℕ)
    → length t.rows ≡ max_sessions
    → ((i : ℕ) → i < n → non_empty (get_or rows i no_session).sid ≡ true)
    → ((i : ℕ) → i < n → length (get_or rows i no_session).sid < sid_cap)
    → IsValid (commit t rows n)
commit-IsValid t rows n full named short = record {
  full = length-commit t rows n ∙ full;
  fits = commit-count t rows n;
  named = λ i h. rw (row-commit t rows n i full h) (named i (count-commit_le t rows n i h));
  short = λ i h. rw (row-commit t rows n i full h) (short i (count-commit_le t rows n i h));
}

-- What a lookup returns is the first live row with that id.
pub find_sid_sound :
    (t : SessionTable) (sid : Bytes) (i : ℕ)
    → find_sid t (some sid) ≡ some i
    → (i < t.count) × ((row t i).sid ≡ sid) × ((j : ℕ) → j < i → (row t j).sid ≢ sid)
unfolding find_sid
find_sid_sound t sid i h = elim (Bool-cases (non_empty sid)) [
  | inl e ↦ found (rw (e, find_sid) at h)
  | inr e ↦ absurd (nothing (rw (e, find_sid) at h))
]
  where
    nothing : ◌≡◌ {A = Option ℕ} none (some i) → ⊥
    nothing e = cc

    found :
        first_index (has_sid sid) t.count 0 t.rows no_session ≡ some i
        → (i < t.count) × ((row t i).sid ≡ sid) × ((j : ℕ) → j < i → (row t j).sid ≢ sid)
    found e =
        let (_, b, p) = first_index_sound (has_sid sid) t.count 0 t.rows no_session i e in
        (
          omega (arith, b),
          bytes_eq→eq _ _ p,
          λ j l q. cc (
            first_index_first (has_sid sid) t.count 0 t.rows no_session i j e (omega arith) l,
            bytes_eq-of_eq _ _ q,
          ),
        )

pub find_sid_finds :
    (t : SessionTable) (sid : Bytes) (i : ℕ)
    → non_empty sid ≡ true
    → i < t.count
    → (row t i).sid ≡ sid
    → (j : ℕ) × (find_sid t (some sid) ≡ some j)
unfolding find_sid
find_sid_finds t sid i named h e = rw named (
    first_index_finds (has_sid sid) t.count 0 t.rows no_session i (omega arith) (omega arith)
      (bytes_eq-of_eq _ _ e))

-- With the ids of the live rows distinct, a live row is found by its id.
pub find_sid_unique :
    (t : SessionTable) (sid : Bytes) (i : ℕ)
    → non_empty sid ≡ true
    → i < t.count
    → (row t i).sid ≡ sid
    → ((j : ℕ) → j < t.count → (row t j).sid ≡ sid → j ≡ i)
    → find_sid t (some sid) ≡ some i
unfolding find_sid
find_sid_unique t sid i named h e only = rw named (
    first_index_unique (has_sid sid) t.count 0 t.rows no_session i (omega arith) (omega arith)
      (bytes_eq-of_eq _ _ e) (λ j l q. only j (omega arith) (bytes_eq→eq _ _ q)))
