-- ===== src/HostLink/Persist.antt =====
-- What the boot reads back is what was last saved.
use sticks3_buddy.Prelude.{
  take, sym, take_ext, length-take, get_or-take, length-set, ℕ, zero, suc, ◌+◌, ◌≤◌, ◌<◌, ◌≡◌, refl,
  ap, ◌∙◌, inl, inr, Bool, true, Option, none, some, List, arith, ltb, ◌==◌, if◌then◌else◌,
  Bool-cases, length, get_or, set, replicate, get_or-set_self, get_or-set_ne, set_cases,
}
use sticks3_buddy.Hosts
use sticks3_buddy.Hosts.{
  HostRec, HostTable, max_hosts, no_host, host, flag_used, given, find_bda, touch, adopt,
  hello_route, rekey, lru, drop_host, remap_pin,
}
use sticks3_buddy.Hosts.Keys.{IsValid}
use sticks3_buddy.HostLink.{Nvs}
use sticks3_buddy.HostLink.Store.{
  save_loop, save, is_used, read_blob, load_loop, stored_count, load,
}

blob : List (Option HostRec) → ℕ → Option HostRec
blob bs i = get_or bs i none

abbrev blob_of : HostTable → ℕ → Option HostRec
blob_of t i = if ltb i t.count then some (host t i) else none

save_loop-length :
    (k i : ℕ) (t : HostTable) (bs : List (Option HostRec)) → length (save_loop k i t bs) ≡ length bs
unfolding save_loop
save_loop-length zero i t bs = refl
save_loop-length (suc k) i t bs =
    save_loop-length k (suc i) t (set bs i (blob_of t i)) ∙ length-set bs i (blob_of t i)

save_loop_below :
    (k i : ℕ) (t : HostTable) (bs : List (Option HostRec)) (j : ℕ)
    → j < i
    → get_or (save_loop k i t bs) j none ≡ get_or bs j none
unfolding save_loop
save_loop_below zero i t bs j h = refl
save_loop_below (suc k) i t bs j h =
    save_loop_below k (suc i) t (set bs i (blob_of t i)) j (omega arith)
    ∙ get_or-set_ne bs i j (blob_of t i) none (omega arith)

save_loop_at :
    (k i : ℕ) (t : HostTable) (bs : List (Option HostRec)) (j : ℕ)
    → i ≤ j
    → j < i + k
    → i + k ≤ length bs
    → get_or (save_loop k i t bs) j none ≡ blob_of t j
unfolding save_loop
save_loop_at zero i t bs j l r f = absurd (omega arith)
save_loop_at (suc k) i t bs j l r f = elim (Bool-cases (i == j)) [
  | inl here ↦
      let e : i ≡ j = ground arith in
      save_loop_below k (suc i) t (set bs i (blob_of t i)) j (omega arith)
      ∙ ap (λ (x : ℕ). get_or (set bs i (blob_of t i)) x none) (sym e)
      ∙ get_or-set_self bs i (blob_of t i) none (omega arith)
      ∙ ap (blob_of t) e
  | inr later ↦
      save_loop_at k (suc i) t (set bs i (blob_of t i)) j (ground arith) (omega arith)
        (omega (arith, length-set bs i (blob_of t i)))
]

-- Blobs in use are read in place.
module _ (t : HostTable) (bs : List (Option HostRec)) where
  step :
      (k i : ℕ) (hosts : List HostRec)
      → get_or bs i none ≡ some (host t i)
      → is_used (host t i) ≡ true
      → load_loop (suc k) i bs hosts i ≡ load_loop k (suc i) bs (set hosts i (host t i)) (suc i)
  unfolding load_loop read_blob
  step k i hosts b u =
      ap
        (λ (o : Option HostRec).
          load_loop k (suc i) bs (read_blob o hosts i).0 (read_blob o hosts i).1)
        b
      ∙ ap (λ (x : Bool). load_loop k (suc i) bs (set hosts i (host t i)) (if x then i + 1 else i))
          u
      ∙ ap (load_loop k (suc i) bs (set hosts i (host t i))) (omega arith)

  load_loop_used :
      (k i : ℕ) (hosts : List HostRec)
      → ((j : ℕ) → j < i + k → get_or bs j none ≡ some (host t j))
      → ((j : ℕ) → j < i + k → is_used (host t j) ≡ true)
      → i + k ≤ length hosts
      → ((j : ℕ) → j < i → get_or hosts j no_host ≡ host t j)
      → ((load_loop k i bs hosts i).1 ≡ i + k)
        × ((j : ℕ) → j < i + k → get_or (load_loop k i bs hosts i).0 j no_host ≡ host t j)
  load_loop_used zero i hosts b u f old =
      unfold load_loop in (omega arith, λ j h. old j (omega arith))
  load_loop_used (suc k) i hosts b u f old =
      let (count, rows) =
        load_loop_used k (suc i) (set hosts i (host t i)) (λ j h. b j (omega arith))
          (λ j h. u j (omega arith)) (omega (arith, length-set hosts i (host t i)))
          (λ j h.
            set_cases (λ x. x ≡ host t j) hosts i j (host t i) no_host (omega arith)
              (λ e. ap (host t) e) (λ ne. old j (omega arith))) in
      rw (step k i hosts (b i (omega arith)) (u i (omega arith)))
        (omega (arith, count), λ j h. rows j (omega arith))

length-read_blob :
    (o : Option HostRec) (hosts : List HostRec) (out : ℕ)
    → length (read_blob o hosts out).0 ≡ length hosts
unfolding read_blob
length-read_blob none hosts out = refl
length-read_blob (some r) hosts out = length-set hosts out r

length-load_loop :
    (k i : ℕ) (bs : List (Option HostRec)) (hosts : List HostRec) (out : ℕ)
    → length (load_loop k i bs hosts out).0 ≡ length hosts
unfolding load_loop
length-load_loop zero i bs hosts out = refl
length-load_loop (suc k) i bs hosts out =
    length-load_loop k (suc i) bs _ _ ∙ length-read_blob (get_or bs i none) hosts out

-- With every host of a valid registry marked as used, a boot after a save finds the same hosts in
-- the same slots, and the same counter, also where there are no hosts left.
pub load-save :
    (t : HostTable) (nvs : Nvs)
    → IsValid t
    → ((i : ℕ) → i < t.count → is_used (host t i) ≡ true)
    → length nvs.blobs ≡ max_hosts
    → t.count ≤ length t.hosts
    → let u = load (save t nvs) in
      (u.count ≡ t.count) × (u.seq ≡ t.seq) × (take u.count u.hosts ≡ take t.count t.hosts)
unfolding load save Hosts.init
load-save t nvs v used f room = (
  counted ∙ read.0,
  refl,
  take_ext (load (save t nvs)).count (load (save t nvs)).hosts (take t.count t.hosts) no_host
      (omega
        (arith, counted, read.0, length-load_loop (stored_count (save t nvs)) 0 bs fresh 0, v.fits))
      (omega (arith, length-take t.count t.hosts, room, counted, read.0))
      (λ j h.
        ap (λ (k : ℕ). get_or (load_loop k 0 bs fresh 0).0 j no_host) all
        ∙ read.1 j (omega (arith, h, counted, read.0))
        ∙ sym (get_or-take t.count t.hosts j no_host (omega (arith, h, counted, read.0)))),
)
  where
    bs : List (Option HostRec)
    bs = save_loop max_hosts 0 t nvs.blobs

    fresh : List HostRec
    fresh = replicate 7 no_host

    all : stored_count (save t nvs) ≡ t.count
    all = unfold save in ground (arith, v.fits)

    counted :
        (load_loop (stored_count (save t nvs)) 0 bs fresh 0).1 ≡ (load_loop t.count 0 bs fresh 0).1
    counted = ap (λ (k : ℕ). (load_loop k 0 bs fresh 0).1) all

    stored : (i : ℕ) → i < t.count → get_or bs i none ≡ some (host t i)
    stored i l =
        save_loop_at 7 0 t nvs.blobs i (omega arith) (omega (arith, v.fits)) (omega (arith, f))
        ∙ ap (λ (b : Bool). if b then some (host t i) else none) {y = true} (ground arith)

    read :
        ((load_loop t.count 0 bs fresh 0).1 ≡ t.count)
        × ((i : ℕ) → i < t.count → get_or (load_loop t.count 0 bs fresh 0).0 i no_host ≡ host t i)
    read =
        let (a, b) =
          load_loop_used t bs t.count 0 fresh (λ i l. stored i (omega arith))
            (λ i l. used i (omega arith)) (omega (arith, v.fits)) (λ i l. absurd (omega arith)) in
        (omega (arith, a), λ i l. b i (omega arith))
