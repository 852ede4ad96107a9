-- ===== src/Proto/Greeting.antt =====
-- A hello, and the prompts and questions that a later line takes back by their id.
use sticks3_buddy.Prelude.{
  ℕ, zero, suc, ◌≤◌, min, ◌≡◌, refl, ap, Bool, true, ◌&&◌, [], ◌∷◌, arith, leb, if◌then◌else◌,
  length, take, pos, Bytes, codes, bytes_eq, non_empty,
}
use sticks3_buddy.Sessions.{SessionTable}
use sticks3_buddy.Proto.Json.{Json}
use sticks3_buddy.Proto.Device.{Device, Wire}
use sticks3_buddy.Proto.State.{TamaState, ask_clear, v2}
use sticks3_buddy.Proto.Reply.{text_or}
use sticks3_buddy.Proto.Commands.{hello, cancels, greeted, host_proto}
use sticks3_buddy.Proto.Events.{ask, ask_cancel}
use sticks3_buddy.Proto.Events.{ask_fill}
use sticks3_buddy.Proto.Heartbeat.{prompt_of}
use sticks3_buddy.Sessions

-- A text equals its own truncation exactly if it fits.
bytes_eq-take : (n : ℕ) (s : Bytes) → bytes_eq s (take n s) ≡ leb (length s) n
unfolding bytes_eq
bytes_eq-take zero [] = refl
bytes_eq-take zero (c ∷ s) = ground arith
bytes_eq-take (suc n) [] = ground arith
bytes_eq-take (suc n) (c ∷ s) = ground (arith, bytes_eq-take n s)

cancelled :
    (n : ℕ) (s : Bytes)
    → non_empty s && (non_empty (take (suc n) s) && bytes_eq s (take (suc n) s))
      ≡ (non_empty s && leb (length s) (suc n))
cancelled n [] = refl
cancelled n (c ∷ s) = bytes_eq-take (suc n) (c ∷ s)

module _ {V : Type 0} (json : Json V) where
  -- A prompt can be cancelled by the id that it came with exactly if that id is not empty and at
  -- most 39 bytes long.
  pub cancels-prompt_of :
      (pr doc : V) (t : TamaState)
      → text_or json (json.member doc (codes "id")) ≡ text_or json (json.member pr (codes "id"))
      → cancels json doc (prompt_of json pr t) ≡ (
          non_empty (text_or json (json.member pr (codes "id")))
          && leb (length (text_or json (json.member pr (codes "id")))) 39)
  unfolding prompt_of
  cancels-prompt_of pr doc t e = rw e (cancelled 38 (text_or json (json.member pr (codes "id"))))

  -- A question that was taken up is taken back by a line with the same id if the id has at most 15
  -- bytes, and otherwise it stays.
  pub ask_cancel-ask :
      (doc doc' : V) (t : TamaState)
      → text_or json (json.member doc' (codes "id")) ≡ text_or json (json.member doc (codes "id"))
      → non_empty (text_or json (json.member doc (codes "id"))) ≡ true
      → json.is_object (json.element (json.member doc (codes "questions")) 0) ≡ true
      → ask_cancel json doc' (ask json doc t) ≡ (
          if leb (length (text_or json (json.member doc (codes "id")))) 15
          then ask_clear (ask json doc t)
          else ask json doc t)
  unfolding ask ask_cancel ask_fill
  ask_cancel-ask doc doc' t e h k =
      rw (e, h, k)
        (ap (λ (b : Bool). if b then ask_clear asked else asked)
          (bytes_eq-take 15 (text_or json (json.member doc (codes "id")))))
    where
      asked : TamaState
      asked = ask_fill json doc (json.element (json.member doc (codes "questions")) 0) (ask_clear t)

module _ {V D : Type 0} (json : Json V) (dev : Device V D) where
  -- A hello from a host of version p, 1 to 255, whatever the connection was before, leaves a
  -- connection that is past its hello and speaks min(p, 2); the sessions of the former host and its
  -- question are gone, the selection, the pin, the prompt and the cards stay.
  pub hello_fresh :
      (doc : V) (w : Wire D) (p : ℕ)
      → json.int_or (json.member doc (codes "proto")) (pos 1) ≡ pos p
      → 1 ≤ p
      → p ≤ 255
      → let u = hello json dev doc w in
        (u.ps.hello_seen ≡ true)
        × (u.ps.eff_proto ≡ min 2 p)
        × (v2 u.ps ≡ leb 2 p)
        × (u.sessions.count ≡ 0)
        × (u.sessions.sel_sid ≡ w.sessions.sel_sid)
        × (u.sessions.pin_sid ≡ w.sessions.pin_sid)
        × ((u.tama.q_ask_id ≡ []) × (u.tama.q_n_opts ≡ 0))
        × (u.tama.prompt_id ≡ w.tama.prompt_id)
        × (u.ntfy ≡ w.ntfy)
  unfolding hello greeted Sessions.clear ask_clear
  hello_fresh doc w p e low high = (
    refl,
    ground (arith, version),
    ground (arith, version),
    refl,
    refl,
    refl,
    (refl, refl),
    refl,
    refl,
  )
    where
      version : host_proto json doc ≡ p
      version = unfold host_proto in rw e (ground (arith, low, high))
