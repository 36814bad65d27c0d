-- ===== src/Http/Hub.antt =====
-- `rawHub` of rflink/http_ws.go: serial lines on their way to the web sockets. A channel is a number
-- with the entries that wait in it.
use go_rflink.Prelude.{
  ℕ, zero, suc, ◌-◌, ◌≤◌, ◌≡◌, refl, sym, ap, ◌∙◌, inl, inr, Option, none, some, List, [], ◌∷◌,
  ◌++◌, ltb, ◌==◌, if◌then◌else◌, length, take, append_assoc, append-nil, length-append, Bool-cases,
  arith,
}

-- The capacity of a channel made by `subscribe`.
abbrev pub channel_cap : ℕ
channel_cap = 32

abbrev pub Subs {ℓ} : Type ℓ → Type ℓ
Subs A = List (ℕ × List A)

module _ {ℓ} {A : Type ℓ} where
  -- The entries that wait in a channel, if it is subscribed.
  unfoldable pub waiting : ℕ → Subs A → Option (List A)
  waiting ch [] = none
  waiting ch ((k, buf) ∷ subs) = if k == ch then some buf else waiting ch subs

  -- `subscribe`, with the channel that is made.
  unfoldable pub subscribe : ℕ → Subs A → Subs A
  subscribe ch subs = (ch, []) ∷ subs

  unfoldable pub unsubscribe : ℕ → Subs A → Subs A
  unsubscribe ch [] = []
  unsubscribe ch ((k, buf) ∷ subs) =
      let rest = unsubscribe ch subs in if k == ch then rest else (k, buf) ∷ rest

  -- A send that does not wait: it is dropped when the channel is full.
  abbrev pub offer : A → List A → List A
  offer entry buf = if ltb (length buf) channel_cap then buf ++ entry ∷ [] else buf

  unfoldable pub broadcast : A → Subs A → Subs A
  broadcast entry [] = []
  broadcast entry ((k, buf) ∷ subs) = (k, offer entry buf) ∷ broadcast entry subs

  -- What the writer of a web socket takes.
  unfoldable pub receive : ℕ → Subs A → Subs A
  receive ch [] = []
  receive ch ((k, buf) ∷ subs) =
      if k == ch then (k, rest_of buf) ∷ subs else (k, buf) ∷ receive ch subs
    where
      rest_of : List A → List A
      rest_of [] = []
      rest_of (x ∷ xs) = xs

  unfoldable pub broadcasts : List A → Subs A → Subs A
  unfolding broadcast
  broadcasts [] subs = subs
  broadcasts (entry ∷ es) subs = broadcasts es (broadcast entry subs)

  abbrev offers : List A → List A → List A
  offers [] buf = buf
  offers (entry ∷ es) buf = offers es (offer entry buf)

  abbrev mapped : (List A → List A) → Option (List A) → Option (List A)
  mapped f none = none
  mapped f (some buf) = some (f buf)

  waiting-broadcast :
      (ch : ℕ) (entry : A) (subs : Subs A)
      → waiting ch (broadcast entry subs) ≡ mapped (offer entry) (waiting ch subs)
  unfolding waiting broadcast
  waiting-broadcast ch entry [] = refl
  waiting-broadcast ch entry ((k, buf) ∷ subs) = elim (Bool-cases (k == ch)) [
    | inl hit ↦ rw (hit, waiting) refl
    | inr miss ↦ rw (miss, waiting) (waiting-broadcast ch entry subs)
  ]

  offers-take :
      (es buf : List A)
      → length buf ≤ channel_cap
      → offers es buf ≡ buf ++ take (channel_cap - length buf) es
  offers-take [] buf h =
      sym (append-nil buf) ∙ ap (λ ys. buf ++ ys) (sym (take_nil (channel_cap - length buf)))
    where
      take_nil : (n : ℕ) → take {A = A} n [] ≡ []
      take_nil zero = refl
      take_nil (suc n) = refl
  offers-take (entry ∷ es) buf h = elim (Bool-cases (ltb (length buf) channel_cap)) [
    | inl room ↦
        let next = buf ++ entry ∷ [] in
        let left : channel_cap - length buf ≡ suc (channel_cap - length next) =
          ground (arith, length-append buf (entry ∷ [])) in
        rw room (
          offers-take es next (ground (arith, length-append buf (entry ∷ [])))
          ∙ append_assoc buf (entry ∷ []) (take (channel_cap - length next) es)
          ∙ ap (λ n. buf ++ take n (entry ∷ es)) (sym left))
    | inr full ↦
        let none_left : channel_cap - length buf ≡ 0 = ground arith in
        rw full (
          offers-take es buf h
          ∙ ap (λ n. buf ++ take n es) none_left
          ∙ ap (λ n. buf ++ take n (entry ∷ es)) (sym none_left))
  ]

  -- A subscriber that reads nothing while lines are broadcast holds what it held and then the
  -- first of the lines, as many as its channel has room for.
  pub broadcasts-take :
      (ch : ℕ) (es buf : List A) (subs : Subs A)
      → waiting ch subs ≡ some buf
      → length buf ≤ channel_cap
      → waiting ch (broadcasts es subs) ≡ some (buf ++ take (channel_cap - length buf) es)
  unfolding broadcasts
  broadcasts-take ch es buf subs h fits = run es buf subs h ∙ ap some (offers-take es buf fits)
    where
      run :
          (es buf : List A) (subs : Subs A)
          → waiting ch subs ≡ some buf
          → waiting ch (broadcasts es subs) ≡ some (offers es buf)
      run [] buf subs h = h
      run (entry ∷ es) buf subs h =
          run es (offer entry buf) (broadcast entry subs)
            (waiting-broadcast ch entry subs ∙ ap (mapped (offer entry)) h)
