-- ===== src/Webhooks/Limits.antt =====
-- What one answer to a poll can do, and how many pushes of rflink/webhooks.go run at a time.
use go_rflink.Prelude.{
  ℕ, suc, ◌+◌, ◌≤◌, ◌≡◌, ◌≢◌, refl, subst, inl, inr, Bool, true, false, ◌&&◌, Option, none, some,
  List, [], ◌∷◌, ltb, All, Bool-cases, Option-cases, arith,
}
use go_rflink.Prelude.Text.{Text, is_empty, byte_len}
use go_rflink.Strings.{Unicode, is_space, trim_left, trim_right, trim_space}
use go_rflink.Webhooks.{RuntimeWebhook, poll_max_bytes}
use go_rflink.Webhooks.Address.{Resolver, validate_webhook_url, validate_webhook_url_resolved}
use go_rflink.Webhooks.Deliver.{
  Transport, is_break, before_break, poll_command, answered, poll_outgoing, poll_once, Pushes,
  PushEvent, offer, finish, max_concurrent_push, push_step, push_steps,
}

-- The text is one line.
abbrev pub IsLine : Text → Type 0
IsLine = All (λ c. is_break c ≡ false)

trim_left-All : (P : ℕ → Type 0) (p : ℕ → Bool) (s : Text) → All P s → All P (trim_left p s)
unfolding trim_left
trim_left-All P p [] h = tt
trim_left-All P p (c ∷ s) h = elim (Bool-cases (p c)) [
  | inl cut ↦ rw (cut, trim_left) (trim_left-All P p s h.1)
  | inr stays ↦ rw (stays, trim_left) h
]

trim_right-All : (P : ℕ → Type 0) (p : ℕ → Bool) (s : Text) → All P s → All P (trim_right p s)
unfolding trim_right
trim_right-All P p [] h = tt
trim_right-All P p (c ∷ s) h = elim (Bool-cases (p c && is_empty (trim_right p s))) [
  | inl cut ↦ rw (cut, trim_right) tt
  | inr stays ↦ rw (stays, trim_right) (h.0, trim_right-All P p s h.1)
]

trim_space-All : (P : ℕ → Type 0) (s : Text) → All P s → All P (trim_space s)
unfolding trim_space
trim_space-All P s h =
    trim_right-All P is_space (trim_left is_space s) (trim_left-All P is_space s h)

before_break-IsLine :
    (s : Text) → elim (before_break s) as (λ o. Type 0) [ none ↦ IsLine s | some t ↦ IsLine t ]
unfolding before_break
before_break-IsLine [] = tt
before_break-IsLine (c ∷ s) = elim (Bool-cases (is_break c)) [
  | inl hit ↦ rw (hit, before_break) tt
  | inr other ↦ elim (Option-cases (before_break s)) [
    | inl e ↦ rw (other, e, before_break) (other, rw e at (before_break-IsLine s))
    | inr (t, e) ↦ rw (other, e, before_break) (other, rw e at (before_break-IsLine s))
  ]
]

-- The line of `poll_command`, before it is seen whether it is empty.
line_of : (text : Text) (o : Option Text) → Text
line_of text none = text
line_of text (some t) = trim_space t

poll_command-IsLine :
    (body line : Text) → poll_command body ≡ some line → IsLine line × (is_empty line ≡ false)
unfolding poll_command
poll_command-IsLine body line e =
    let text = trim_space body in
    elim (Bool-cases (is_empty text)) [
      | inl blank ↦ absurd (ground arith)
      | inr full ↦ elim (Option-cases (before_break text)) [
        | inl whole ↦
            let same : text ≡ line = ground arith in
            let one : IsLine text = rw whole at (before_break-IsLine text) in
            (subst IsLine same one, ground arith)
        | inr (t, found) ↦
            let same : trim_space t ≡ line = ground arith in
            let one : IsLine t = rw found at (before_break-IsLine text) in
            (subst IsLine same (trim_space-All (λ c. is_break c ≡ false) t one), ground arith)
      ]
    ]

answered-IsLine :
    (max_bytes : ℕ) (answer : Option (ℕ × Text)) (line : Text)
    → answered max_bytes answer ≡ some line
    → (IsLine line × (is_empty line ≡ false))
      × ((status : ℕ) × (body : Text) × (answer ≡ some (status, body))
          × (byte_len body ≤ max_bytes)
          × (200 ≤ status)
          × (suc status ≤ 300))
unfolding answered
answered-IsLine max_bytes none line e = absurd (ground arith)
answered-IsLine max_bytes (some (status, body)) line e =
    let said : poll_command body ≡ some line = ground arith in
    (
      poll_command-IsLine body line said,
      (status, body, refl, ground arith, ground arith, ground arith),
    )

abbrev pub offers : List PushEvent → ℕ
offers [] = 0
offers (offer ∷ es) = suc (offers es)
offers (finish ∷ es) = offers es

-- No more than 8 pushes are under way, and every push offered is started or counted as dropped.
pub push_steps-le :
    (es : List PushEvent) (p : Pushes)
    → p.under_way ≤ max_concurrent_push
    → let p' = push_steps es p in
      (p'.under_way ≤ max_concurrent_push)
      × (p'.started + p'.dropped ≡ p.started + p.dropped + offers es)
unfolding push_steps push_step
push_steps-le [] p h = (h, omega arith)
push_steps-le (offer ∷ es) p h = elim (Bool-cases (ltb p.under_way max_concurrent_push)) [
  | inl room ↦
      let (most, all_) = push_steps-le es (push_step offer p) (ground arith) in (most, ground arith)
  | inr full ↦
      let (most, all_) = push_steps-le es (push_step offer p) (ground arith) in (most, ground arith)
]
push_steps-le (finish ∷ es) p h =
    let (most, all_) = push_steps-le es (push_step finish p) (ground arith) in (most, ground arith)

module _ ⦃u : Unicode⦄ {Ip : Type 0} (net : Resolver Ip) where
  -- A command that a poll gives is one line and not empty; the URL of the hook has passed both
  -- checks, and the answer had a status from 200 to 299 and a body within the size limit.
  pub poll_once-IsLine :
      (transport : Transport) (h : RuntimeWebhook) (line : Text)
      → poll_once net transport h ≡ some line
      → (validate_webhook_url_resolved net h.url ≡ true)
        × ((IsLine line × (is_empty line ≡ false))
            × ((status : ℕ) × (body : Text) × (transport (poll_outgoing net h)
                  ≡ some (status, body))
                × (byte_len body ≤ poll_max_bytes h)
                × (200 ≤ status)
                × (suc status ≤ 300)))
  unfolding poll_once
  poll_once-IsLine transport h line e = elim (Bool-cases (validate_webhook_url net h.url)) [
    | inr bad ↦ absurd (none_some line (rw bad at e))
    | inl valid ↦ elim (Bool-cases (validate_webhook_url_resolved net h.url)) [
      | inr bad ↦ absurd (none_some line (rw (bad, valid) at e))
      | inl ok ↦ (
        ok,
        answered-IsLine (poll_max_bytes h) (transport (poll_outgoing net h)) line
            (rw (ok, valid) at e),
      )
    ]
  ]
    where
      none_some : (o : Text) → none ≢ some o
      none_some o e = ground arith
