-- ===== src/App/Feed.antt =====
-- The channel of rflink/channels.go between the serial loop of rflink/app.go and the publish loop:
-- lines from the port go in, and are dropped and counted when it is full.
use go_rflink.Prelude.{
  ℕ, suc, ◌+◌, ◌≤◌, ◌≡◌, refl, sym, subst, inl, inr, List, [], ◌∷◌, ◌++◌, ltb, if◌then◌else◌,
  length, length-append, append_assoc, append-nil, Bool-cases, arith,
}
use go_rflink.Prelude.Text.{Text}

abbrev pub serial_channel_buffer : ℕ
serial_channel_buffer = 64

-- The lines in the channel, those taken out of it, and how many were dropped. A history of fewer
-- than 2^64 lines is seen, so the counter does not wrap.
pub record Feed : Type 0 where
  pub queue : List Text
  pub taken : List Text
  pub dropped : ℕ

pub data FeedEvent : Type 0 where
  read : Text → FeedEvent
  take_one : FeedEvent

-- The `select` of the serial loop, with its default branch.
unfoldable pub push_line : Text → Feed → Feed
push_line msg f =
    if ltb (length f.queue) serial_channel_buffer
    then record f { queue = f.queue ++ msg ∷ [] }
    else record f { dropped = f.dropped + 1 }

-- The receive of the publish loop, which waits on an empty channel.
unfoldable pub take_line : Feed → Feed
take_line f = elim f.queue [
  | [] ↦ f
  | msg ∷ rest ↦ record f { queue = rest; taken = f.taken ++ msg ∷ [] }
]

unfoldable pub feed_step : FeedEvent → Feed → Feed
unfolding push_line take_line
feed_step (read msg) f = push_line msg f
feed_step take_one f = take_line f

unfoldable pub feed_steps : List FeedEvent → Feed → Feed
unfolding feed_step
feed_steps [] f = f
feed_steps (e ∷ es) f = feed_steps es (feed_step e f)

-- The lines that the port gave.
abbrev pub given : List FeedEvent → List Text
given [] = []
given (read msg ∷ es) = msg ∷ given es
given (take_one ∷ es) = given es

-- The first list is the second with `n` elements left out, in the order that it has.
pub data Thinned : ℕ → List Text → List Text → Type 0 where
  done : Thinned 0 [] []
  kept : {n : ℕ} {xs ys : List Text} (x : Text) → Thinned n xs ys → Thinned n (x ∷ xs) (x ∷ ys)
  left_out : {n : ℕ} {xs ys : List Text} (y : Text) → Thinned n xs ys → Thinned (suc n) xs (y ∷ ys)

Thinned-refl : (xs : List Text) → Thinned 0 xs xs
Thinned-refl [] = done
Thinned-refl (x ∷ xs) = kept x (Thinned-refl xs)

Thinned-kept_last :
    {n : ℕ} {xs ys : List Text} (x : Text)
    → Thinned n xs ys
    → Thinned n (xs ++ x ∷ []) (ys ++ x ∷ [])
Thinned-kept_last x done = kept x done
Thinned-kept_last x (kept y t) = kept y (Thinned-kept_last x t)
Thinned-kept_last x (left_out y t) = left_out y (Thinned-kept_last x t)

Thinned-left_out_last :
    {n : ℕ} {xs ys : List Text} (x : Text) → Thinned n xs ys → Thinned (suc n) xs (ys ++ x ∷ [])
Thinned-left_out_last x done = left_out x done
Thinned-left_out_last x (kept y t) = kept y (Thinned-left_out_last x t)
Thinned-left_out_last x (left_out y t) = left_out y (Thinned-left_out_last x t)

-- With `seen` given so far.
abbrev Follows : List Text → Feed → Type 0
Follows seen f =
    Thinned f.dropped (f.taken ++ f.queue) seen × (length f.queue ≤ serial_channel_buffer)

push_line-Follows :
    (msg : Text) (seen : List Text) (f : Feed)
    → Follows seen f
    → Follows (seen ++ msg ∷ []) (push_line msg f)
unfolding push_line
push_line-Follows msg seen f (t, fits) =
    elim (Bool-cases (ltb (length f.queue) serial_channel_buffer)) [
      | inl room ↦
          rw (room, push_line)
            (
              subst (λ xs. Thinned f.dropped xs (seen ++ msg ∷ []))
                  (append_assoc f.taken f.queue (msg ∷ [])) (Thinned-kept_last msg t),
              ground (arith, length-append f.queue (msg ∷ [])),
            )
      | inr full ↦
          rw (full, push_line)
            (
              subst (λ n. Thinned n (f.taken ++ f.queue) (seen ++ msg ∷ [])) (ground arith)
                  (Thinned-left_out_last msg t),
              fits,
            )
    ]

take_line-Follows : (seen : List Text) (f : Feed) → Follows seen f → Follows seen (take_line f)
unfolding take_line
take_line-Follows seen f (t, fits) = by_queue f.queue refl
  where
    by_queue : (q : List Text) → f.queue ≡ q → Follows seen (take_line f)
    by_queue [] e = rw (take_line, e) (t, fits)
    by_queue (msg ∷ rest) e =
        rw (take_line, e)
          (
            subst (λ xs. Thinned f.dropped xs seen) (sym (append_assoc f.taken (msg ∷ []) rest))
                (rw e at t),
            ground arith,
          )

feed_steps-Follows :
    (es : List FeedEvent) (seen : List Text) (f : Feed)
    → Follows seen f
    → Follows (seen ++ given es) (feed_steps es f)
unfolding feed_steps
feed_steps-Follows [] seen f h = rw (append-nil seen) h
feed_steps-Follows (read msg ∷ es) seen f h =
    subst (λ ys. Follows ys (feed_steps es (push_line msg f)))
      (append_assoc seen (msg ∷ []) (given es))
      (feed_steps-Follows es (seen ++ msg ∷ []) (push_line msg f) (push_line-Follows msg seen f h))
feed_steps-Follows (take_one ∷ es) seen f h =
    feed_steps-Follows es seen (take_line f) (take_line-Follows seen f h)

-- Over any interleaving of reads from the port and receives of the publish loop, starting with
-- nothing: the lines taken, followed by those that wait, are the lines read with as many left out
-- as were counted as dropped, in their order, and no more than 64 lines wait.
pub feed_steps-Thinned :
    (es : List FeedEvent)
    → let f = feed_steps es (record { queue = []; taken = []; dropped = 0 }) in
      Thinned f.dropped (f.taken ++ f.queue) (given es) × (length f.queue ≤ serial_channel_buffer)
feed_steps-Thinned es =
    feed_steps-Follows es [] (record { queue = []; taken = []; dropped = 0 }) (done, omega arith)
