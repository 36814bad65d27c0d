-- ===== src/Publisher/Dedup/Spacing.antt =====
-- Repeats of a message within the window are dropped, whatever comes in between
-- (`isDuplicate` in rflink/publisher.go).
use go_rflink.Prelude.{
  ℕ, ◌+◌, ◌%◌, ◌^◌, ◌≤◌, ◌<◌, ◌≡◌, true, false, some, List, [], ◌∷◌, All, arith,
}
use go_rflink.Prelude.Text.{Text, text_eq_iff, text_eq_refl}
use go_rflink.Prelude.Maps.{lookup, insert, lookup-insert}
use go_rflink.Publisher.Dedup.{Dedup, dedup_key, drop_old, note_new, is_duplicate}

-- The messages of a history go through `isDuplicate` in turn.
unfoldable pub receive : ℕ → List (Text × ℕ) → Dedup → Dedup
receive window [] d = d
receive window ((msg, now) ∷ es) d = receive window es (is_duplicate window now msg d).1

-- A key noted less than a window ago survives the clean-up.
lookup-drop_old :
    (window now t : ℕ) (k : Text) (m : List (Text × ℕ))
    → now ≤ t + window
    → lookup k m ≡ some t
    → lookup k (drop_old window now m) ≡ some t
unfolding drop_old
lookup-drop_old window now t k [] h e = cc
lookup-drop_old window now t k ((j, s) ∷ m) h e = ground (arith, lookup-drop_old window now t k m h)

note_new-lookup :
    (window now t : ℕ) (key k : Text) (d : Dedup)
    → now ≤ t + window
    → lookup k (insert key now d.last) ≡ some t
    → lookup k (note_new window now key d).last ≡ some t
unfolding note_new
note_new-lookup window now t key k d h e =
    ground (arith, lookup-drop_old window now t k (insert key now d.last) h)

-- Within the window after `t` the note of time `t` stays.
is_duplicate-lookup :
    (window now t : ℕ) (msg k : Text) (d : Dedup)
    → now < t + window
    → lookup k d.last ≡ some t
    → lookup k (is_duplicate window now msg d).1.last ≡ some t
unfolding is_duplicate
is_duplicate-lookup window now t msg k d h e = ground (
  arith,
  text_eq_iff (dedup_key msg) k,
  lookup-insert (dedup_key msg) k now d.last,
  note_new-lookup window now t (dedup_key msg) k d,
)

abbrev pub Within : ℕ → ℕ → Text × ℕ → Type 0
Within window t e = (t ≤ e.1) × (e.1 < t + window)

receive-lookup :
    (window t : ℕ) (k : Text) (es : List (Text × ℕ)) (d : Dedup)
    → All (Within window t) es
    → lookup k d.last ≡ some t
    → lookup k (receive window es d).last ≡ some t
unfolding receive
receive-lookup window t k [] d w e = e
receive-lookup window t k ((msg, now) ∷ es) d w e =
    receive-lookup window t k es (is_duplicate window now msg d).1 w.1
      (is_duplicate-lookup window now t msg k d w.0.1 e)

noted :
    (window t : ℕ) (msg : Text) (d : Dedup)
    → 0 < window
    → (is_duplicate window t msg d).0 ≡ false
    → lookup (dedup_key msg) (is_duplicate window t msg d).1.last ≡ some t
unfolding is_duplicate
noted window t msg d h e = ground (
  arith,
  text_eq_refl (dedup_key msg),
  lookup-insert (dedup_key msg) (dedup_key msg) t d.last,
  note_new-lookup window t t (dedup_key msg) (dedup_key msg) d,
)

-- With a window above 0: once a message is let through, a message with its key is dropped and
-- counted until the window has passed, whatever other messages come in between.
pub is_duplicate-receive :
    (window t now : ℕ) (msg again : Text) (es : List (Text × ℕ)) (d : Dedup)
    → 0 < window
    → (is_duplicate window t msg d).0 ≡ false
    → All (Within window t) es
    → now < t + window
    → dedup_key again ≡ dedup_key msg
    → let d' = receive window es (is_duplicate window t msg d).1 in
      ((is_duplicate window now again d').0 ≡ true)
      × ((is_duplicate window now again d').1.last ≡ d'.last)
      × ((is_duplicate window now again d').1.dropped ≡ (d'.dropped + 1) % 2 ^ 64)
unfolding is_duplicate
is_duplicate-receive window t now msg again es d h e w b k = ground (
  arith,
  receive-lookup window t (dedup_key msg) es (is_duplicate window t msg d).1 w
      (noted window t msg d h e),
)

-- With a window above 0: when the window has passed since a message's key was noted, the message
-- is let through, and its key noted at the new time.
pub is_duplicate_over :
    (window now t : ℕ) (msg : Text) (d : Dedup)
    → lookup (dedup_key msg) d.last ≡ some t
    → t + window ≤ now
    → 0 < window
    → ((is_duplicate window now msg d).0 ≡ false)
      × (lookup (dedup_key msg) (is_duplicate window now msg d).1.last ≡ some now)
unfolding is_duplicate
is_duplicate_over window now t msg d e h p =
    let fresh = over window now t msg d e h in (fresh, noted window now msg d p fresh)
  where
    over :
        (window now t : ℕ) (msg : Text) (d : Dedup)
        → lookup (dedup_key msg) d.last ≡ some t
        → t + window ≤ now
        → (is_duplicate window now msg d).0 ≡ false
    over window now t msg d e h = ground arith
