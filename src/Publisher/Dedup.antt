-- ===== src/Publisher/Dedup.antt =====
-- The suppression of radio retransmits in rflink/publisher.go: `dedupKey` and `isDuplicate`.
-- Times and the window are nanoseconds.
pub mod Spacing
use go_rflink.Prelude.{
  ℕ, suc, ◌+◌, ◌-◌, ◌*◌, ◌%◌, ◌^◌, ◌≡◌, refl, sym, ap, ◌∙◌, Bool, true, false, not, Option, none,
  some, List, [], ◌∷◌, ◌++◌, ltb, ◌==◌, if◌then◌else◌, length, arith,
}
use go_rflink.Prelude.Text.{Text, codes, text_eq}
use go_rflink.Prelude.Maps.{lookup, insert}
use go_rflink.Strings.{trim_space, split, join, is_space}
use go_rflink.Strings.Split.{Lacks, split-append, join-split, split-cases}
use go_rflink.Strings.Trim.{IsTrimmed, StartsOff, EndsOff, trim_space_id}

-- The test of `dedupKey` on the pieces of the trimmed message.
key_of : Text → List Text → Text
key_of msg (a ∷ b ∷ c ∷ rest) = if text_eq a (codes "20") then join b';' (a ∷ c ∷ rest) else msg
key_of msg _ = msg

unfoldable pub dedup_key : Text → Text
unfolding key_of
dedup_key msg = key_of (trim_space msg) (split b';' (trim_space msg))

-- `dedupLast` and the counter `dedupDropped`.
pub record Dedup : Type 0 where
  pub last : List (Text × ℕ)
  pub dropped : ℕ

abbrev pub millisecond : ℕ
millisecond = 1000000

-- `dedupWindow`, for a setting that `GetOptions` leaves at 0 or above.
abbrev pub dedup_window : ℕ → ℕ
dedup_window ms = ms * millisecond

-- The clean-up loop of `isDuplicate`.
unfoldable pub drop_old : ℕ → ℕ → List (Text × ℕ) → List (Text × ℕ)
drop_old window now [] = []
drop_old window now ((k, t) ∷ m) =
    if ltb (window * 2) (now - t) then drop_old window now m else (k, t) ∷ drop_old window now m

-- The message is new: it is noted, and a cache of more than 500 keys is cleaned up.
unfoldable pub note_new : ℕ → ℕ → Text → Dedup → Dedup
unfolding drop_old
note_new window now key d =
    let last = insert key now d.last in
    record d { last = if ltb 500 (length last) then drop_old window now last else last }

unfoldable pub is_duplicate : ℕ → ℕ → Text → Dedup → Bool × Dedup
is_duplicate window now msg d =
    if window == 0 then (false, d) else (elim (lookup (dedup_key msg) d.last) [
      | none ↦ (false, note_new window now (dedup_key msg) d)
      | some last ↦
          if ltb (now - last) window
          then (true, record d { dropped = (d.dropped + 1) % 2 ^ 64 })
          else (false, note_new window now (dedup_key msg) d)
    ])

-- A frame from the gateway: "20;", the sequence counter, and the rest.
abbrev pub frame : Text → Text → Text
frame seq rest = codes "20" ++ b';' ∷ (seq ++ b';' ∷ rest)

-- The key of a trimmed frame of the gateway whose sequence counter holds no semicolon is the frame
-- with that counter left out.
pub dedup_key_lem :
    (seq rest : Text)
    → Lacks b';' seq
    → IsTrimmed (frame seq rest)
    → dedup_key (frame seq rest) ≡ codes "20" ++ b';' ∷ rest
unfolding dedup_key join
dedup_key_lem seq rest h t =
    let (w, ws, e) = split-cases b';' rest in
    let pieces : split b';' (frame seq rest) ≡ codes "20" ∷ seq ∷ w ∷ ws =
      split-append b';' (codes "20") (seq ++ b';' ∷ rest) (refl, (refl, tt))
      ∙ ap (◌∷◌ (codes "20")) (split-append b';' seq rest h ∙ ap (◌∷◌ seq) e) in
    let whole : join b';' (w ∷ ws) ≡ rest = ap (join b';') (sym e) ∙ join-split b';' rest in
    ap (λ m. key_of m (split b';' m)) (trim_space_id (frame seq rest) t)
    ∙ ap (key_of (frame seq rest)) pieces
    ∙ ap (λ r. codes "20" ++ b';' ∷ r) whole
