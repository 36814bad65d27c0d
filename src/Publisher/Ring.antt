-- ===== src/Publisher/Ring.antt =====
-- The buffers of recent lines and samples in rflink/publisher.go: `appendRawLine` and
-- `appendSensorSample` write into a slice that never grows past its capacity.
use go_rflink.Prelude.{
  ℕ, zero, suc, ◌-◌, ◌≤◌, ◌<◌, ◌≡◌, refl, sym, ap, ◌∙◌, List, [], ◌∷◌, ◌++◌, ◌≡⟨◌⟩◌, ◌∎, inl, inr,
  Bool-cases, lt→ltb, leb, ltb, if◌then◌else◌, length, drop, length-append, length-drop, append-nil,
  append_assoc, arith,
}

zero_sub : (n : ℕ) → 0 - n ≡ 0
zero_sub n = omega arith

module _ {ℓ} {A : Type ℓ} where
  -- `copy(xs, xs[1:])` and the write at `len(xs) - 1`: all move down by one place, and the last
  -- is the new entry.
  abbrev pub shift : A → List A → List A
  shift entry [] = []
  shift entry (x ∷ []) = entry ∷ []
  shift entry (x ∷ y ∷ xs) = y ∷ shift entry (y ∷ xs)

  unfoldable pub append_line : ℕ → A → List A → List A
  append_line cap entry xs =
      if ltb 0 cap then (if leb cap (length xs) then shift entry xs else xs ++ entry ∷ []) else xs

  -- A history of entries, oldest first.
  unfoldable pub append_lines : ℕ → List A → List A → List A
  append_lines cap xs [] = xs
  append_lines cap xs (entry ∷ es) = append_lines cap (append_line cap entry xs) es

  shift-drop : (entry x : A) (xs : List A) → shift entry (x ∷ xs) ≡ drop 1 ((x ∷ xs) ++ entry ∷ [])
  shift-drop entry x [] = refl
  shift-drop entry x (y ∷ xs) = ap (◌∷◌ y) (shift-drop entry y xs)

  drop-append : (n : ℕ) (xs ys : List A) → n ≤ length xs → drop n (xs ++ ys) ≡ drop n xs ++ ys
  drop-append zero xs ys h = refl
  drop-append (suc n) [] ys h = absurd (omega arith)
  drop-append (suc n) (x ∷ xs) ys h = drop-append n xs ys (omega arith)

  drop-drop : (n : ℕ) (xs : List A) → drop 1 (drop n xs) ≡ drop (suc n) xs
  drop-drop zero xs = refl
  drop-drop (suc n) [] = refl
  drop-drop (suc n) (x ∷ xs) = drop-drop n xs

  -- The buffer holds the last `cap` of all entries.
  abbrev Holds : ℕ → List A → List A → Type ℓ
  Holds cap all xs = xs ≡ drop (length all - cap) all

  shift-drop_any :
      (entry : A) (xs : List A) → 0 < length xs → shift entry xs ≡ drop 1 (xs ++ entry ∷ [])
  shift-drop_any entry [] h = absurd (omega arith)
  shift-drop_any entry (x ∷ xs) h = shift-drop entry x xs

  -- One more entry, when the buffer is full, and when it is not.
  full-Holds :
      (cap : ℕ) (entry : A) (all xs : List A)
      → 0 < cap
      → cap ≤ length xs
      → Holds cap all xs
      → Holds cap (all ++ entry ∷ []) (shift entry xs)
  full-Holds cap entry all xs h full e =
      let k = length all - cap in
      let size : length xs ≡ length all - k = ap length e ∙ length-drop k all in
      let next : length (all ++ entry ∷ []) - cap ≡ suc k =
        omega (arith, length-append all (entry ∷ [])) in
      shift entry xs
      ≡⟨ shift-drop_any entry xs (omega arith) ⟩ drop 1 (xs ++ entry ∷ [])
      ≡⟨ ap (λ ys. drop 1 (ys ++ entry ∷ [])) e ⟩ drop 1 (drop k all ++ entry ∷ [])
      ≡⟨ ap (drop 1) (sym (drop-append k all (entry ∷ []) (omega arith))) ⟩
        drop 1 (drop k (all ++ entry ∷ []))
      ≡⟨ drop-drop k (all ++ entry ∷ []) ⟩ drop (suc k) (all ++ entry ∷ [])
      ≡⟨ ap (λ i. drop i (all ++ entry ∷ [])) (sym next) ⟩
        drop (length (all ++ entry ∷ []) - cap) (all ++ entry ∷ []) ∎

  room-Holds :
      (cap : ℕ) (entry : A) (all xs : List A)
      → length xs < cap
      → Holds cap all xs
      → Holds cap (all ++ entry ∷ []) (xs ++ entry ∷ [])
  room-Holds cap entry all xs room e =
      let size : length xs ≡ length all - (length all - cap) =
        ap length e ∙ length-drop (length all - cap) all in
      let before : length all - cap ≡ 0 = omega arith in
      let after : length (all ++ entry ∷ []) - cap ≡ 0 =
        omega (arith, length-append all (entry ∷ [])) in
      ap (λ ys. ys ++ entry ∷ []) (e ∙ ap (λ i. drop i all) before)
      ∙ ap (λ i. drop i (all ++ entry ∷ [])) (sym after)

  append_line-Holds :
      (cap : ℕ) (entry : A) (all xs : List A)
      → 0 < cap
      → Holds cap all xs
      → Holds cap (all ++ entry ∷ []) (append_line cap entry xs)
  unfolding append_line
  append_line-Holds cap entry all xs h e = elim (Bool-cases (leb cap (length xs))) [
    | inl full ↦ rw (lt→ltb 0 cap h, full) (full-Holds cap entry all xs h (ground arith) e)
    | inr room ↦ rw (lt→ltb 0 cap h, room) (room-Holds cap entry all xs (ground arith) e)
  ]

  append_lines-Holds :
      (cap : ℕ) (es all xs : List A)
      → 0 < cap
      → Holds cap all xs
      → Holds cap (all ++ es) (append_lines cap xs es)
  unfolding append_lines
  append_lines-Holds cap [] all xs h e =
      e ∙ ap (λ ys. drop (length ys - cap) ys) (sym (append-nil all))
  append_lines-Holds cap (x ∷ es) all xs h e =
      append_lines-Holds cap es (all ++ x ∷ []) (append_line cap x xs) h
        (append_line-Holds cap x all xs h e)
      ∙ ap (λ ys. drop (length ys - cap) ys) (append_assoc all (x ∷ []) es)

  -- After any history of lines, a debug buffer with a capacity above 0 that starts empty holds
  -- exactly the last of them up to the capacity, oldest first.
  pub append_lines_lem :
      (cap : ℕ) (es : List A) → 0 < cap → append_lines cap [] es ≡ drop (length es - cap) es
  append_lines_lem cap es h = append_lines-Holds cap es [] [] h (sym (drop_none cap))
    where
      drop_none : (n : ℕ) → drop {A = A} (0 - n) [] ≡ []
      drop_none n = ap (λ i. drop i []) (zero_sub n)
