-- ===== src/Strings/Trim.antt =====
-- Laws of trimming: what `strings.TrimSpace` leaves, and that trimming twice is trimming once.
use go_rflink.Prelude.{
  ℕ, ◌≡◌, refl, inl, inr, ap, ◌∙◌, Bool, false, ◌&&◌, [], ◌∷◌, ◌++◌, arith, Bool-cases,
}
use go_rflink.Prelude.Text.{Text, is_empty}
use go_rflink.Strings.{trim_left, trim_right, trim_space, is_space}

-- The first and the last character, if any, fail the test.
abbrev pub StartsOff : (ℕ → Bool) → Text → Type 0
StartsOff p [] = Unit
StartsOff p (c ∷ s) = p c ≡ false

abbrev pub EndsOff : (ℕ → Bool) → Text → Type 0
EndsOff p [] = Unit
EndsOff p (c ∷ []) = p c ≡ false
EndsOff p (c ∷ d ∷ s) = EndsOff p (d ∷ s)

pub trim_left_id : (p : ℕ → Bool) (s : Text) → StartsOff p s → trim_left p s ≡ s
unfolding trim_left
trim_left_id p [] h = refl
trim_left_id p (c ∷ s) h = ground arith

pub trim_right_id : (p : ℕ → Bool) (s : Text) → EndsOff p s → trim_right p s ≡ s
unfolding trim_right
trim_right_id p [] h = refl
trim_right_id p (c ∷ []) h = ground arith
trim_right_id p (c ∷ d ∷ s) h = ground (arith, trim_right_id p (d ∷ s) h)

pub trim_left-StartsOff : (p : ℕ → Bool) (s : Text) → StartsOff p (trim_left p s)
unfolding trim_left
trim_left-StartsOff p [] = tt
trim_left-StartsOff p (c ∷ s) = elim (Bool-cases (p c)) [
  | inl yes_ ↦ rw (yes_, trim_left) (trim_left-StartsOff p s)
  | inr off ↦ rw (off, trim_left) off
]

EndsOff-cons :
    (p : ℕ → Bool) (c : ℕ) (s : Text)
    → EndsOff p s
    → (p c && is_empty s) ≡ false
    → EndsOff p (c ∷ s)
EndsOff-cons p c [] h e = ground arith
EndsOff-cons p c (d ∷ s) h e = h

pub trim_right-EndsOff : (p : ℕ → Bool) (s : Text) → EndsOff p (trim_right p s)
unfolding trim_right
trim_right-EndsOff p [] = tt
trim_right-EndsOff p (c ∷ s) = elim (Bool-cases (p c && is_empty (trim_right p s))) [
  | inl gone ↦ rw (gone, trim_right) tt
  | inr stays ↦ rw (stays, trim_right) (EndsOff-cons p c _ (trim_right-EndsOff p s) stays)
]

trim_right-StartsOff : (p : ℕ → Bool) (s : Text) → StartsOff p s → StartsOff p (trim_right p s)
unfolding trim_right
trim_right-StartsOff p [] h = tt
trim_right-StartsOff p (c ∷ s) h = rw (h, trim_right) h

-- A text that neither starts nor ends with white space.
pub record IsTrimmed (s : Text) : Type 0 where
  pub starts : StartsOff is_space s
  pub ends : EndsOff is_space s

pub trim_space-IsTrimmed : (s : Text) → IsTrimmed (trim_space s)
unfolding trim_space
trim_space-IsTrimmed s = record {
  starts = trim_right-StartsOff is_space (trim_left is_space s) (trim_left-StartsOff is_space s);
  ends = trim_right-EndsOff is_space (trim_left is_space s);
}

pub trim_space_id : (s : Text) → IsTrimmed s → trim_space s ≡ s
unfolding trim_space
trim_space_id s h =
    ap (trim_right is_space) (trim_left_id is_space s h.starts) ∙ trim_right_id is_space s h.ends

pub trim_space_idem : (s : Text) → trim_space (trim_space s) ≡ trim_space s
trim_space_idem s = trim_space_id _ (trim_space-IsTrimmed s)

-- A text ends with what is appended to it.
pub EndsOff-append : (p : ℕ → Bool) (s : Text) (c : ℕ) → p c ≡ false → EndsOff p (s ++ c ∷ [])
EndsOff-append p [] c h = h
EndsOff-append p (x ∷ []) c h = h
EndsOff-append p (x ∷ y ∷ s) c h = EndsOff-append p (y ∷ s) c h
