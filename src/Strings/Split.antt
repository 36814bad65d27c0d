-- ===== src/Strings/Split.antt =====
-- Laws of `strings.Split`, `strings.SplitN` and `strings.Join`.
use go_rflink.Prelude.{
  ℕ, ◌≡◌, refl, sym, ap, ◌∙◌, inl, inr, true, false, not, some, List, [], ◌∷◌, ◌++◌, ◌==◌, arith,
  Bool-cases, all, All,
}
use go_rflink.Prelude.Text.{Text}
use go_rflink.Strings.{split, cut, join, push_head}

-- The text does not hold the separator.
abbrev pub Lacks : ℕ → Text → Type 0
Lacks sep [] = Unit
Lacks sep (c ∷ s) = ((c == sep) ≡ false) × Lacks sep s

-- A text without the separator, by a test.
pub all-Lacks : (sep : ℕ) (s : Text) → all (λ c. not (c == sep)) s ≡ true → Lacks sep s
all-Lacks sep [] h = tt
all-Lacks sep (c ∷ s) h = (ground arith, all-Lacks sep s (ground arith))

-- A text splits into its part up to the first separator, and the parts of the rest.
pub split-append : (sep : ℕ) (a s : Text) → Lacks sep a → split sep (a ++ sep ∷ s) ≡ a ∷ split sep s
unfolding split
split-append sep [] s h = ground arith
split-append sep (c ∷ a) s h = ground (arith, split-append sep a s h.1)

pub split_single : (sep : ℕ) (a : Text) → Lacks sep a → split sep a ≡ a ∷ []
unfolding split
split_single sep [] h = refl
split_single sep (c ∷ a) h = ground (arith, split_single sep a h.1)

pub cut-append : (sep : ℕ) (a s : Text) → Lacks sep a → cut sep (a ++ sep ∷ s) ≡ some (a, s)
unfolding cut
cut-append sep [] s h = ground arith
cut-append sep (c ∷ a) s h = ground (arith, cut-append sep a s h.1)

-- Splitting the parts joined gives the parts.
pub split-join :
    (sep : ℕ) (w : Text) (ws : List Text)
    → All (Lacks sep) (w ∷ ws)
    → split sep (join sep (w ∷ ws)) ≡ w ∷ ws
unfolding join
split-join sep w [] h = split_single sep w h.0
split-join sep w (v ∷ ws) h = split-append sep w _ h.0 ∙ ap (◌∷◌ w) (split-join sep v ws h.1)

push_head-Lacks :
    (sep c : ℕ) (ws : List Text)
    → (c == sep) ≡ false
    → All (Lacks sep) ws
    → All (Lacks sep) (push_head c ws)
push_head-Lacks sep c [] h a = ((h, tt), tt)
push_head-Lacks sep c (w ∷ ws) h a = ((h, a.0), a.1)

-- No part holds the separator.
pub split-Lacks : (sep : ℕ) (s : Text) → All (Lacks sep) (split sep s)
unfolding split
split-Lacks sep [] = (tt, tt)
split-Lacks sep (c ∷ s) = elim (Bool-cases (c == sep)) [
  | inl hit ↦ rw (hit, split) (tt, split-Lacks sep s)
  | inr miss ↦ rw (miss, split) (push_head-Lacks sep c _ miss (split-Lacks sep s))
]

join-push_head :
    (sep c : ℕ) (w : Text) (ws : List Text)
    → join sep (push_head c (w ∷ ws)) ≡ c ∷ join sep (w ∷ ws)
unfolding join
join-push_head sep c w [] = refl
join-push_head sep c w (v ∷ ws) = refl

join-nil_cons :
    (sep c : ℕ) (w : Text) (ws : List Text)
    → (c == sep) ≡ true
    → join sep ([] ∷ w ∷ ws) ≡ c ∷ join sep (w ∷ ws)
unfolding join
join-nil_cons sep c w ws h = ap (λ x. x ∷ join sep (w ∷ ws)) (ground arith)

-- There is always a first part.
pub split-cases : (sep : ℕ) (s : Text) → (w : Text) × (ws : List Text) × (split sep s ≡ w ∷ ws)
unfolding split
split-cases sep [] = ([], [], refl)
split-cases sep (c ∷ s) =
    let (w, ws, e) = split-cases sep s in
    elim (Bool-cases (c == sep)) [
      | inl hit ↦ ([], w ∷ ws, rw (hit, split) (ap (◌∷◌ []) e))
      | inr miss ↦ (c ∷ w, ws, rw (miss, split) (ap (push_head c) e))
    ]

-- Joining the parts gives the text.
pub join-split : (sep : ℕ) (s : Text) → join sep (split sep s) ≡ s
unfolding split
join-split sep [] = unfold join in refl
join-split sep (c ∷ s) =
    let (w, ws, e) = split-cases sep s in
    let ih = join-split sep s in
    elim (Bool-cases (c == sep)) [
      | inl hit ↦
          rw (hit, split)
            (rw e (join-nil_cons sep c w ws hit ∙ ap (◌∷◌ c) (ap (join sep) (sym e) ∙ ih)))
      | inr miss ↦
          rw (miss, split)
            (rw e (join-push_head sep c w ws ∙ ap (◌∷◌ c) (ap (join sep) (sym e) ∙ ih)))
    ]
