-- ===== src/Tokens/Scopes.antt =====
-- What `parseScopeList` of rflink/runtime_config.go makes of a list of scopes.
use go_rflink.Prelude.{
  ◌≡◌, ◌⊎◌, refl, sym, ap, ◌∙◌, inl, inr, Bool, true, false, not, ◌&&◌, ◌||◌, List, [], ◌∷◌, ◌++◌,
  arith, Bool-cases,
}
use go_rflink.Prelude.Text.{Text, text_eq, text_eq_iff, is_empty}
use go_rflink.Strings.{Unicode, trim_left, trim_space, to_lower, split, replace_all}
use go_rflink.Options.{mem}
use go_rflink.Tokens.{or_default, default_api_token_scopes, collect_scopes, parse_scope_list}

abbrev pub Distinct : List Text → Type 0
Distinct [] = Unit
Distinct (x ∷ xs) = (mem x xs ≡ false) × Distinct xs

mem-append : (t x : Text) (xs : List Text) → mem t (xs ++ x ∷ []) ≡ (mem t xs || text_eq x t)
mem-append t x [] = ground arith
mem-append t x (y ∷ xs) = ground (arith, mem-append t x xs)

append-Distinct :
    (x : Text) (xs : List Text) → mem x xs ≡ false → Distinct xs → Distinct (xs ++ x ∷ [])
append-Distinct x [] h d = (refl, tt)
append-Distinct x (y ∷ xs) h d = (
  mem-append y x xs ∙ ground (arith, text_eq_iff x y, text_eq_iff y x),
  append-Distinct x xs (ground arith) d.1,
)

-- A scope that one of the pieces names.
module _ ⦃u : Unicode⦄ where
  abbrev pub names : List Text → Text → Bool
  names [] s = false
  names (p ∷ ps) s =
      (not (is_empty (to_lower (trim_space p))) && text_eq (to_lower (trim_space p)) s)
      || names ps s

  collect_scopes-Distinct : (ps out : List Text) → Distinct out → Distinct (collect_scopes ps out)
  unfolding collect_scopes
  collect_scopes-Distinct [] out d = d
  collect_scopes-Distinct (p ∷ ps) out d =
      elim (Bool-cases (is_empty (to_lower (trim_space p)) || mem (to_lower (trim_space p)) out)) [
        | inl skip ↦ rw (skip, collect_scopes) (collect_scopes-Distinct ps out d)
        | inr new ↦
            rw (new, collect_scopes)
              (collect_scopes-Distinct ps _ (append-Distinct _ out (ground arith) d))
      ]

  mem-collect_scopes :
      (s : Text) (ps out : List Text) → mem s (collect_scopes ps out) ≡ (mem s out || names ps s)
  unfolding collect_scopes
  mem-collect_scopes s [] out = ground arith
  mem-collect_scopes s (p ∷ ps) out =
      let p' = to_lower (trim_space p) in
      elim (Bool-cases (is_empty p' || mem p' out)) [
        | inl skip ↦
            rw (skip, collect_scopes)
              (mem-collect_scopes s ps out ∙ ground (arith, text_eq_iff p' s))
        | inr new ↦
            rw (new, collect_scopes)
              (mem-collect_scopes s ps (out ++ p' ∷ []) ∙ ground (arith, mem-append s p' out))
      ]

  -- The pieces of a list of scopes, which a plus separates as well as a comma.
  abbrev pub scope_pieces : Text → List Text
  scope_pieces raw = split b',' (replace_all b'+' b',' (trim_space raw))

  or_default-cases :
      (s : Text) (xs : List Text)
      → ((mem s xs ≡ false) × (or_default xs ≡ default_api_token_scopes)) ⊎ (or_default xs ≡ xs)
  or_default-cases s [] = inl (refl, refl)
  or_default-cases s (x ∷ xs) = inr refl

  or_default-Distinct : (xs : List Text) → Distinct xs → Distinct (or_default xs)
  or_default-Distinct [] d = (refl, (refl, tt))
  or_default-Distinct (x ∷ xs) d = d

  -- The scopes of a list are distinct. Either none of its pieces names the scope `s` and the list
  -- is the default one, or a scope is in the list exactly when one of its pieces names it.
  pub parse_scope_list_lem :
      (raw s : Text)
      → Distinct (parse_scope_list raw)
        × (((names (scope_pieces raw) s ≡ false)
              × (parse_scope_list raw ≡ default_api_token_scopes))
            ⊎ (mem s (parse_scope_list raw) ≡ names (scope_pieces raw) s))
  unfolding parse_scope_list
  parse_scope_list_lem raw s = elim (Bool-cases (is_empty (trim_space raw))) [
    | inl blank ↦
        rw (blank, parse_scope_list)
          (
            (refl, (refl, tt)),
            inl (rw (nil (trim_space raw) blank) (unfold trim_space trim_left split in refl), refl),
          )
    | inr filled ↦
        let found = collect_scopes (scope_pieces raw) [] in
        let named = mem-collect_scopes s (scope_pieces raw) [] in
        rw (filled, parse_scope_list)
          (
            or_default-Distinct found (collect_scopes-Distinct (scope_pieces raw) [] tt),
            elim (or_default-cases s found) [
              | inl (none_found, e) ↦ inl (sym named ∙ none_found, e)
              | inr e ↦ inr (ap (mem s) e ∙ named)
            ],
          )
  ]
    where
      nil : (t : Text) → is_empty t ≡ true → t ≡ []
      nil [] h = refl
      nil (c ∷ t) h = cc
