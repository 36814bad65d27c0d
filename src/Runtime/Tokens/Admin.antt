-- ===== src/Runtime/Tokens/Admin.antt =====
-- What deleting an API token does to the tokens in effect.
use go_rflink.Prelude.{
  ℕ, ◌≡◌, refl, sym, ap, ◌∙◌, ◌⊎◌, inl, inr, false, if◌then◌else◌, ◌||◌, none, some, List, [], ◌∷◌,
  All, Bool-cases, Option-cases, arith, subst,
}
use go_rflink.Prelude.Text.{Text, is_empty}
use go_rflink.Strings.{Unicode, trim_space, equal_fold}
use go_rflink.Tokens.{External, ApiToken, parse_api_auth_tokens}
use go_rflink.Webhooks.{RuntimeWebhook}
use go_rflink.Runtime.{
  RuntimeFile, RuntimeApiToken, Environment, Live, RuntimeSource, runtime, sources_of,
  api_tokens_from_runtime, apply,
}
use go_rflink.Runtime.Disk.{Faults}
use go_rflink.Runtime.Manager.{Manager, merged, save_overlay}
use go_rflink.Runtime.Laws.{save_overlay_saved}
use go_rflink.Runtime.Tokens.{
  deleted, token_patch, without, overwritten, token_list, delete_named, delete_api_token,
}
use go_rflink.Http.{Access}
use go_rflink.Http.Auth.{effective_read_only}

-- The name that a request asks for.
abbrev pub asked : Text → Text → Text
asked query_name body_name =
    if is_empty (trim_space query_name) then trim_space body_name else trim_space query_name

module _ ⦃u : Unicode⦄ (x : External) where
  without-All :
      (name : Text) (ts : List RuntimeApiToken)
      → All (λ (t : RuntimeApiToken). equal_fold t.name name ≡ false) (without name ts)
  unfolding without
  without-All name [] = tt
  without-All name (t ∷ ts) = elim (Bool-cases (equal_fold t.name name)) [
    | inl hit ↦ rw (hit, without) (without-All name ts)
    | inr other ↦ rw (other, without) (other, without-All name ts)
  ]

  from_runtime-All :
      (now : ℕ) (name : Text) (ts : List RuntimeApiToken)
      → All (λ (t : RuntimeApiToken). equal_fold t.name name ≡ false) ts
      → All (λ (t : ApiToken). equal_fold t.name name ≡ false) (api_tokens_from_runtime x now ts)
  unfolding api_tokens_from_runtime
  from_runtime-All now name [] h = tt
  from_runtime-All now name (t ∷ ts) h =
      elim (Bool-cases (is_empty t.token_hash || is_empty t.name)) [
        | inl skip ↦ rw (skip, api_tokens_from_runtime) (from_runtime-All now name ts h.1)
        | inr keep_ ↦ rw (keep_, api_tokens_from_runtime) (h.0, from_runtime-All now name ts h.1)
      ]

  module _ (hooks_of : Text → List RuntimeWebhook) (e : Environment) where
    apply-some :
        (now : ℕ) (f : RuntimeFile) (o : Live) (ts : List RuntimeApiToken)
        → f.api_tokens ≡ some ts
        → (apply x hooks_of e now f o).api_tokens ≡ api_tokens_from_runtime x now ts
    unfolding apply
    apply-some now f o ts h = rw h refl

    -- A list that is given loses every token of the name.
    pub delete_named-All :
        (format : ℕ → Text) (faults : Faults) (now : ℕ) (name : Text) (ts : List RuntimeApiToken)
        (m : Manager)
        → (delete_named x hooks_of e format faults now name (some ts) m).0 ≡ deleted
        → let m' = (delete_named x hooks_of e format faults now name (some ts) m).1 in
          All (λ (t : ApiToken). equal_fold t.name name ≡ false) m'.live.api_tokens
    unfolding delete_named
    delete_named-All format faults now name ts m h =
        let kept = without name ts in
        let m0 = overwritten x hooks_of e kept ts m in
        let p = token_patch (some kept) in
        let f = merged (format now) p m0.file in
        elim (Option-cases (save_overlay x hooks_of e faults (format now) now p m0).0) [
          | inl failed ↦ absurd (ground arith)
          | inr (keys, saved) ↦
              let (_, _, live, _, _) =
                save_overlay_saved x hooks_of e faults (format now) now p m0
                  (λ n. some-none keys (sym saved ∙ n)) in
              let has : f.api_tokens ≡ some kept = unfold merged in refl in
              let tokens =
                ap (λ (o : Live). o.api_tokens) live ∙ apply-some now f m0.live kept has in
              rw (saved, delete_named)
                (subst (All (λ (t : ApiToken). equal_fold t.name name ≡ false)) (sym tokens)
                  (from_runtime-All now name kept (without-All name ts)))
        ]
      where
        some-none : (k : List Text) → ¬ (some k ≡ none)
        some-none k e = ground arith

    apply-none :
        (now : ℕ) (f : RuntimeFile) (o : Live)
        → f.api_tokens ≡ none
        → (apply x hooks_of e now f o).api_tokens
          ≡ parse_api_auth_tokens x e.api_token_pepper now e.api_auth_tokens
    unfolding apply
    apply-none now f o h = rw h refl

    -- Without a list the save changes no list, and the settings are applied again.
    delete_named-none :
        (format : ℕ → Text) (faults : Faults) (now : ℕ) (name : Text) (m : Manager)
        → m.file.api_tokens ≡ none
        → (delete_named x hooks_of e format faults now name none m).0 ≡ deleted
        → (delete_named x hooks_of e format faults now name none m).1.live.api_tokens
          ≡ parse_api_auth_tokens x e.api_token_pepper now e.api_auth_tokens
    unfolding delete_named merged
    delete_named-none format faults now name m empty h =
        let p = token_patch none in
        elim (Option-cases (save_overlay x hooks_of e faults (format now) now p m).0) [
          | inl failed ↦ absurd (ground arith)
          | inr (keys, saved) ↦
              let (_, _, live, _, _) =
                save_overlay_saved x hooks_of e faults (format now) now p m
                  (λ n. some-none keys (sym saved ∙ n)) in
              rw (saved, delete_named)
                (ap (λ (o : Live). o.api_tokens) live
                  ∙ apply-none now (merged (format now) p m.file) m.live empty)
        ]
      where
        some-none : (k : List Text) → ¬ (some k ≡ none)
        some-none k e = ground arith

    -- The list is nil only when the file has none.
    token_list-none :
        (format : ℕ → Text) (m : Manager)
        → m.sources ≡ sources_of m.file
        → token_list format m ≡ none
        → m.file.api_tokens ≡ none
    unfolding token_list
    token_list-none format m coherent h = elim (Option-cases m.file.api_tokens) [
      | inl gone ↦ gone
      | inr (ts, found) ↦
          let source : m.sources.api_tokens ≡ runtime =
            ap (λ (s : RuntimeSource). s.api_tokens) coherent ∙ rw found refl in
          absurd (some-none ts (sym found ∙ rw source at h))
    ]
      where
        some-none : (ts : List RuntimeApiToken) → ¬ (some ts ≡ none)
        some-none ts e = ground arith

    -- With the source of the tokens being that of the file in memory: when `deleteAPIToken`
    -- answers that the token is deleted, the server is not read-only, and no token in effect has
    -- its name, in upper or lower case; or there was no list to start from, and the tokens in
    -- effect are those of the environment, whatever their names.
    pub delete_api_token_deleted :
        (format : ℕ → Text) (c : Access) (faults : Faults) (now : ℕ) (query_name body_name : Text)
        (m : Manager)
        → m.sources ≡ sources_of m.file
        → (delete_api_token x hooks_of e format c faults now query_name body_name m).0 ≡ deleted
        → let m' = (delete_api_token x hooks_of e format c faults now query_name body_name m).1 in
          (effective_read_only c ≡ false)
          × (All
                (λ (t : ApiToken). equal_fold t.name (asked query_name body_name) ≡ false)
                m'.live.api_tokens
              ⊎ ((token_list format m ≡ none)
                  × (m'.live.api_tokens
                      ≡ parse_api_auth_tokens x e.api_token_pepper now e.api_auth_tokens)))
    unfolding delete_api_token
    delete_api_token_deleted format c faults now query_name body_name m coherent h =
        let name = asked query_name body_name in
        elim (Bool-cases (effective_read_only c)) [
          | inl locked ↦ absurd (ground arith)
          | inr open_ ↦ elim (Bool-cases (is_empty name)) [
            | inl blank ↦ absurd (ground arith)
            | inr full ↦ elim (Option-cases (token_list format m)) [
              | inl nothing ↦
                  let empty = token_list-none format m coherent nothing in
                  (
                    open_,
                    inr (
                      nothing,
                      rw (open_, full, nothing, delete_api_token)
                          (delete_named-none format faults now name m empty
                            (rw (open_, full, nothing, delete_api_token) at h)),
                    ),
                  )
              | inr (ts, found) ↦ (
                open_,
                inl (
                    rw (open_, full, found, delete_api_token)
                      (delete_named-All format faults now name ts m
                        (rw (open_, full, found, delete_api_token) at h))),
              )
            ]
          ]
        ]
