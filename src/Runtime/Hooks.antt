-- ===== src/Runtime/Hooks.antt =====
-- The administration of web hooks: `createWebhook`, `updateWebhook`, `deleteWebhook` and what they
-- share in rflink/http_server.go, over the runtime manager. A body enters as it decodes.
use go_rflink.Prelude.{
  ℕ, ◌≤◌, ◌≡◌, refl, sym, ap, ◌∙◌, subst, inl, inr, Bool, false, not, ◌&&◌, ◌||◌, Option, none,
  some, List, [], ◌∷◌, ◌++◌, ltb, leb, if◌then◌else◌, length, keep, Bool-cases, Option-cases, arith,
}
use go_rflink.Prelude.Text.{Text, text_eq, is_empty}
use go_rflink.Strings.{Unicode, trim_space, to_lower}
use go_rflink.Tokens.{External}
use go_rflink.Webhooks.{RuntimeWebhook, max_webhooks, validate_webhook_config}
use go_rflink.Webhooks.Address.{Resolver}
use go_rflink.Http.{Access}
use go_rflink.Http.Auth.{effective_read_only}
use go_rflink.Runtime.{
  RuntimeFile, Environment, Live, env, runtime, empty_file, or_else, apply, sources_of,
}
use go_rflink.Runtime.Disk.{Faults}
use go_rflink.Runtime.Manager.{Manager, merged, save_overlay}
use go_rflink.Runtime.Laws.{save_overlay_saved}

pub data HookResponse : Type 0 where
  read_only invalid max_reached name_already_exists id_required not_found save_failed : HookResponse
  stored : RuntimeWebhook → List Text → HookResponse
  removed : HookResponse

-- `loadWebhookList`
unfoldable pub load_webhook_list : Manager → List RuntimeWebhook
load_webhook_list m = elim m.sources.webhooks [
  | runtime ↦ or_else [] m.file.webhooks
  | env ↦ m.live.webhooks
]

abbrev pub hook_patch : List RuntimeWebhook → RuntimeFile
hook_patch list = record empty_file { webhooks = some list }

-- The loop of `updateWebhook`: the first hook of the id is replaced. With it, the list.
unfoldable pub replace_hook :
    RuntimeWebhook → List RuntimeWebhook → Option (RuntimeWebhook × List RuntimeWebhook)
replace_hook req [] = none
replace_hook req (h ∷ hs) =
    let rest = replace_hook req hs in
    let hook : RuntimeWebhook = record req { created_at = h.created_at; headers = kept } in
    if text_eq h.id req.id
    then some (hook, hook ∷ hs)
    else (elim rest [ none ↦ none | some (hook', hs') ↦ some (hook', h ∷ hs') ])
  where
    kept : List (Text × Text)
    kept = elim req.headers [ [] ↦ h.headers | a ∷ as_ ↦ a ∷ as_ ]

unfoldable pub without_hook : Text → List RuntimeWebhook → List RuntimeWebhook
without_hook id = keep (λ h. not (text_eq h.id id))

load_webhook_list_owned :
    (m : Manager) (f : RuntimeFile) (list : List RuntimeWebhook)
    → m.file ≡ f
    → m.sources ≡ sources_of f
    → f.webhooks ≡ some list
    → load_webhook_list m ≡ list
unfolding load_webhook_list
load_webhook_list_owned m f list a b h = rw b (rw h (rw a (rw h refl)))

module _ ⦃u : Unicode⦄ where
  -- A hook of another id has the name.
  unfoldable pub other_has_name : Text → Text → List RuntimeWebhook → Bool
  other_has_name id name [] = false
  other_has_name id name (h ∷ hs) =
      (not (text_eq h.id id) && text_eq (to_lower h.name) (to_lower name))
      || other_has_name id name hs

  unfoldable pub has_name : Text → List RuntimeWebhook → Bool
  has_name name [] = false
  has_name name (h ∷ hs) = text_eq (to_lower h.name) (to_lower name) || has_name name hs

-- The hook is the last of the list that is saved and in effect, and its name is new.
abbrev pub IsAdded : ⦃u : Unicode⦄ → RuntimeWebhook → Manager → Manager → Type 0
IsAdded hook m m' =
    let list = load_webhook_list m in
    (load_webhook_list m' ≡ list ++ hook ∷ [])
    × (m'.live.webhooks ≡ list ++ hook ∷ [])
    × (length (list ++ hook ∷ []) ≤ max_webhooks)
    × (has_name hook.name list ≡ false)

abbrev IsOther : HookResponse → Type 0
IsOther (stored hook keys) = ⊥
IsOther _ = Unit

IsOther-stored :
    (r : HookResponse) (hook : RuntimeWebhook) (keys : List Text)
    → r ≡ stored hook keys
    → ¬ IsOther r
IsOther-stored r hook keys e = subst (λ s. ¬ IsOther s) (sym e) (λ b. b)

stored_inj : (a b : RuntimeWebhook) (k l : List Text) → stored a k ≡ stored b l → a ≡ b
stored_inj a b k l e = ap first_of e
  where
    first_of : HookResponse → RuntimeWebhook
    first_of (stored h _) = h
    first_of _ = a

module _ ⦃u : Unicode⦄ {Ip : Type 0} (net : Resolver Ip) (x : External)
    (hooks_of : Text → List RuntimeWebhook) (e : Environment) where
  -- `persistWebhooks`
  unfoldable pub persist_webhooks :
      Faults → Text → ℕ → List RuntimeWebhook → Manager → Option (List Text) × Manager
  unfolding save_overlay
  persist_webhooks faults stamp now list m =
      if ltb max_webhooks (length list)
      then (none, m)
      else save_overlay x hooks_of e faults stamp now (hook_patch list) m

  -- `createWebhook` on a body that decodes; `new_id` is what `newWebhookID` gives.
  unfoldable pub create_webhook :
      Access → Faults → Text → ℕ → Text → RuntimeWebhook → Manager → HookResponse × Manager
  unfolding persist_webhooks load_webhook_list has_name validate_webhook_config
  create_webhook c faults stamp now new_id req m =
      if effective_read_only c then (read_only, m) else (elim (validate_webhook_config net req) [
        | none ↦ (invalid, m)
        | some valid ↦
            let hook : RuntimeWebhook = record valid { id = new_id; created_at = stamp } in
            let list = load_webhook_list m in
            let (first, m') = persist_webhooks faults stamp now (list ++ hook ∷ []) m in
            if leb max_webhooks (length list)
            then (max_reached, m)
            else if has_name hook.name list
            then (name_already_exists, m)
            else (elim first [ none ↦ (save_failed, m') | some keys ↦ (stored hook keys, m') ])
      ])

  -- `updateWebhook` on a body that decodes.
  unfoldable pub update_webhook :
      Access → Faults → Text → ℕ → RuntimeWebhook → Manager → HookResponse × Manager
  unfolding persist_webhooks load_webhook_list other_has_name replace_hook validate_webhook_config
  update_webhook c faults stamp now req m =
      if effective_read_only c
      then (read_only, m)
      else if is_empty (trim_space req.id)
      then (id_required, m)
      else (elim (validate_webhook_config net req) [
        | none ↦ (invalid, m)
        | some valid ↦
            let list = load_webhook_list m in
            if other_has_name valid.id valid.name list
            then (name_already_exists, m)
            else (elim (replace_hook valid list) [
              | none ↦ (not_found, m)
              | some (hook, list') ↦
                  let (first, m') = persist_webhooks faults stamp now list' m in
                  elim first [ none ↦ (save_failed, m') | some keys ↦ (stored hook keys, m') ]
            ])
      ])

  -- `deleteWebhook`, by the id in the query or else in the body.
  unfoldable pub delete_webhook :
      Access → Faults → Text → ℕ → Text → Text → Manager → HookResponse × Manager
  unfolding persist_webhooks load_webhook_list without_hook
  delete_webhook c faults stamp now query_id body_id m =
      let id = if is_empty (trim_space query_id) then trim_space body_id else trim_space query_id in
      let list = load_webhook_list m in
      let (first, m') = persist_webhooks faults stamp now (without_hook id list) m in
      if effective_read_only c
      then (read_only, m)
      else if is_empty id
      then (id_required, m)
      else if leb (length list) (length (without_hook id list))
      then (not_found, m)
      else (elim first [ none ↦ (save_failed, m') | some keys ↦ (removed, m') ])

  -- What a list of hooks that was saved comes to.
  persist_webhooks-load_webhook_list :
      (faults : Faults) (stamp : Text) (now : ℕ) (list : List RuntimeWebhook) (m : Manager)
      (keys : List Text)
      → (persist_webhooks faults stamp now list m).0 ≡ some keys
      → let m' = (persist_webhooks faults stamp now list m).1 in
        (load_webhook_list m' ≡ list) × (m'.live.webhooks ≡ list) × (length list ≤ max_webhooks)
  unfolding persist_webhooks
  persist_webhooks-load_webhook_list faults stamp now list m keys h =
      elim (Bool-cases (ltb max_webhooks (length list))) [
        | inl many ↦ absurd (ground arith)
        | inr few ↦
            let p = hook_patch list in
            let saved : (save_overlay x hooks_of e faults stamp now p m).0 ≡ some keys =
              rw few at h in
            let (file, sources, live, _, _) =
              save_overlay_saved x hooks_of e faults stamp now p m
                (λ n. some-none keys (sym saved ∙ n)) in
            let m' = (save_overlay x hooks_of e faults stamp now p m).1 in
            rw (few, persist_webhooks)
              (
                load_webhook_list_owned m' (merged stamp p m.file) list file sources
                    (unfold merged in refl),
                ap (λ (o : Live). o.webhooks) live ∙ unfold apply in refl,
                ground arith,
              )
      ]
    where
      some-none : (k : List Text) → ¬ (some k ≡ none)
      some-none k e = ground arith

  -- When `createWebhook` answers with a stored hook, the server is not read-only, the list kept
  -- and the list in effect are the old list with the hook at its end, the list has at most 8
  -- hooks, and no old hook has its name in any case.
  pub create_webhook-load_webhook_list :
      (c : Access) (faults : Faults) (stamp : Text) (now : ℕ) (new_id : Text)
      (req hook : RuntimeWebhook) (m : Manager) (keys : List Text)
      → (create_webhook c faults stamp now new_id req m).0 ≡ stored hook keys
      → let m' = (create_webhook c faults stamp now new_id req m).1 in
        IsAdded hook m m' × (effective_read_only c ≡ false)
  unfolding create_webhook
  create_webhook-load_webhook_list c faults stamp now new_id req hook m keys h =
      elim (Bool-cases (effective_read_only c)) [
        | inl locked ↦ absurd (IsOther-stored _ hook keys (rw locked at h) tt)
        | inr open_ ↦ elim (Option-cases (validate_webhook_config net req)) [
          | inl bad ↦ absurd (IsOther-stored _ hook keys (rw (open_, bad) at h) tt)
          | inr (valid, ok) ↦
              let hook' : RuntimeWebhook = record valid { id = new_id; created_at = stamp } in
              let list = load_webhook_list m in
              elim (Bool-cases (leb max_webhooks (length list))) [
                | inl full ↦ absurd (IsOther-stored _ hook keys (rw (open_, ok, full) at h) tt)
                | inr room ↦ elim (Bool-cases (has_name hook'.name list)) [
                  | inl taken ↦
                      absurd (IsOther-stored _ hook keys (rw (open_, ok, room, taken) at h) tt)
                  | inr free ↦
                      elim (Option-cases
                        (persist_webhooks faults stamp now (list ++ hook' ∷ []) m).0) [
                          | inl failed ↦ absurd (
                              IsOther-stored _ hook keys (rw (open_, ok, room, free, failed) at h)
                                tt)
                          | inr (keys', saved) ↦
                              let same =
                                stored_inj hook' hook keys' keys
                                  (rw (open_, ok, room, free, saved) at h) in
                              let (loaded, live, few) =
                                persist_webhooks-load_webhook_list faults stamp now
                                  (list ++ hook' ∷ []) m keys' saved in
                              (
                                rw (open_, ok, room, free, saved, create_webhook)
                                    (subst
                                      (λ k.
                                        IsAdded k m
                                          (persist_webhooks faults stamp now (list ++ hook' ∷ [])
                                            m).1)
                                      same (loaded, live, few, free)),
                                open_,
                              )
                        ]
                ]
              ]
        ]
      ]
