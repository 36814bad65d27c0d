-- ===== src/Session/History.antt =====
-- How long a session of rflink/session.go lives when other calls come after its creation.
use go_rflink.Prelude.{
  ℕ, ◌+◌, ◌≤◌, ◌<◌, ◌≡◌, ◌∙◌, zero, suc, refl, false, true, none, some, List, [], ◌∷◌, leb,
  if◌then◌else◌, length, arith,
}
use go_rflink.Prelude.Text.{Text, text_eq, text_eq_iff, is_empty}
use go_rflink.Prelude.Maps.{lookup, lookup-insert}
use go_rflink.Session.{Session, Store, entry, session_ttl, max_sessions, evict, create, get}
use go_rflink.Session.Invariant.{
  IsWellFormed, Call, creates, gets, revokes, revokes_others, reaps, step, IsCall, lookup-reap,
  lookup-revoke_all_except, step-IsWellFormed,
}
use go_rflink.Session.Laws.{create_lem, lookup-get, lookup-revoke}

-- The calls of a history, each at its time.
unfoldable pub steps : List (ℕ × Call) → Store → Store
unfolding step
steps [] s = s
steps ((now, c) ∷ es) s = steps es (step now c s)

-- The call does not end the session of `id`: it does not revoke it, and a session that it creates
-- has another id and finds room.
abbrev pub Spares : Text → Call → Store → Type 0
Spares id (creates j ip) s =
    (is_empty j ≡ false) × (text_eq j id ≡ false) × (length s < max_sessions)
Spares id (gets j) s = Unit
Spares id (revokes j) s = text_eq j id ≡ false
Spares id (revokes_others j) s = text_eq j id ≡ true
Spares id reaps s = Unit

-- All calls of a history do, and none comes after `until`.
abbrev pub AllSpare : Text → ℕ → List (ℕ × Call) → Store → Type 0
AllSpare id until [] s = Unit
AllSpare id until ((now, c) ∷ es) s =
    (now ≤ until) × Spares id c s × AllSpare id until es (step now c s)

Spares-IsCall : (id : Text) (c : Call) (s : Store) → Spares id c s → IsCall c
Spares-IsCall id (creates j ip) s h = h.0
Spares-IsCall id (gets j) s h = tt
Spares-IsCall id (revokes j) s h = tt
Spares-IsCall id (revokes_others j) s h = tt
Spares-IsCall id reaps s h = tt

evict_room : (fuel : ℕ) (s : Store) → length s < max_sessions → evict fuel s ≡ s
unfolding evict
evict_room zero s h = refl
evict_room (suc fuel) s h = ground arith

lookup-step :
    (id : Text) (now : ℕ) (c : Call) (s : Store) (x : Session)
    → is_empty id ≡ false
    → IsWellFormed s
    → Spares id c s
    → now ≤ x.expires_at
    → lookup id s ≡ some x
    → lookup id (step now c s) ≡ some x
unfolding step create get
lookup-step id now (creates j ip) s x full w (_, other, room) live h =
    rw (evict_room (length s) s room) (lookup-insert j id (entry j ip now) s ∙ rw other h)
lookup-step id now (gets j) s x full w sp live h =
    ground (arith, lookup-get j id now s w, text_eq_iff j id)
lookup-step id now (revokes j) s x full w sp live h = ground (arith, (lookup-revoke j id s).1)
lookup-step id now (revokes_others j) s x full w sp live h =
    ground (arith, lookup-revoke_all_except j id s)
lookup-step id now reaps s x full w sp live h = ground (arith, lookup-reap now id s w.unique)

lookup-steps :
    (id : Text) (es : List (ℕ × Call)) (s : Store) (x : Session)
    → is_empty id ≡ false
    → IsWellFormed s
    → AllSpare id x.expires_at es s
    → lookup id s ≡ some x
    → lookup id (steps es s) ≡ some x
unfolding steps
lookup-steps id [] s x full w sp h = h
lookup-steps id ((now, c) ∷ es) s x full w (live, spared, rest) h =
    lookup-steps id es (step now c s) x full
      (step-IsWellFormed now c s (Spares-IsCall id c s spared) w) rest
      (lookup-step id now c s x full w spared live h)

-- In a well-formed store a session is made under a non-empty id. After any history of calls that
-- come no later than 72 hours after its creation, do not revoke it, and create further sessions
-- only under other non-empty ids and with fewer than 16 sessions in the store: `Get` returns it up
-- to 72 hours after its creation, and later it does not.
pub get-steps :
    (id ip : Text) (made now : ℕ) (es : List (ℕ × Call)) (s : Store)
    → is_empty id ≡ false
    → IsWellFormed s
    → AllSpare id (made + session_ttl) es (step made (creates id ip) s)
    → (get id now (steps es (step made (creates id ip) s))).0
      ≡ (if leb now (made + session_ttl) then some (entry id ip made) else none)
unfolding get step
get-steps id ip made now es s full w sp =
    let s' = step made (creates id ip) s in
    let kept =
      lookup-steps id es s' (entry id ip made) full
        (step-IsWellFormed made (creates id ip) s full w) sp (create_lem id ip id made s).1 in
    ground arith
