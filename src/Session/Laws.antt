-- ===== src/Session/Laws.antt =====
-- What the methods of the session store in rflink/session.go promise.
use go_rflink.Prelude.{
  ℕ, ◌+◌, ◌≤◌, ◌<◌, ◌≡◌, refl, ◌↔◌, ◌⊎◌, inl, inr, sym, ◌∙◌, true, false, none, some, leb,
  if◌then◌else◌, length, arith, Bool-cases, Option-cases,
}
use go_rflink.Prelude.Text.{Text, text_eq, text_eq_iff, text_eq_refl, is_empty}
use go_rflink.Prelude.Maps.{lookup, UniqueKeys, lookup-insert, lookup-delete, All-lookup}
use go_rflink.Session.{
  Session, Store, entry, session_ttl, max_sessions, reap, evict, create, get, revoke,
  revoke_all_except,
}
use go_rflink.Session.Evict.{evict_room, evict_oldest, evict-lookup}
use go_rflink.Session.Invariant.{
  IsEntry, IsWellFormed, lookup-reap, lookup-revoke_all_except, revoke_all_except-count,
}

-- `Create` returns the session that it stores under the new id, with an expiry 72 hours on; any
-- other id keeps its session or is evicted.
pub create_lem :
    (id ip j : Text) (now : ℕ) (s : Store)
    → ((create (some id) ip now s).0 ≡ some (entry id ip now))
      × (lookup id (create (some id) ip now s).1 ≡ some (entry id ip now))
      × ((text_eq id j ≡ true)
          ⊎ (lookup j (create (some id) ip now s).1 ≡ lookup j s)
          ⊎ (lookup j (create (some id) ip now s).1 ≡ none))
unfolding create
create_lem id ip j now s =
    let kept = evict (length s) s in
    let stored = λ (k : Text). lookup-insert id k (entry id ip now) kept in
    (
      refl,
      rw (stored id, text_eq_refl id),
      (elim (Bool-cases (text_eq id j)) [
        | inl same ↦ inl same
        | inr other ↦ inr (elim (Option-cases (lookup j kept)) [
          | inl gone ↦ inr (stored j ∙ rw (other, gone))
          | inr (x, found) ↦
              inl (stored j ∙ rw (other, found) (sym (evict-lookup (length s) s j x found)))
        ])
      ]),
    )

-- With fewer than 16 sessions in the store, `Create` leaves what is stored under every other id.
pub create_room :
    (id ip j : Text) (now : ℕ) (s : Store)
    → text_eq id j ≡ false
    → length s < max_sessions
    → lookup j (create (some id) ip now s).1 ≡ lookup j s
unfolding create
create_room id ip j now s other room =
    rw (evict_room (length s) s room) (rw lookup-insert (rw other))

-- In a store with unique ids: when `Create` evicts the session of one old id and keeps that of
-- another, the evicted session was created no later than the kept one.
pub create_oldest :
    (id ip j k : Text) (now : ℕ) (s : Store) (a b : Session)
    → UniqueKeys s
    → text_eq id j ≡ false
    → text_eq id k ≡ false
    → lookup j s ≡ some a
    → lookup j (create (some id) ip now s).1 ≡ none
    → lookup k (create (some id) ip now s).1 ≡ some b
    → a.created_at ≤ b.created_at
unfolding create
create_oldest id ip j k now s a b u hj hk had gone stays =
    let kept = evict (length s) s in
    evict_oldest (length s) s j k a b u had
      (ground (arith, lookup-insert id j (entry id ip now) kept))
      (ground (arith, lookup-insert id k (entry id ip now) kept))

lookup_empty : (id : Text) (s : Store) → is_empty id ≡ true → IsWellFormed s → lookup id s ≡ none
lookup_empty id s h w = elim (Option-cases (lookup id s)) [
  | inl gone ↦ gone
  | inr (x, found) ↦ absurd (cc (h, (All-lookup IsEntry id x s w.entries found).0))
]

-- In a well-formed store `Get` returns a session exactly when it is stored under the id and the
-- clock is not past its expiry.
pub get_iff :
    (id : Text) (now : ℕ) (s : Store) (x : Session)
    → IsWellFormed s
    → ((get id now s).0 ≡ some x) ↔ ((lookup id s ≡ some x) × (now ≤ x.expires_at))
unfolding get
get_iff id now s x w = ground (arith, lookup_empty id s)

-- `Get` changes nothing but that it drops the session of its id when that has expired.
pub lookup-get :
    (id j : Text) (now : ℕ) (s : Store)
    → IsWellFormed s
    → lookup j (get id now s).1 ≡ (if text_eq id j then (get id now s).0 else lookup j s)
unfolding get
lookup-get id j now s w = ground (arith, lookup_empty id s, lookup-delete id j s, text_eq_iff id j)

-- In a well-formed store, reaping is not seen by `Get`: at the same time it returns what it
-- returned before.
pub get-reap :
    (id : Text) (now : ℕ) (s : Store)
    → IsWellFormed s
    → (get id now (reap now s)).0 ≡ (get id now s).0
unfolding get
get-reap id now s w = ground (arith, lookup-reap now id s w.unique)

-- `Revoke` reports whether the id had a session, and removes that session and no other.
pub lookup-revoke :
    (id j : Text) (s : Store)
    → ((revoke id s).0 ≡ (elim (lookup id s) [ none ↦ false | some _ ↦ true ]))
      × (lookup j (revoke id s).1 ≡ (if text_eq id j then none else lookup j s))
unfolding revoke
lookup-revoke id j s = ground (arith, lookup-delete id j s, text_eq_iff id j)

-- `RevokeAllExcept` keeps the session of its id alone, and the number it returns is the number of
-- entries that it removed.
pub revoke_all_except_lem :
    (id j : Text) (s : Store)
    → (lookup j (revoke_all_except id s).1 ≡ (if text_eq id j then lookup j s else none))
      × ((revoke_all_except id s).0 + length (revoke_all_except id s).1 ≡ length s)
revoke_all_except_lem id j s = (lookup-revoke_all_except id j s, revoke_all_except-count id s)

-- On the store that `Create` under a non-empty id has left, with no call in between, `Get` returns
-- the session up to 72 hours later, and from then on it does not.
pub get-create :
    (id ip : Text) (made now : ℕ) (s : Store)
    → is_empty id ≡ false
    → (get id now (create (some id) ip made s).1).0
      ≡ (if leb now (made + session_ttl) then some (entry id ip made) else none)
unfolding get
get-create id ip made now s h = ground (arith, (create_lem id ip id made s).1)
