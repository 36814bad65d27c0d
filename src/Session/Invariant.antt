-- ===== src/Session/Invariant.antt =====
-- The invariant that every method of the session store in rflink/session.go keeps.
use go_rflink.Prelude.{
  ℕ, ◌+◌, ◌≤◌, ◌≡◌, refl, inl, inr, false, none, some, [], ◌∷◌, ltb, if◌then◌else◌, length, arith,
  All, All-map, Bool-cases, Option-cases,
}
use go_rflink.Prelude.Text.{Text, text_eq, text_eq_iff, is_empty}
use go_rflink.Prelude.Maps.{
  lookup, delete, UniqueKeys, insert-UniqueKeys, delete-UniqueKeys, length-insert, length-delete-le,
  All-insert, All-delete,
}
use go_rflink.Session.{
  Session, Store, entry, session_ttl, max_sessions, reap, evict, create, get, revoke,
  revoke_all_except,
}
use go_rflink.Session.Evict.{HasId, evict-lt, evict-UniqueKeys, evict-All}

-- An entry stands under its own id, which is not empty, and lasts for `session_ttl`.
abbrev pub IsEntry : Text × Session → Type 0
IsEntry e =
    (is_empty e.0 ≡ false) × (e.1.id ≡ e.0) × (e.1.expires_at ≡ e.1.created_at + session_ttl)

pub record IsWellFormed (s : Store) : Type 0 where
  pub unique : UniqueKeys s
  pub entries : All IsEntry s
  pub bounded : length s ≤ max_sessions

-- The calls that the HTTP server and the reaper make.
pub data Call : Type 0 where
  creates : Text → Text → Call
  gets : Text → Call
  revokes : Text → Call
  revokes_others : Text → Call
  reaps : Call

unfoldable pub step : ℕ → Call → Store → Store
step now (creates id ip) s = (create (some id) ip now s).1
step now (gets id) s = (get id now s).1
step now (revokes id) s = (revoke id s).1
step now (revokes_others id) s = (revoke_all_except id s).1
step now reaps s = reap now s

-- The ids that `randomSessionID` makes are not empty.
abbrev pub IsCall : Call → Type 0
IsCall (creates id ip) = is_empty id ≡ false
IsCall _ = Unit

pub lookup-reap :
    (now : ℕ) (k : Text) (s : Store)
    → UniqueKeys s
    → lookup k (reap now s)
      ≡ (elim (lookup k s) [ none ↦ none | some x ↦ if ltb x.expires_at now then none else some x ])
unfolding reap
lookup-reap now k [] u = refl
lookup-reap now k ((j, w) ∷ m) u = ground (arith, lookup-reap now k m u.1, text_eq_iff j k)

pub lookup-revoke_all_except :
    (keep_id k : Text) (s : Store)
    → lookup k (revoke_all_except keep_id s).1 ≡ (if text_eq keep_id k then lookup k s else none)
unfolding revoke_all_except
lookup-revoke_all_except keep_id k [] = ground arith
lookup-revoke_all_except keep_id k ((j, w) ∷ m) = ground (
  arith,
  lookup-revoke_all_except keep_id k m,
  text_eq_iff j k,
  text_eq_iff j keep_id,
  text_eq_iff keep_id k,
)

pub revoke_all_except-count :
    (keep_id : Text) (s : Store)
    → (revoke_all_except keep_id s).0 + length (revoke_all_except keep_id s).1 ≡ length s
unfolding revoke_all_except
revoke_all_except-count keep_id [] = refl
revoke_all_except-count keep_id ((j, w) ∷ m) = ground (arith, revoke_all_except-count keep_id m)

create-IsWellFormed :
    (id ip : Text) (now : ℕ) (s : Store)
    → is_empty id ≡ false
    → IsWellFormed s
    → IsWellFormed (create (some id) ip now s).1
unfolding create
create-IsWellFormed id ip now s h w = record {
  unique = insert-UniqueKeys id _ kept (evict-UniqueKeys (length s) s w.unique);
  entries = All-insert IsEntry id _ kept (h, refl, refl) (evict-All IsEntry (length s) s w.entries);
  bounded = ground (
    arith,
    length-insert id (entry id ip now) kept,
    evict-lt (length s) s (omega arith) w.unique (All-map IsEntry HasId s (λ e p. p.0) w.entries),
  );
}
  where
    kept : Store
    kept = evict (length s) s

reap-UniqueKeys : (now : ℕ) (m : Store) → UniqueKeys m → UniqueKeys (reap now m)
unfolding reap
reap-UniqueKeys now [] u = u
reap-UniqueKeys now ((j, w) ∷ m) u =
    ground (arith, reap-UniqueKeys now m u.1, lookup-reap now j m u.1)

reap-All : (now : ℕ) (m : Store) → All IsEntry m → All IsEntry (reap now m)
unfolding reap
reap-All now [] a = a
reap-All now ((j, w) ∷ m) a = elim (Bool-cases (ltb w.expires_at now)) [
  | inl over ↦ rw (over, reap) (reap-All now m a.1)
  | inr live ↦ rw (live, reap) (a.0, reap-All now m a.1)
]

reap-length : (now : ℕ) (m : Store) → length (reap now m) ≤ length m
unfolding reap
reap-length now [] = omega arith
reap-length now ((j, w) ∷ m) = ground (arith, reap-length now m)

reap-IsWellFormed : (now : ℕ) (s : Store) → IsWellFormed s → IsWellFormed (reap now s)
reap-IsWellFormed now s w = record {
  unique = reap-UniqueKeys now s w.unique;
  entries = reap-All now s w.entries;
  bounded = omega (arith, reap-length now s, w.bounded);
}

delete-IsWellFormed : (k : Text) (s : Store) → IsWellFormed s → IsWellFormed (delete k s)
delete-IsWellFormed k s w = record {
  unique = delete-UniqueKeys k s w.unique;
  entries = All-delete IsEntry k s w.entries;
  bounded = omega (arith, length-delete-le k s, w.bounded);
}

get-IsWellFormed :
    (id : Text) (now : ℕ) (s : Store) → IsWellFormed s → IsWellFormed (get id now s).1
unfolding get
get-IsWellFormed id now s w = elim (Bool-cases (is_empty id)) [
  | inl none_given ↦ rw none_given w
  | inr given ↦ elim (Option-cases (lookup id s)) [
    | inl gone ↦ rw (given, gone, get) w
    | inr (x, found) ↦ elim (Bool-cases (ltb x.expires_at now)) [
      | inl over ↦ rw (given, found, get, over) (delete-IsWellFormed id s w)
      | inr live ↦ rw (given, found, get, live) w
    ]
  ]
]

others-UniqueKeys : (id : Text) (m : Store) → UniqueKeys m → UniqueKeys (revoke_all_except id m).1
unfolding revoke_all_except
others-UniqueKeys id [] u = u
others-UniqueKeys id ((j, w) ∷ m) u =
    ground (arith, others-UniqueKeys id m u.1, lookup-revoke_all_except id j m)

others-All : (id : Text) (m : Store) → All IsEntry m → All IsEntry (revoke_all_except id m).1
unfolding revoke_all_except
others-All id [] a = a
others-All id ((j, w) ∷ m) a = elim (Bool-cases (text_eq j id)) [
  | inl kept ↦ rw (kept, revoke_all_except) (a.0, others-All id m a.1)
  | inr gone ↦ rw (gone, revoke_all_except) (others-All id m a.1)
]

revoke-IsWellFormed : (id : Text) (s : Store) → IsWellFormed s → IsWellFormed (revoke id s).1
unfolding revoke
revoke-IsWellFormed id s w = elim (Option-cases (lookup id s)) [
  | inl gone ↦ rw (gone, revoke) w
  | inr (x, found) ↦ rw (found, revoke) (delete-IsWellFormed id s w)
]

-- Every call of the session store, with a non-empty id where it creates one, keeps the ids unique,
-- every session under its own id with an expiry 72 hours after its creation, and the number of
-- sessions at most 16.
pub step-IsWellFormed :
    (now : ℕ) (c : Call) (s : Store) → IsCall c → IsWellFormed s → IsWellFormed (step now c s)
unfolding step
step-IsWellFormed now (creates id ip) s h w = create-IsWellFormed id ip now s h w
step-IsWellFormed now (gets id) s h w = get-IsWellFormed id now s w
step-IsWellFormed now (revokes id) s h w = revoke-IsWellFormed id s w
step-IsWellFormed now (revokes_others id) s h w = record {
  unique = others-UniqueKeys id s w.unique;
  entries = others-All id s w.entries;
  bounded = omega (arith, revoke_all_except-count id s, w.bounded);
}
step-IsWellFormed now reaps s h w = reap-IsWellFormed now s w
