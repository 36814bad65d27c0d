-- ===== src/Session/Evict.antt =====
-- The eviction loop of `Create` in rflink/session.go: which session it picks, and where it stops.
use go_rflink.Prelude.{
  ℕ, zero, suc, ◌≤◌, ◌<◌, ◌≡◌, refl, ◌≢◌, subst, sym, ◌⊎◌, inl, inr, false, none, some, [], ◌∷◌,
  ltb, length, arith, All, Bool-cases,
}
use go_rflink.Prelude.Text.{Text, text_eq, text_eq_iff, text_eq_refl, is_empty}
use go_rflink.Prelude.Maps.{
  lookup, delete, UniqueKeys, lookup-delete, delete-UniqueKeys, length-delete, All-lookup,
  All-delete,
}
use go_rflink.Session.{Session, Store, oldest_from, oldest, evict, max_sessions}

abbrev pub NotBefore : ℕ → Text × Session → Type 0
NotBefore t e = t ≤ e.1.created_at

abbrev pub HasId : Text × Session → Type 0
HasId e = is_empty e.0 ≡ false

-- The time that the scan ends with is no later than any that it saw.
oldest_from-le :
    (id : Text) (t : ℕ) (m : Store)
    → ((oldest_from false id t m).1 ≤ t) × All (NotBefore (oldest_from false id t m).1) m
unfolding oldest_from
oldest_from-le id t [] = (omega arith, tt)
oldest_from-le id t ((k, ss) ∷ m) = elim (Bool-cases (ltb ss.created_at t)) [
  | inl older ↦
      let ih = oldest_from-le k ss.created_at m in
      let step : oldest_from false id t ((k, ss) ∷ m) ≡ oldest_from false k ss.created_at m =
        rw (older, oldest_from) in
      subst (λ (r : Text × ℕ). (r.1 ≤ t) × All (NotBefore r.1) ((k, ss) ∷ m)) (sym step)
        (ground arith, (ih.0, ih.1))
  | inr newer ↦
      let ih = oldest_from-le id t m in
      let step : oldest_from false id t ((k, ss) ∷ m) ≡ oldest_from false id t m =
        rw (newer, oldest_from) in
      subst (λ (r : Text × ℕ). (r.1 ≤ t) × All (NotBefore r.1) ((k, ss) ∷ m)) (sym step)
        (ih.0, (ground arith, ih.1))
]

-- What it ends with is what it began with, or an entry of the map.
oldest_from-entry :
    (id : Text) (t : ℕ) (m : Store)
    → UniqueKeys m
    → (oldest_from false id t m ≡ (id, t))
      ⊎ ((ss : Session) × (lookup (oldest_from false id t m).0 m ≡ some ss)
          × ((oldest_from false id t m).1 ≡ ss.created_at))
unfolding oldest_from
oldest_from-entry id t [] u = inl refl
oldest_from-entry id t ((k, ss) ∷ m) u = elim (Bool-cases (ltb ss.created_at t)) [
  | inl older ↦ elim (oldest_from-entry k ss.created_at m u.1) [
    | inl e ↦ inr (ss, ground (arith, text_eq_refl k), ground arith)
    | inr (x, found, e) ↦
        inr (x, ground (arith, text_eq_iff k (oldest_from false k ss.created_at m).0), ground arith)
  ]
  | inr newer ↦ elim (oldest_from-entry id t m u.1) [
    | inl e ↦ inl (ground arith)
    | inr (x, found, e) ↦
        inr (x, ground (arith, text_eq_iff k (oldest_from false id t m).0), ground arith)
  ]
]

-- `Create` scans from the empty id: the pick is the oldest entry of a store that has one.
pub oldest-lookup :
    (m : Store)
    → UniqueKeys m
    → m ≢ []
    → (ss : Session) × (lookup (oldest m).0 m ≡ some ss) × All (NotBefore ss.created_at) m
unfolding oldest_from
oldest-lookup [] u ne = absurd (ne refl)
oldest-lookup ((k, ss) ∷ m) u ne = elim (oldest_from-entry k ss.created_at m u.1) [
  | inl e ↦ (ss, ground (arith, text_eq_refl k), ground (arith, oldest_from-le k ss.created_at m))
  | inr (x, found, e) ↦ (
    x,
    ground (arith, text_eq_iff k (oldest_from false k ss.created_at m).0),
    ground (arith, oldest_from-le k ss.created_at m),
  )
]

-- In a store with unique keys that are not empty, as many rounds as there are sessions are enough
-- for the loop that evicts: it ends with fewer than 16 sessions.
pub evict-lt :
    (fuel : ℕ) (s : Store)
    → length s ≤ fuel
    → UniqueKeys s
    → All HasId s
    → length (evict fuel s) < max_sessions
unfolding evict
evict-lt zero s f u n = omega arith
evict-lt (suc fuel) [] f u n = omega arith
evict-lt (suc fuel) (e ∷ m) f u n = elim (Bool-cases (ltb (length (e ∷ m)) max_sessions)) [
  | inl room ↦ rw (room, evict) (ground arith)
  | inr full ↦
      let (ss, found, _) = oldest-lookup (e ∷ m) u (λ h. cc) in
      let id = (oldest (e ∷ m)).0 in
      rw (full, All-lookup HasId id ss (e ∷ m) n found, evict)
        (evict-lt fuel (delete id (e ∷ m)) (omega (arith, length-delete id ss (e ∷ m) u found))
          (delete-UniqueKeys id (e ∷ m) u) (All-delete HasId id (e ∷ m) n))
]

pub evict-UniqueKeys : (fuel : ℕ) (s : Store) → UniqueKeys s → UniqueKeys (evict fuel s)
unfolding evict
evict-UniqueKeys zero s u = u
evict-UniqueKeys (suc fuel) s u =
    ground
      (arith, delete-UniqueKeys (oldest s).0 s u, evict-UniqueKeys fuel (delete (oldest s).0 s))

pub evict-All {κ} :
    (P : Text × Session → Type κ) (fuel : ℕ) (s : Store) → All P s → All P (evict fuel s)
unfolding evict
evict-All P zero s h = h
evict-All P (suc fuel) s h = elim (Bool-cases (ltb (length s) max_sessions)) [
  | inl room ↦ rw (room, evict) h
  | inr full ↦ elim (Bool-cases (is_empty (oldest s).0)) [
    | inl bad ↦ rw (full, bad, evict) h
    | inr ok ↦ rw (full, ok, evict) (evict-All P fuel _ (All-delete P (oldest s).0 s h))
  ]
]

-- A store below the limit is left alone.
pub evict_room : (fuel : ℕ) (s : Store) → length s < max_sessions → evict fuel s ≡ s
unfolding evict
evict_room zero s h = refl
evict_room (suc fuel) s h = ground arith

pub evict-lookup :
    (fuel : ℕ) (s : Store) (k : Text) (b : Session)
    → lookup k (evict fuel s) ≡ some b
    → lookup k s ≡ some b
unfolding evict
evict-lookup zero s k b h = h
evict-lookup (suc fuel) s k b h =
    ground (arith, evict-lookup fuel (delete (oldest s).0 s) k b, lookup-delete (oldest s).0 k s)

-- Eviction takes the oldest first: what it drops is no younger than what it keeps.
pub evict_oldest :
    (fuel : ℕ) (s : Store) (j k : Text) (a b : Session)
    → UniqueKeys s
    → lookup j s ≡ some a
    → lookup j (evict fuel s) ≡ none
    → lookup k (evict fuel s) ≡ some b
    → a.created_at ≤ b.created_at
unfolding evict
evict_oldest zero s j k a b u la lj lk = cc
evict_oldest (suc fuel) [] j k a b u la lj lk = cc
evict_oldest (suc fuel) (e ∷ m) j k a b u la lj lk =
    let (ss, found, least) = oldest-lookup (e ∷ m) u (λ h. cc) in
    let id = (oldest (e ∷ m)).0 in
    let held = evict-lookup (suc fuel) (e ∷ m) k b lk in
    let young = All-lookup (NotBefore ss.created_at) k b (e ∷ m) least held in
    elim (Bool-cases (text_eq id j)) [
      | inl hit ↦
          let same = subst (λ x. lookup x (e ∷ m) ≡ some ss) ((text_eq_iff id j).0 hit) found in
          ground arith
      | inr miss ↦ ground (
        arith,
        lookup-delete id j (e ∷ m),
        delete-UniqueKeys id (e ∷ m) u,
        evict_oldest fuel (delete id (e ∷ m)) j k a b,
      )
    ]
