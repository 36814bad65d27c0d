-- ===== src/Session.antt =====
-- rflink/session.go: the store of GUI login sessions behind its mutex, one function per method.
-- Times are nanoseconds; a session id is the text that `randomSessionID` gives, or none when the
-- random source fails.
pub mod Evict
pub mod Invariant
pub mod Laws
pub mod History
use go_rflink.Prelude.{
  ℕ, zero, suc, ◌+◌, ◌*◌, Bool, true, false, not, ◌||◌, Option, none, some, List, [], ◌∷◌, ltb, leb,
  if◌then◌else◌, length, take,
}
use go_rflink.Prelude.Text.{Text, text_eq, is_empty, byte_len}
use go_rflink.Prelude.Maps.{lookup, insert, delete}

-- `sessionTTL`: 72 hours.
abbrev pub session_ttl : ℕ
session_ttl = 72 * 3600 * 1000000000

abbrev pub max_sessions : ℕ
max_sessions = 16

pub record Session : Type 0 where
  pub id : Text
  pub created_at : ℕ
  pub expires_at : ℕ
  pub ip : Text

-- `byID`
abbrev pub Store : Type 0
Store = List (Text × Session)

-- One round of the ticker in `reaper`.
unfoldable pub reap : ℕ → Store → Store
reap now [] = []
reap now ((id, sess) ∷ m) = if ltb sess.expires_at now then reap now m else (id, sess) ∷ reap now m

-- The inner loop of `Create`, over its variables `first`, `oldestID`, `oldestTime`.
unfoldable pub oldest_from : Bool → Text → ℕ → Store → Text × ℕ
oldest_from first oldest_id oldest_time [] = (oldest_id, oldest_time)
oldest_from first oldest_id oldest_time ((id, ss) ∷ m) =
    elim (first || ltb ss.created_at oldest_time) [
      | true ↦ oldest_from false id ss.created_at m
      | false ↦ oldest_from first oldest_id oldest_time m
    ]

abbrev pub oldest : Store → Text × ℕ
oldest = oldest_from true [] 0

-- The outer loop of `Create`, on fuel; the number of sessions is enough.
unfoldable pub evict : ℕ → Store → Store
evict zero s = s
evict (suc fuel) s =
    let oldest_id = (oldest s).0 in
    let rest = evict fuel (delete oldest_id s) in
    if ltb (length s) max_sessions then s else if is_empty oldest_id then s else rest

-- The session that `Create` makes.
abbrev pub entry : Text → Text → ℕ → Session
entry id ip now = record { id = id; created_at = now; expires_at = now + session_ttl; ip = ip }

unfoldable pub create : Option Text → Text → ℕ → Store → Option Session × Store
create none ip now s = (none, s)
create (some id) ip now s =
    let sess = entry id ip now in (some sess, insert id sess (evict (length s) s))

-- The part of `Get` behind the lookup.
get_found : Text → ℕ → Store → Option Session → Option Session × Store
get_found id now s none = (none, s)
get_found id now s (some sess) =
    if ltb sess.expires_at now then (none, delete id s) else (some sess, s)

unfoldable pub get : Text → ℕ → Store → Option Session × Store
unfolding get_found
get id now s = if is_empty id then (none, s) else get_found id now s (lookup id s)

unfoldable pub revoke : Text → Store → Bool × Store
revoke id s = elim (lookup id s) [ none ↦ (false, s) | some _ ↦ (true, delete id s) ]

abbrev pub count : Store → ℕ
count = length

-- The loop of `RevokeAllExcept`, with its counter.
unfoldable pub revoke_all_except : Text → Store → ℕ × Store
revoke_all_except keep_id [] = (0, [])
revoke_all_except keep_id ((id, sess) ∷ m) =
    let (n, kept) = revoke_all_except keep_id m in
    if text_eq id keep_id then (n, (id, sess) ∷ kept) else (n + 1, kept)

-- One row of `List`; the times are those that it formats.
pub record Row : Type 0 where
  pub id : Text
  pub id_prefix : Text
  pub ip : Text
  pub created_at : ℕ
  pub expires_at : ℕ

row : Text → Session → Row
row id sess = record {
  id = id;
  id_prefix = if ltb 8 (byte_len id) then take 8 id else id;
  ip = sess.ip;
  created_at = sess.created_at;
  expires_at = sess.expires_at;
}

unfoldable pub list : ℕ → Store → List Row
unfolding row
list now [] = []
list now ((id, sess) ∷ m) = if ltb sess.expires_at now then list now m else row id sess ∷ list now m
