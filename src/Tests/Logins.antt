-- ===== src/Tests/Logins.antt =====
-- Logins to the GUI, and its sessions.
use go_rflink.Prelude.{ℕ, ◌+◌, ◌≡◌, refl, none, some, List, [], ◌∷◌, leb, if◌then◌else◌, arith}
use go_rflink.Prelude.Text.{Text, codes}
use go_rflink.Session.{Store, entry, session_ttl, create, get, revoke, reap, evict}
use go_rflink.Session.Invariant.{
  IsWellFormed, Call, creates, gets, revokes, reaps, step, step-IsWellFormed,
}
use go_rflink.Session.History.{steps, AllSpare, get-steps}

abbrev home : Text
home = codes "192.168.0.2"

abbrev history : List (Text × ℕ)
history =
    (home, 10)
    ∷ (home, 11)
    ∷ (codes "10.0.0.1", 12)
    ∷ (home, 13)
    ∷ (home, 14)
    ∷ (home, 15)
    ∷ (home, 16)
    ∷ []

abbrev two_sessions : Store
two_sessions =
    (codes "aa", entry (codes "aa") home 5) ∷ (codes "bb", entry (codes "bb") home 9) ∷ []

two_sessions-IsWellFormed : IsWellFormed two_sessions
two_sessions-IsWellFormed = record {
  unique = ground arith;
  entries = ground arith;
  bounded = omega arith;
}

step-IsWellFormed_example : IsWellFormed (step 20 (creates (codes "cc") home) two_sessions)
step-IsWellFormed_example =
    step-IsWellFormed 20 (creates (codes "cc") home) two_sessions refl two_sessions-IsWellFormed

abbrev visits : List (ℕ × Call)
visits =
    (21, gets (codes "cc"))
    ∷ (22, creates (codes "dd") home)
    ∷ (23, revokes (codes "aa"))
    ∷ (24, reaps)
    ∷ []

visits-AllSpare :
    AllSpare
      (codes "cc")
      (20 + session_ttl)
      visits
      (step 20 (creates (codes "cc") home) two_sessions)
unfolding step create get revoke reap evict
visits-AllSpare = ground arith

get-steps_example :
    (get (codes "cc") 30 (steps visits (step 20 (creates (codes "cc") home) two_sessions))).0
    ≡ (if leb 30 (20 + session_ttl) then some (entry (codes "cc") home 20) else none)
get-steps_example =
    get-steps (codes "cc") home 20 30 visits two_sessions refl two_sessions-IsWellFormed
      visits-AllSpare
