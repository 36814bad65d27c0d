-- ===== src/Publisher/Pending.antt =====
-- The buffer of rflink/publisher.go for sensors whose message could not be published, one for each
-- HWID: `storePending`, `clearPending`, and the first half of `flushPending`, which takes out what
-- is to be published again. Times and the time to live are nanoseconds.
use go_rflink.Prelude.{
  ℕ, ◌+◌, ◌-◌, ◌%◌, ◌^◌, ◌≤◌, ◌≡◌, ◌≢◌, refl, inl, inr, Bool, true, false, ◌&&◌, Option, none, some,
  List, [], ◌∷◌, ltb, ◌==◌, if◌then◌else◌, length, All, arith, Bool-cases,
}
use go_rflink.Prelude.Text.{Text, is_empty}
use go_rflink.Prelude.Maps.{insert, delete, All-insert, All-delete}
use go_rflink.Sensor.{SensorData, topic_id, strip_event_fields}

-- `pendingSensor`
pub record PendingSensor : Type 0 where
  pub sd : SensorData
  pub stored_at : ℕ

-- `pending` and the counter `pendingDropped`.
pub record Pending : Type 0 where
  pub held : List (Text × PendingSensor)
  pub dropped : ℕ

abbrev is_none {ℓ} : {A : Type ℓ} → Option A → Bool
is_none none = true
is_none (some a) = false

-- Nothing but an event was in the message.
abbrev has_no_values : SensorData → Bool
has_no_values safe =
    is_none safe.temperature && is_none safe.humidity && is_empty safe.bat && length safe.extra == 0

unfoldable pub store_pending : ℕ → ℕ → SensorData → Pending → Pending
unfolding strip_event_fields
store_pending ttl now sd p =
    let safe = strip_event_fields sd in
    if ttl == 0
    then p
    else if has_no_values safe
    then p
    else record p { held = insert (topic_id safe) (record { sd = safe; stored_at = now }) p.held }

unfoldable pub clear_pending : Text → Pending → Pending
clear_pending key p = record p { held = delete key p.held }

-- The loop over the buffer: the items to publish, and the number of those that are too old.
unfoldable pub take_items : ℕ → ℕ → List (Text × PendingSensor) → List PendingSensor × ℕ
take_items ttl now [] = ([], 0)
take_items ttl now ((key, item) ∷ m) =
    let (items, old) = take_items ttl now m in
    if ltb ttl (now - item.stored_at) then (items, old + 1) else (item ∷ items, old)

-- `flushPending` up to the loop that publishes the items.
unfoldable pub flush_pending : ℕ → ℕ → Pending → List PendingSensor × Pending
unfolding take_items
flush_pending ttl now p =
    if ttl == 0
    then ([], p)
    else (let (items, old) = take_items ttl now p.held in
        (items, record { held = []; dropped = (p.dropped + old) % 2 ^ 64 }))

-- What the buffer holds has no event: neither a command nor a switch.
abbrev pub IsSafe : PendingSensor → Type 0
IsSafe item = (item.sd.cmd ≡ []) × (item.sd.switch ≡ [])

abbrev pub IsSafeBuffer : Pending → Type 0
IsSafeBuffer p = All (λ (e : Text × PendingSensor). IsSafe e.1) p.held

-- Storing a message and clearing a key keep the buffer free of items with a command or a switch.
pub store_pending-IsSafeBuffer :
    (ttl now : ℕ) (sd : SensorData) (key : Text) (p : Pending)
    → IsSafeBuffer p
    → IsSafeBuffer (store_pending ttl now sd p) × IsSafeBuffer (clear_pending key p)
unfolding store_pending clear_pending
store_pending-IsSafeBuffer ttl now sd key p a =
    let P = λ (e : Text × PendingSensor). IsSafe e.1 in
    let safe = strip_event_fields sd in
    let item : PendingSensor = record { sd = safe; stored_at = now } in
    let stored = All-insert P (topic_id safe) item p.held (refl, refl) a in
    (
      (elim (Bool-cases (ttl == 0)) [
        | inl off ↦ rw (off, store_pending) a
        | inr on ↦ elim (Bool-cases (has_no_values safe)) [
          | inl empty ↦ rw (on, empty, store_pending) a
          | inr filled ↦ rw (on, filled, store_pending) stored
        ]
      ]),
      All-delete P key p.held a,
    )

take_items-All :
    (ttl now : ℕ) (m : List (Text × PendingSensor))
    → All (λ (e : Text × PendingSensor). IsSafe e.1) m
    → All
        (λ (item : PendingSensor). IsSafe item × (now ≤ item.stored_at + ttl))
        (take_items ttl now m).0
      × (length (take_items ttl now m).0 + (take_items ttl now m).1 ≡ length m)
unfolding take_items
take_items-All ttl now [] a = (tt, refl)
take_items-All ttl now ((key, item) ∷ m) a =
    let (rest, count) = take_items-All ttl now m a.1 in
    elim (Bool-cases (ltb ttl (now - item.stored_at))) [
      | inl old ↦ rw (old, take_items) (rest, omega (arith, count))
      | inr young ↦ rw (young, take_items) (((a.0, ground arith), rest), omega (arith, count))
    ]

-- With a time to live and a buffer whose items hold no command and no switch: flushing hands out
-- no such item and none that is older than the time to live, empties the buffer, and counts as
-- dropped exactly the items that it does not hand out.
pub flush_pending_lem :
    (ttl now : ℕ) (p : Pending)
    → ttl ≢ 0
    → IsSafeBuffer p
    → let (items, p') = flush_pending ttl now p in
      (All (λ (item : PendingSensor). IsSafe item × (now ≤ item.stored_at + ttl)) items)
      × (p'.held ≡ [])
      × ((old : ℕ) × (length items + old ≡ length p.held)
          × (p'.dropped ≡ (p.dropped + old) % 2 ^ 64))
unfolding flush_pending
flush_pending_lem ttl now p h a =
    let off : (ttl == 0) ≡ false = ground arith in
    let (safe, count) = take_items-All ttl now p.held a in
    rw off (safe, refl, ((take_items ttl now p.held).1, count, refl))
