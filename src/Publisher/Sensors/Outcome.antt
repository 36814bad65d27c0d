-- ===== src/Publisher/Sensors/Outcome.antt =====
-- What `PublishSensor` of rflink/publisher.go sends to the broker, and what it keeps.
use go_rflink.Prelude.{
  ℕ, ◌+◌, ◌*◌, ◌%◌, ◌^◌, ◌≡◌, ◌⊎◌, refl, sym, subst, ap, ◌∙◌, inl, inr, Bool, true, false, none,
  List, [], ◌∷◌, if◌then◌else◌, arith, Bool-cases,
}
use go_rflink.Prelude.Text.{Text, text_eq_refl}
use go_rflink.Prelude.Maps.{lookup, lookup-delete}
use go_rflink.Strings.{Unicode}
use go_rflink.Sensor.{SensorData, topic_id}
use go_rflink.Sensor.Fields.{Fields, fields_for_publish}
use go_rflink.Publisher.Ping.{second}
use go_rflink.Publisher.Pending.{store_pending, clear_pending}
use go_rflink.Publisher.Health.{note_sensor_seen}
use go_rflink.Publisher.Broker.{Broker, Wire, Publication, publish_raw, accepted, TakesAll, StopsAt}
use go_rflink.Publisher.Sensors.{
  Settings, Core, field_publication, sum_publication, publish_fields, publish_message,
  not_published, is_published, noted, announce, prepared, is_ignored, publish_sensor,
}

module _ ⦃u : Unicode⦄ (accepts : Broker) (c : Settings) where
  -- The publications of a message: one for each field, and one for the whole.
  abbrev pub parts : SensorData → Fields → List Publication
  parts sd [] = sum_publication c sd ∷ []
  parts sd ((field, value) ∷ m) = field_publication c sd field value ∷ parts sd m

  -- The message is published: all its parts are taken and are what is tried, it is counted, and
  -- nothing is kept back for its sensor.
  pub record IsPublished (sd : SensorData) (fields : Fields) (s s' : Core) : Type 0 where
    pub takes : TakesAll accepts (parts sd fields) s.wire
    pub wire : s'.wire ≡ accepted (parts sd fields) s.wire
    pub cleared : lookup (topic_id sd) s'.publisher.pending.held ≡ none
    pub counted : s'.publisher.counters.published ≡ (s.publisher.counters.published + 1) % 2 ^ 64

  -- The broker takes the first parts and refuses the next: nothing is tried after it, the failure is
  -- counted, the message goes to the buffer, and no sample is kept.
  pub record IsKeptBack (later : ℕ) (sd : SensorData) (fields : Fields) (s s' : Core) : Type 0 where
    pub stops : StopsAt accepts (parts sd fields) s.wire s'.wire
    pub stored :
        s'.publisher.pending
        ≡ store_pending (c.options.pending_ttl_sec * second) later sd s.publisher.pending
    pub counted :
        s'.publisher.counters.publish_failed ≡ (s.publisher.counters.publish_failed + 1) % 2 ^ 64
    pub samples : s'.samples ≡ s.samples

  -- One more part before those that are tried.
  StopsAt-cons :
      (p : Publication) (ps : List Publication) (w w' : Wire)
      → accepts w p ≡ true
      → StopsAt accepts ps ((p, true) ∷ w) w'
      → StopsAt accepts (p ∷ ps) w w'
  StopsAt-cons p ps w w' taken h = record {
    before = p ∷ h.before;
    refused = h.refused;
    after = h.after;
    stands = ap (◌∷◌ p) h.stands;
    takes = (taken, h.takes);
    refuses = h.refuses;
    wire = h.wire;
  }

  StopsAt-first :
      (p : Publication) (ps : List Publication) (w : Wire)
      → accepts w p ≡ false
      → StopsAt accepts (p ∷ ps) w ((p, false) ∷ w)
  StopsAt-first p ps w h = record {
    before = [];
    refused = p;
    after = ps;
    stands = refl;
    takes = tt;
    refuses = h;
    wire = refl;
  }

  -- The fields and then the whole: the answer and the wire at the end of both.
  abbrev tried : SensorData → Fields → Wire → Bool × Wire
  tried sd fields w =
      let (taken, w') = publish_fields accepts c sd fields w in
      if taken then publish_raw accepts (sum_publication c sd) w' else (false, w')

  tried_taken :
      (sd : SensorData) (field value : Text) (m : Fields) (w : Wire)
      → let p = field_publication c sd field value in
        accepts w p ≡ true → tried sd ((field, value) ∷ m) w ≡ tried sd m ((p, true) ∷ w)
  unfolding publish_fields publish_raw
  tried_taken sd field value m w h = rw (h, publish_fields) refl

  tried_refused :
      (sd : SensorData) (field value : Text) (m : Fields) (w : Wire)
      → let p = field_publication c sd field value in
        accepts w p ≡ false → tried sd ((field, value) ∷ m) w ≡ (false, (p, false) ∷ w)
  unfolding publish_fields publish_raw
  tried_refused sd field value m w h = rw (h, publish_fields) refl

  -- How trying the parts may end.
  abbrev Ends : List Publication → Wire → Bool × Wire → Type 0
  Ends ps w r =
      ((r.0 ≡ true) × TakesAll accepts ps w × (r.1 ≡ accepted ps w))
      ⊎ ((r.0 ≡ false) × StopsAt accepts ps w r.1)

  tried-Ends :
      (sd : SensorData) (fields : Fields) (w : Wire) → Ends (parts sd fields) w (tried sd fields w)
  unfolding publish_fields publish_raw
  tried-Ends sd [] w = elim (Bool-cases (accepts w (sum_publication c sd))) [
    | inl taken ↦ inl (taken, (taken, tt), rw taken refl)
    | inr refused ↦ inr (refused, rw refused (StopsAt-first (sum_publication c sd) [] w refused))
  ]
  tried-Ends sd ((field, value) ∷ m) w =
      let p = field_publication c sd field value in
      elim (Bool-cases (accepts w p)) [
        | inl taken ↦
            subst (Ends (p ∷ parts sd m) w) (sym (tried_taken sd field value m w taken))
              (elim (tried-Ends sd m ((p, true) ∷ w)) [
                | inl (yes_, takes, wire) ↦ inl (yes_, (taken, takes), wire)
                | inr (no_, stops) ↦ inr (no_, StopsAt-cons p (parts sd m) w _ taken stops)
              ])
        | inr refused ↦
            subst (Ends (p ∷ parts sd m) w) (sym (tried_refused sd field value m w refused))
              (inr (refl, StopsAt-first p (parts sd m) w refused))
      ]

  published :
      (now : ℕ) (sd : SensorData) (fields : Fields) (w : Wire) (s : Core)
      → TakesAll accepts (parts sd fields) s.wire
      → w ≡ accepted (parts sd fields) s.wire
      → IsPublished sd fields s (is_published c now sd fields w s).1
  unfolding is_published clear_pending
  published now sd fields w s takes wire = record {
    takes = takes;
    wire = wire;
    cleared = ground (
      arith,
      lookup-delete (topic_id sd) (topic_id sd) s.publisher.pending.held,
      text_eq_refl (topic_id sd),
    );
    counted = refl;
  }

  kept_back :
      (later : ℕ) (sd : SensorData) (fields : Fields) (w : Wire) (s : Core)
      → StopsAt accepts (parts sd fields) s.wire w
      → IsKeptBack later sd fields s (not_published c later sd w s).1
  unfolding not_published
  kept_back later sd fields w s stops = record {
    stops = stops;
    stored = refl;
    counted = refl;
    samples = refl;
  }

  publish_message-tried :
      (later : ℕ) (sd : SensorData) (fields : Fields) (s : Core)
      → publish_message accepts c later sd fields s ≡ (
          if (tried sd fields s.wire).0
          then is_published c later sd fields (tried sd fields s.wire).1 s
          else not_published c later sd (tried sd fields s.wire).1 s)
  unfolding publish_message publish_raw
  publish_message-tried later sd fields s = ground arith

  -- Publishing a message ends in one of these two ways, whatever the broker answers.
  pub publish_message_lem :
      (later : ℕ) (sd : SensorData) (fields : Fields) (s : Core)
      → let (taken, s') = publish_message accepts c later sd fields s in
        ((taken ≡ true) × IsPublished sd fields s s')
        ⊎ ((taken ≡ false) × IsKeptBack later sd fields s s')
  unfolding is_published not_published
  publish_message_lem later sd fields s =
      let (ok, w') = tried sd fields s.wire in
      let e = publish_message-tried later sd fields s in
      elim (tried-Ends sd fields s.wire) [
        | inl (yes_, takes, wire) ↦
            let e' = e ∙ rw yes_ refl in
            inl (
              ap (λ r. r.0) e',
              subst (IsPublished sd fields s) (sym (ap (λ r. r.1) e'))
                  (published later sd fields w' s takes wire),
            )
        | inr (no_, stops) ↦
            let e' = e ∙ rw no_ refl in
            inr (
              ap (λ r. r.0) e',
              subst (IsKeptBack later sd fields s) (sym (ap (λ r. r.1) e'))
                  (kept_back later sd fields w' s stops),
            )
      ]

  -- The state in which the parts are tried: the sensor is noted as seen, and its entities are
  -- announced.
  abbrev pub announced : ℕ → SensorData → Fields → Core → Core
  announced now sd fields s = announce accepts c sd fields (noted now sd s)

  announced-frame :
      (now : ℕ) (sd : SensorData) (fields : Fields) (s : Core)
      → ((announced now sd fields s).publisher.pending ≡ s.publisher.pending)
        × ((announced now sd fields s).publisher.counters ≡ s.publisher.counters)
        × ((announced now sd fields s).samples ≡ s.samples)
  unfolding announce noted note_sensor_seen
  announced-frame now sd fields s = ground arith

  -- Whatever the broker answers to a message that is not ignored: noting the sensor and announcing
  -- its entities leaves the buffer, the counters and the samples as they are. Then either the
  -- broker takes every part of the message, one publication for each field and one for the whole,
  -- these are what is tried, the message is counted, and nothing is kept back for its sensor; or
  -- it takes the parts before some part and refuses that one, nothing is tried after it, the
  -- failure is counted, the buffer is what `storePending` makes of it and the message, and no
  -- sample is kept.
  pub publish_sensor_lem :
      (now later : ℕ) (sd : SensorData) (s : Core)
      → is_ignored c sd ≡ false
      → let sd' = prepared c sd in
        let fields = fields_for_publish c.options.temperature_unit sd' in
        let s0 = announced now sd' fields s in
        let (taken, s') = publish_sensor accepts c now later sd s in
        ((s0.publisher.pending ≡ s.publisher.pending)
          × (s0.publisher.counters ≡ s.publisher.counters)
          × (s0.samples ≡ s.samples))
        × (((taken ≡ true) × IsPublished sd' fields s0 s')
            ⊎ ((taken ≡ false) × IsKeptBack later sd' fields s0 s'))
  unfolding publish_sensor
  publish_sensor_lem now later sd s h =
      let sd' = prepared c sd in
      let fields = fields_for_publish c.options.temperature_unit sd' in
      rw (publish_sensor, h)
        (
          announced-frame now sd' fields s,
          publish_message_lem later sd' fields (announced now sd' fields s),
        )
