-- ===== src/Publisher/Actuators/Rediscovery.antt =====
-- What `ClearHADiscovery` of rflink/publisher.go brings about when the broker takes all of it.
use go_rflink.Prelude.{
  ℕ, suc, ◌≤◌, ◌≡◌, refl, sym, ap, ◌∙◌, subst, inl, inr, true, false, List, [], ◌∷◌, ◌++◌,
  Bool-cases, arith,
}
use go_rflink.Prelude.Text.{Text, codes, text_eq, text_eq_iff}
use go_rflink.Options.{HaActuatorButton, HaActuatorSwitch, mem}
use go_rflink.Strings.Numbers.{value_from}
use go_rflink.Sensor.Decimal.{decimal, decimal-value}
use go_rflink.Publisher.Broker.{accepted, Broker, Wire, Publication, publish_raw}
use go_rflink.Publisher.Sensors.{Settings, Core}
use go_rflink.Publisher.Actuators.{
  button_id, switch_id, button_publication, switch_publication, publish_actuator,
  publish_ha_buttons, publish_ha_switches, publish_ha_actuators, clear_ha_discovery,
}

decimal-injective : (i j : ℕ) → text_eq (decimal i) (decimal j) ≡ true → i ≡ j
decimal-injective i j h =
    let same : decimal i ≡ decimal j = (text_eq_iff (decimal i) (decimal j)).0 h in
    sym (decimal-value i) ∙ ap (value_from 10 0) same ∙ decimal-value j

text_eq-append : (p s t : Text) → text_eq (p ++ s) (p ++ t) ≡ text_eq s t
text_eq-append [] s t = refl
text_eq-append (a ∷ p) s t = ground (arith, text_eq-append p s t)

-- Ids that differ from number to number.
abbrev AreDistinct : (ℕ → Text) → Type 0
AreDistinct id = (i j : ℕ) → suc i ≤ j → text_eq (id i) (id j) ≡ false

prefixed-AreDistinct : (p : Text) → AreDistinct (λ i. p ++ decimal i)
prefixed-AreDistinct p i j h = elim (Bool-cases (text_eq (p ++ decimal i) (p ++ decimal j))) [
  | inr other ↦ other
  | inl same ↦
      let e : i ≡ j =
        decimal-injective i j (sym (text_eq-append p (decimal i) (decimal j)) ∙ same) in
      absurd (omega arith)
]

button-switch : (i j : ℕ) → text_eq (button_id i) (switch_id j) ≡ false
button-switch i j = refl

abbrev pub button_publications : Settings → ℕ → List HaActuatorButton → List Publication
button_publications c i [] = []
button_publications c i (btn ∷ rest) =
    button_publication c i btn ∷ button_publications c (suc i) rest

abbrev pub switch_publications : Settings → ℕ → List HaActuatorSwitch → List Publication
switch_publications c i [] = []
switch_publications c i (sw ∷ rest) = switch_publication c i sw ∷ switch_publications c (suc i) rest

accepted-append :
    (ps qs : List Publication) (w : Wire) → accepted (ps ++ qs) w ≡ accepted qs (accepted ps w)
accepted-append [] qs w = refl
accepted-append (p ∷ ps) qs w = accepted-append ps qs ((p, true) ∷ w)

-- Both loops, over publications with a number each.
unfoldable publish_numbered :
    Broker → (ℕ → Text) → ℕ → List Publication → List Text × Wire → List Text × Wire
publish_numbered accepts id i [] s = s
publish_numbered accepts id i (p ∷ ps) s =
    publish_numbered accepts id (suc i) ps (publish_actuator accepts (id i) p s)

publish_ha_buttons-numbered :
    (accepts : Broker) (c : Settings) (i : ℕ) (bs : List HaActuatorButton) (s : List Text × Wire)
    → publish_ha_buttons accepts c i bs s
      ≡ publish_numbered accepts button_id i (button_publications c i bs) s
unfolding publish_ha_buttons publish_numbered
publish_ha_buttons-numbered accepts c i [] s = refl
publish_ha_buttons-numbered accepts c i (btn ∷ rest) s =
    publish_ha_buttons-numbered accepts c (suc i) rest
      (publish_actuator accepts (button_id i) (button_publication c i btn) s)

publish_ha_switches-numbered :
    (accepts : Broker) (c : Settings) (i : ℕ) (sws : List HaActuatorSwitch) (s : List Text × Wire)
    → publish_ha_switches accepts c i sws s
      ≡ publish_numbered accepts switch_id i (switch_publications c i sws) s
unfolding publish_ha_switches publish_numbered
publish_ha_switches-numbered accepts c i [] s = refl
publish_ha_switches-numbered accepts c i (sw ∷ rest) s =
    publish_ha_switches-numbered accepts c (suc i) rest
      (publish_actuator accepts (switch_id i) (switch_publication c i sw) s)

-- None of the ids from a number on is known.
abbrev AreNew : (ℕ → Text) → ℕ → List Text → Type 0
AreNew id i discovered = (j : ℕ) → i ≤ j → mem (id j) discovered ≡ false

module _ (accepts : Broker) (willing : (w : Wire) (p : Publication) → accepts w p ≡ true) where
  publish_actuator-new :
      (id : Text) (p : Publication) (discovered : List Text) (w : Wire)
      → mem id discovered ≡ false
      → publish_actuator accepts id p (discovered, w) ≡ (id ∷ discovered, (p, true) ∷ w)
  unfolding publish_actuator publish_raw
  publish_actuator-new id p discovered w new = rw (new, willing w p) refl

  publish_numbered-accepted :
      (id : ℕ → Text) (i : ℕ) (ps : List Publication) (discovered : List Text) (w : Wire)
      → AreDistinct id
      → AreNew id i discovered
      → (publish_numbered accepts id i ps (discovered, w)).1 ≡ accepted ps w
  unfolding publish_numbered
  publish_numbered-accepted id i [] discovered w d new = refl
  publish_numbered-accepted id i (p ∷ ps) discovered w d new =
      rw (publish_actuator-new (id i) p discovered w (new i (omega arith)), publish_numbered)
        (publish_numbered-accepted id (suc i) ps (id i ∷ discovered) ((p, true) ∷ w) d
          (λ j h. ground (arith, d i j h, new j (omega arith))))

  -- Ids of another kind stay new.
  publish_numbered-AreNew :
      (id other : ℕ → Text) (i : ℕ) (ps : List Publication) (s : List Text × Wire)
      → ((j k : ℕ) → text_eq (id j) (other k) ≡ false)
      → AreNew other 0 s.0
      → AreNew other 0 (publish_numbered accepts id i ps s).0
  unfolding publish_numbered publish_actuator publish_raw
  publish_numbered-AreNew id other i [] s apart new = new
  publish_numbered-AreNew id other i (p ∷ ps) s apart new =
      publish_numbered-AreNew id other (suc i) ps (publish_actuator accepts (id i) p s) apart
        (λ j h. ground (arith, apart i j, new j h))

  -- With discovery switched on and a broker that takes every publication, whatever was known
  -- before: `ClearHADiscovery` publishes every button and then every switch of the settings, each
  -- once and in their order, and nothing else.
  pub clear_ha_discovery-wire :
      (c : Settings) (s : Core)
      → c.home_assistant_discovery ≡ true
      → (clear_ha_discovery accepts c s).wire
        ≡ accepted
            (button_publications c 0 c.options.ha_buttons
              ++ switch_publications c 0 c.options.ha_switches)
            s.wire
  unfolding clear_ha_discovery publish_ha_actuators
  clear_ha_discovery-wire c s on =
      let bs = button_publications c 0 c.options.ha_buttons in
      let sws = switch_publications c 0 c.options.ha_switches in
      let pressed = publish_ha_buttons accepts c 0 c.options.ha_buttons ([], s.wire) in
      let same = publish_ha_buttons-numbered accepts c 0 c.options.ha_buttons ([], s.wire) in
      let sent =
        publish_numbered-accepted button_id 0 bs [] s.wire
          (prefixed-AreDistinct (codes "gorflink_btn_")) (λ j h. refl) in
      let new =
        publish_numbered-AreNew button_id switch_id 0 bs ([], s.wire) button-switch (λ j h. refl) in
      let sent' =
        publish_numbered-accepted switch_id 0 sws pressed.0 pressed.1
          (prefixed-AreDistinct (codes "gorflink_sw_"))
          (subst (λ a. AreNew switch_id 0 a.0) (sym same) new) in
      rw on (
        ap (λ a. a.1) (publish_ha_switches-numbered accepts c 0 c.options.ha_switches pressed)
        ∙ sent'
        ∙ ap (accepted sws) (ap (λ a. a.1) same ∙ sent)
        ∙ sym (accepted-append bs sws s.wire))
