-- ===== src/Publisher/Discovery/Retries.antt =====
-- How often `publishHomeAssistantEntity` of rflink/home_assistant.go announces an entity.
use go_rflink.Prelude.{
  ℕ, zero, suc, ◌<◌, ◌≡◌, ◌⊎◌, refl, ap, ◌∙◌, inl, inr, true, false, List, ◌∷◌, arith, Bool-cases,
}
use go_rflink.Prelude.Text.{Text, text_eq_refl}
use go_rflink.Strings.{Unicode}
use go_rflink.Options.{mem}
use go_rflink.Sensor.{SensorData}
use go_rflink.Publisher.Broker.{Publication, Wire, Broker}
use go_rflink.Publisher.Discovery.{
  Naming, unique_id_of, entity_publication, publish_entity, publish_entity_known,
  publish_entity_new,
}

-- The publication, refused a number of times.
abbrev pub refused_times : ℕ → Publication → Wire → Wire
refused_times zero p w = w
refused_times (suc n) p w = refused_times n p ((p, false) ∷ w)

module _ ⦃u : Unicode⦄ (accepts : Broker) (c : Naming) (sd : SensorData) (field : Text) where
  -- Announcing the entity again and again.
  unfoldable pub announced_times : ℕ → List Text × Wire → List Text × Wire
  unfolding publish_entity
  announced_times zero s = s
  announced_times (suc n) s = announced_times n (publish_entity accepts c sd field s)

  announced_times-known :
      (n : ℕ) (discovered : List Text) (w : Wire)
      → mem (unique_id_of sd field) discovered ≡ true
      → announced_times n (discovered, w) ≡ (discovered, w)
  unfolding announced_times
  announced_times-known zero discovered w h = refl
  announced_times-known (suc n) discovered w h =
      ap (announced_times n) (publish_entity_known accepts c sd field discovered w h)
      ∙ announced_times-known n discovered w h

  -- An entity that is not known yet is announced a number of times in a row: either the broker
  -- refused its publication each time, and the entity is not known, or it refused it some times
  -- and then took it, and from then on the entity is known and nothing more is published.
  pub announced_times_lem :
      (n : ℕ) (discovered : List Text) (w : Wire)
      → mem (unique_id_of sd field) discovered ≡ false
      → let p = entity_publication c sd field in
        (announced_times n (discovered, w) ≡ (discovered, refused_times n p w))
        ⊎ ((k : ℕ) × (k < n)
            × (accepts (refused_times k p w) p ≡ true)
            × (announced_times n (discovered, w)
                ≡ (unique_id_of sd field ∷ discovered, (p, true) ∷ refused_times k p w)))
  unfolding announced_times
  announced_times_lem zero discovered w h = inl refl
  announced_times_lem (suc n) discovered w h =
      let p = entity_publication c sd field in
      let id = unique_id_of sd field in
      elim (Bool-cases (accepts w p)) [
        | inl taken ↦
            let e = publish_entity_new accepts c sd field discovered w true h taken in
            let known : mem id (id ∷ discovered) ≡ true = rw text_eq_refl refl in
            inr (
              0,
              omega arith,
              taken,
              ap (announced_times n) e
                  ∙ announced_times-known n (id ∷ discovered) ((p, true) ∷ w) known,
            )
        | inr refused ↦
            let e =
              ap (announced_times n)
                (publish_entity_new accepts c sd field discovered w false h refused) in
            elim (announced_times_lem n discovered ((p, false) ∷ w) h) [
              | inl all_ ↦ inl (e ∙ all_)
              | inr (k, less, taken, last) ↦ inr (suc k, omega arith, taken, e ∙ last)
            ]
      ]
