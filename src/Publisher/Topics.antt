-- ===== src/Publisher/Topics.antt =====
-- The topics of rflink/publisher.go for the fields of a sensor.
use go_rflink.Prelude.{ℕ, ◌≡◌, refl, false, ◌||◌, [], ◌∷◌, ◌++◌, ◌==◌, if◌then◌else◌, length, arith}
use go_rflink.Prelude.Text.{Text}
use go_rflink.Strings.{Unicode, letter, digit}
use go_rflink.Strings.Split.{Lacks}

module _ ⦃u : Unicode⦄ where
  abbrev pub sanitize_rune : ℕ → ℕ
  sanitize_rune r = if letter r || digit r || r == b'_' || r == b'-' then r else b'_'

  unfoldable pub sanitize_topic_segment : Text → Text
  sanitize_topic_segment [] = []
  sanitize_topic_segment (r ∷ value) = sanitize_rune r ∷ sanitize_topic_segment value

  abbrev pub sensor_topic : Text → Text → Text
  sensor_topic topic sensor_id = topic ++ b'/' ∷ sanitize_topic_segment sensor_id

  abbrev pub sensor_field_topic : Text → Text → Text → Text
  sensor_field_topic topic sensor_id field =
      sensor_topic topic sensor_id ++ b'/' ∷ sanitize_topic_segment field

  sanitize_rune_lem :
      (r : ℕ)
      → ((sanitize_rune r == b'/') ≡ false)
        × ((sanitize_rune r == b'+') ≡ false)
        × ((sanitize_rune r == b'#') ≡ false)
  sanitize_rune_lem r = ground arith

  -- A sanitized segment has the length of the text, and no slash and no wildcard of MQTT.
  pub sanitize_topic_segment_lem :
      (value : Text)
      → Lacks b'/' (sanitize_topic_segment value)
        × Lacks b'+' (sanitize_topic_segment value)
        × Lacks b'#' (sanitize_topic_segment value)
        × (length (sanitize_topic_segment value) ≡ length value)
  unfolding sanitize_topic_segment
  sanitize_topic_segment_lem [] = (tt, tt, tt, refl)
  sanitize_topic_segment_lem (r ∷ value) =
      let (s, p, h, n) = sanitize_topic_segment_lem value in
      let (s', p', h') = sanitize_rune_lem r in ((s', s), (p', p), (h', h), ground arith)
