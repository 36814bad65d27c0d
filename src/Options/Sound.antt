-- ===== src/Options/Sound.antt =====
-- What the rest of the program relies on in the options that `GetOptions` of rflink/options.go
-- returns.
use go_rflink.Prelude.{
  ℕ, zero, suc, ◌≤◌, ◌≡◌, refl, subst, sym, ◌∙◌, ◌⊎◌, inl, inr, true, some, arith, Bool-cases,
  Option-cases,
}
use go_rflink.Prelude.Text.{Text, codes, text_eq_iff}
use go_rflink.Strings.{Unicode, trim_space, to_upper}
use go_rflink.Options.{validate_cmd_topic}
use go_rflink.Options.Settings.{
  ℤ, pos, negsuc, default_unless_positive, raise_to, qos_level, Environment, Options,
  temperature_unit_of, options_of, cmd_topic_of, get_options,
}

some_inj {ℓ} : {A : Type ℓ} {a b : A} → some a ≡ some b → a ≡ b
some_inj h = cc

module _ ⦃u : Unicode⦄ where
  pub record IsSound (o : Options) : Type 0 where
    pub cmd_topic_checked : validate_cmd_topic o.topic o.cmd_topic ≡ true
    pub qos_level : o.qos ≤ 2
    pub lwt_qos_level : o.lwt_qos ≤ 2
    pub keep_alive_positive : 1 ≤ o.keep_alive
    pub delays_positive : 1 ≤ o.reconnect_min_delay_sec
    pub delays_ordered : o.reconnect_min_delay_sec ≤ o.reconnect_max_delay_sec
    pub command_max_len_positive : 1 ≤ o.command_max_len
    pub raw_buffer_positive : 1 ≤ o.raw_buffer_size
    pub sensor_buffer_positive : 1 ≤ o.sensor_buffer_size
    pub unit_known :
        (o.temperature_unit ≡ codes "C")
        ⊎ (o.temperature_unit ≡ codes "F")
        ⊎ (o.temperature_unit ≡ codes "RAW")

  default_unless_positive_lem : (d : ℕ) (x : ℤ) → 1 ≤ d → 1 ≤ default_unless_positive d x
  default_unless_positive_lem d (pos zero) h = h
  default_unless_positive_lem d (pos (suc n)) h = omega arith
  default_unless_positive_lem d (negsuc n) h = h

  raise_to_lem : (lo : ℕ) (x : ℤ) → lo ≤ raise_to lo x
  raise_to_lem lo (pos n) = ground arith
  raise_to_lem lo (negsuc n) = omega arith

  qos_level_lem : (x : ℤ) (q : ℕ) → qos_level x ≡ some q → q ≤ 2
  qos_level_lem (pos n) q h = ground arith
  qos_level_lem (negsuc n) q h = cc

  temperature_unit_of_lem :
      (raw name : Text)
      → temperature_unit_of raw ≡ some name
      → (name ≡ codes "C") ⊎ (name ≡ codes "F") ⊎ (name ≡ codes "RAW")
  temperature_unit_of_lem raw name h =
      let unit = to_upper (trim_space raw) in
      ground (
        arith,
        text_eq_iff unit (codes "C"),
        text_eq_iff unit (codes "F"),
        text_eq_iff unit (codes "RAW"),
      )

  options_of-IsSound :
      (e : Environment) (qos lwt_qos : ℕ) (name : Text)
      → validate_cmd_topic e.topic (cmd_topic_of e) ≡ true
      → qos_level e.qos ≡ some qos
      → qos_level e.lwt_qos ≡ some lwt_qos
      → temperature_unit_of e.temperature_unit ≡ some name
      → IsSound (options_of e (cmd_topic_of e) qos lwt_qos name)
  options_of-IsSound e qos lwt_qos name checked q l t = record {
    cmd_topic_checked = checked;
    qos_level = qos_level_lem e.qos qos q;
    lwt_qos_level = qos_level_lem e.lwt_qos lwt_qos l;
    keep_alive_positive = default_unless_positive_lem 30 e.keep_alive (omega arith);
    delays_positive = default_unless_positive_lem 3 e.reconnect_min_delay_sec (omega arith);
    delays_ordered =
        raise_to_lem (default_unless_positive 3 e.reconnect_min_delay_sec)
          e.reconnect_max_delay_sec;
    command_max_len_positive = default_unless_positive_lem 256 e.command_max_len (omega arith);
    raw_buffer_positive = default_unless_positive_lem 100 e.raw_buffer_size (omega arith);
    sensor_buffer_positive = default_unless_positive_lem 50 e.sensor_buffer_size (omega arith);
    unit_known = temperature_unit_of_lem e.temperature_unit name t;
  }

  -- Options that `GetOptions` returns have a command topic that passed its check, QoS levels of at
  -- most 2, a keep-alive, a minimal delay, a command length and buffer sizes of at least 1, a
  -- maximal delay no shorter than the minimal one, and one of the units C, F and RAW.
  pub get_options-IsSound : (e : Environment) (o : Options) → get_options e ≡ some o → IsSound o
  unfolding get_options
  get_options-IsSound e o h = elim (Bool-cases (validate_cmd_topic e.topic (cmd_topic_of e))) [
    | inr bad ↦ absurd (ground arith)
    | inl checked ↦ elim (Option-cases (qos_level e.qos)) [
      | inl bad ↦ absurd (ground arith)
      | inr (qos, q) ↦ elim (Option-cases (qos_level e.lwt_qos)) [
        | inl bad ↦ absurd (ground arith)
        | inr (lwt_qos, l) ↦ elim (Option-cases (temperature_unit_of e.temperature_unit)) [
          | inl bad ↦ absurd (ground arith)
          | inr (name, t) ↦
              let found : get_options e ≡ some (options_of e (cmd_topic_of e) qos lwt_qos name) =
                rw (get_options, checked, q, l, t) refl in
              let same : options_of e (cmd_topic_of e) qos lwt_qos name ≡ o =
                some_inj (sym found ∙ h) in
              subst IsSound same (options_of-IsSound e qos lwt_qos name checked q l t)
        ]
      ]
    ]
  ]
