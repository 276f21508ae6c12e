-- ===== src/CfsCore/Config/Outcome.antt =====
-- What a configuration command does to cfs_core_app, on every branch.
use cfs_telemetry_app.Common.{
  ℕ, ◌+◌, ◌≤◌, ◌<◌, ◌≡◌, ◌≢◌, ◌⊎◌, inl, inr, refl, sym, ◌∙◌, false, not, ◌||◌, Option, none, some,
  ltb, if_cases, if◌then◌else◌, ◌==◌, u8, u32, byte_at, le16, u32_at, arith,
}
use native.Mathlib.Decide.{dec_lt}
use cfs_telemetry_app.CfsCore.State.{ConfigParams, CoreApp, CoreEnv, transmit_core}
use cfs_telemetry_app.CfsCore.Persist.{save_core}
use cfs_telemetry_app.CfsCore.Config.{
  ConfigCmd, core_config_checksum, publish_exec_result, set_param, has_short_param, activate_config,
  process_config_command, bad_scope, answer_refusal, refuse_config, apply_config, bad_param,
  bad_length, bad_version, bad_checksum, bad_value,
}

-- The parameters of a command, by the layout of its payload.
abbrev pub param_id : ConfigCmd → ℕ
param_id msg = le16 (byte_at msg.payload 2) (byte_at msg.payload 3)

abbrev pub param_value : ConfigCmd → ℕ
param_value msg = u32_at msg.payload 8

-- A command that the application accepts.
pub record IsAcceptable (msg : ConfigCmd) : Type 0 where
  pub whole : 12 ≤ msg.payload_length
  pub scope : byte_at msg.payload 0 ≡ 1
  pub version : byte_at msg.payload 1 ≡ 1
  pub size : byte_at msg.payload 5 ≡ 4
  pub checksum :
      le16 (byte_at msg.payload 6) (byte_at msg.payload 7) ≡ core_config_checksum msg.payload
  pub range : (100 ≤ param_value msg) × (param_value msg ≤ 60000)
  pub known : param_id msg < 6

-- The bounds that the checks of the handler keep.
pub record IsInRange (c : ConfigParams) : Type 0 where
  pub attitude : (100 ≤ c.attitude_timeout_ms) × (c.attitude_timeout_ms ≤ 60000)
  pub local : (100 ≤ c.local_timeout_ms) × (c.local_timeout_ms ≤ 60000)
  pub gps : (100 ≤ c.gps_timeout_ms) × (c.gps_timeout_ms ≤ 60000)
  pub ekf : (100 ≤ c.ekf_timeout_ms) × (c.ekf_timeout_ms ≤ 60000)
  pub bridge : (100 ≤ c.bridge_timeout_ms) × (c.bridge_timeout_ms ≤ 60000)
  pub publish : (100 ≤ c.publish_period_ms) × (c.publish_period_ms ≤ 60000)

pub set_param-IsInRange :
    (id value : ℕ) (c d : ConfigParams)
    → IsInRange c
    → (100 ≤ value) × (value ≤ 60000)
    → set_param id value c ≡ some d
    → IsInRange d
unfolding set_param
set_param-IsInRange id value c d r v e = ground arith

has_short_param-IsInRange : (c : ConfigParams) → IsInRange c → has_short_param c ≡ false
unfolding has_short_param
has_short_param-IsInRange c r = ground arith

set_param_known : (id value : ℕ) (c : ConfigParams) → id < 6 → set_param id value c ≢ none
unfolding set_param
set_param_known id value c h = ground arith

set_param_unknown : (id value : ℕ) (c : ConfigParams) → 6 ≤ id → set_param id value c ≡ none
unfolding set_param
set_param_unknown id value c h = ground arith

-- The new value at one parameter, the old one at the others; the parameters in the order of their
-- numbers.
pub record IsReplaced (id value : ℕ) (c d : ConfigParams) : Type 0 where
  pub attitude : d.attitude_timeout_ms ≡ (if id == 0 then value else c.attitude_timeout_ms)
  pub local : d.local_timeout_ms ≡ (if id == 1 then value else c.local_timeout_ms)
  pub gps : d.gps_timeout_ms ≡ (if id == 2 then value else c.gps_timeout_ms)
  pub ekf : d.ekf_timeout_ms ≡ (if id == 3 then value else c.ekf_timeout_ms)
  pub bridge : d.bridge_timeout_ms ≡ (if id == 4 then value else c.bridge_timeout_ms)
  pub publish : d.publish_period_ms ≡ (if id == 5 then value else c.publish_period_ms)

set_param-IsReplaced :
    (id value : ℕ) (c d : ConfigParams) → set_param id value c ≡ some d → IsReplaced id value c d
unfolding set_param
set_param-IsReplaced id value c d e = ground arith

-- The state after an accepted command: the old configuration is kept as the previous one.
pub record IsActivated (c : ConfigParams) (s t : CoreApp) : Type 0 where
  pub active : t.active_config ≡ c
  pub previous : t.previous_config ≡ s.active_config
  pub generation : t.config_generation ≡ u32 (s.config_generation + 1)
  pub result : t.last_config_result ≡ 0
  pub counter : t.cmd_counter ≡ u8 (s.cmd_counter + 1)
  pub errors : t.err_counter ≡ s.err_counter

-- The state after a refused one.
pub record IsRefused (s t : CoreApp) : Type 0 where
  pub active : t.active_config ≡ s.active_config
  pub previous : t.previous_config ≡ s.previous_config
  pub generation : t.config_generation ≡ s.config_generation
  pub result : t.last_config_result ≢ 0
  pub counter : t.cmd_counter ≡ s.cmd_counter
  pub errors : t.err_counter ≡ u8 (s.err_counter + 1)
  pub file : t.state_file ≡ s.state_file

pub refuse :
    (env : CoreEnv) (msg : ConfigCmd) (result : ℕ) (s : CoreApp)
    → result ≢ 0
    → IsRefused s (answer_refusal env msg result s)
unfolding publish_exec_result transmit_core
refuse env msg result s n = ground arith

refuse_param :
    (env : CoreEnv) (msg : ConfigCmd) (result : ℕ) (c : ConfigParams) (s : CoreApp)
    → result ≢ 0
    → IsRefused s (answer_refusal env msg result (record s { pending_config = c }))
unfolding publish_exec_result transmit_core
refuse_param env msg result c s n = ground arith

refuse_foreign : (s : CoreApp) → IsRefused s (refuse_config bad_scope s)
refuse_foreign s = ground arith

-- The pending configuration does not show in the result.
activated :
    (env : CoreEnv) (msg : ConfigCmd) (c : ConfigParams) (s : CoreApp)
    → IsActivated c s (activate_config env msg c (record s { pending_config = c }))
unfolding activate_config publish_exec_result transmit_core save_core
activated env msg c s = ground arith

some_not_none : {c : ConfigParams} → some c ≢ none
some_not_none e = cc

-- Accepted with the configuration that the parameter and the value give, or refused.
abbrev pub ConfigOutcome : ConfigCmd → CoreApp → CoreApp → Type 0
ConfigOutcome msg s t =
    (IsAcceptable msg
      × ((c : ConfigParams) × IsReplaced (param_id msg) (param_value msg) s.active_config c
          × IsActivated c s t))
    ⊎ (¬ IsAcceptable msg × IsRefused s t)

apply_config-ConfigOutcome :
    (env : CoreEnv) (msg : ConfigCmd) (s : CoreApp) (pending : Option ConfigParams)
    → IsInRange s.active_config
    → (param_id msg < 6 → IsAcceptable msg)
    → (100 ≤ param_value msg) × (param_value msg ≤ 60000)
    → set_param (param_id msg) (param_value msg) s.active_config ≡ pending
    → ConfigOutcome msg s (apply_config env msg pending s)
apply_config-ConfigOutcome env msg s none r acc v e = inr (
  (λ a. set_param_known (param_id msg) (param_value msg) s.active_config a.known e),
  refuse_param env msg bad_param s.active_config s (omega arith),
)
apply_config-ConfigOutcome env msg s (some c) r acc v e =
    let range = set_param-IsInRange (param_id msg) (param_value msg) s.active_config c r v e in
    let known : param_id msg < 6 = elim (dec_lt (param_id msg) 6) [
      | yes h ↦ h
      | no h ↦ absurd (
          some_not_none (
            sym e
            ∙ set_param_unknown (param_id msg) (param_value msg) s.active_config (omega arith)))
    ] in
    rw (has_short_param-IsInRange c range) (
      let new = set_param-IsReplaced (param_id msg) (param_value msg) s.active_config c e in
      inl (acc known, (c, new, activated env msg c s)))

-- Every configuration command is accepted or refused. Accepted are those that are whole, for this
-- application and version, with a four-byte value of 100 to 60,000 ms, a known parameter and the
-- right checksum: then that parameter alone is replaced, the old configuration is kept as the
-- previous one, and the generation is counted up. Any other is counted as an error, and leaves the
-- configuration, its generation and the state file as they were. The active configuration is in
-- its bounds before.
pub process_config_command-ConfigOutcome :
    (env : CoreEnv) (msg : ConfigCmd) (s : CoreApp)
    → IsInRange s.active_config
    → ConfigOutcome msg s (process_config_command env msg s)
unfolding process_config_command
process_config_command-ConfigOutcome env msg s r =
    let value = param_value msg in
    if_cases (ConfigOutcome msg s) (ltb msg.payload_length 8) _ _
      (λ t. inr ((λ a. ground (arith, a.whole, t)), refuse env msg bad_length s (omega arith)))
      (λ f1.
        if_cases (ConfigOutcome msg s) (not (byte_at msg.payload 0 == 1)) _ _
          (λ t. inr ((λ a. ground (arith, a.scope, t)), refuse_foreign s))
          (λ f2.
            if_cases (ConfigOutcome msg s) (not (byte_at msg.payload 1 == 1)) _ _
              (λ t.
                inr
                  ((λ a. ground (arith, a.version, t)), refuse env msg bad_version s (omega arith)))
              (λ f3.
                if_cases (ConfigOutcome msg s)
                  (not (byte_at msg.payload 5 == 4)
                    || ltb msg.payload_length (u8 (8 + byte_at msg.payload 5)))
                  _ _
                  (λ t. inr (
                    (λ a. ground (arith, a.size, a.whole, t)),
                    refuse env msg bad_length s (omega arith),
                  ))
                  (λ f4.
                    if_cases (ConfigOutcome msg s)
                      (not (
                        le16 (byte_at msg.payload 6) (byte_at msg.payload 7)
                        == core_config_checksum msg.payload))
                      _ _
                      (λ t. inr (
                        (λ a. ground (arith, a.checksum, t)),
                        refuse env msg bad_checksum s (omega arith),
                      ))
                      (λ f5.
                        if_cases (ConfigOutcome msg s) (ltb value 100 || ltb 60000 value) _ _
                          (λ t. inr (
                            (λ a. ground (arith, a.range, t)),
                            refuse env msg bad_value s (omega arith),
                          ))
                          (λ f6.
                            apply_config-ConfigOutcome env msg s _ r
                              (λ k. record {
                                whole = ground arith;
                                scope = ground arith;
                                version = ground arith;
                                size = ground arith;
                                checksum = ground arith;
                                range = ground arith;
                                known = k;
                              })
                              (ground arith) refl))))))
