-- ===== src/CfsCore/Config/Cases.antt =====
-- The branches of CFS_CORE_APP_ProcessConfigCommand, as a rule for its proofs.
use cfs_telemetry_app.Common.{
  ℕ, ◌+◌, ◌≤◌, ◌≢◌, not, ◌||◌, ltb, ◌==◌, if_cases, u8, byte_at, le16, u32_at, arith,
}
use cfs_telemetry_app.CfsCore.State.{CoreApp, CoreEnv}
use cfs_telemetry_app.CfsCore.Config.{
  ConfigCmd, core_config_checksum, set_param, refuse_config, answer_refusal, apply_config,
  process_config_command, bad_scope, bad_version, bad_value, bad_length, bad_checksum,
}

-- To prove something of the state after the command, prove it of an answered refusal, of the
-- refusal of a foreign scope, and of the switch over the parameters with a value in its bounds.
pub process_config_command_cases {ℓ} :
    (env : CoreEnv) (msg : ConfigCmd) (s : CoreApp) (P : CoreApp → Type ℓ)
    → ((result : ℕ) → result ≢ 0 → P (answer_refusal env msg result s))
    → (byte_at msg.payload 0 ≢ 1 → P (refuse_config bad_scope s))
    → ((100 ≤ u32_at msg.payload 8) × (u32_at msg.payload 8 ≤ 60000)
        → P (
            apply_config env msg
              (set_param
                (le16 (byte_at msg.payload 2) (byte_at msg.payload 3))
                (u32_at msg.payload 8)
                s.active_config)
              s))
    → P (process_config_command env msg s)
unfolding process_config_command
process_config_command_cases env msg s P refused foreign switch =
    if_cases P (ltb msg.payload_length 8) _ _ (λ _. refused bad_length (omega arith))
      (λ _.
        if_cases P (not (byte_at msg.payload 0 == 1)) _ _ (λ f. foreign (λ e. ground (arith, e, f)))
          (λ _.
            if_cases P (not (byte_at msg.payload 1 == 1)) _ _
              (λ _. refused bad_version (omega arith))
              (λ _.
                if_cases P
                  (not (byte_at msg.payload 5 == 4)
                    || ltb msg.payload_length (u8 (8 + byte_at msg.payload 5)))
                  _ _ (λ _. refused bad_length (omega arith))
                  (λ _.
                    if_cases P
                      (not (
                        le16 (byte_at msg.payload 6) (byte_at msg.payload 7)
                        == core_config_checksum msg.payload))
                      _ _ (λ _. refused bad_checksum (omega arith))
                      (λ _.
                        if_cases P
                          (ltb (u32_at msg.payload 8) 100 || ltb 60000 (u32_at msg.payload 8)) _ _
                          (λ _. refused bad_value (omega arith)) (λ f. switch (ground arith)))))))
