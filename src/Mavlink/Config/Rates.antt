-- ===== src/Mavlink/Config/Rates.antt =====
-- What a configuration command leaves active.
use cfs_telemetry_app.Common.{
  ℕ, ◌+◌, ◌≤◌, ◌≡◌, refl, Bool, not, ◌||◌, ◌==◌, ltb, if_cases, byte_at, le16, u8, u32, u32_at,
  arith,
}
use mathlib.Core.Path.{subst, sym}
use cfs_telemetry_app.Common.Executive.{
  SaveOutcome, open_failed, write_failed, rename_failed, saved,
}
use cfs_telemetry_app.CfsCore.Config.{ConfigCmd}
use cfs_telemetry_app.Mavlink.State.{StreamParams, BridgeConfig, Bridge, BridgeEnv, transmit_bridge}
use cfs_telemetry_app.Mavlink.Config.{
  interval_min_us, interval_max_us, param_ms_min, param_ms_max, save_bridge, publish_bridge_result,
  bridge_config_checksum, bridge_config_version, bridge_scope, reject_config, ParamChange, changed,
  bad_range, bad_param_id, within, change_param, has_low_param, activate_rates, apply_change,
  process_bridge_config,
}

abbrev IsInterval : ℕ → Type 0
IsInterval n = (interval_min_us ≤ n) × (n ≤ interval_max_us)

abbrev IsWait : ℕ → Type 0
IsWait n = (param_ms_min ≤ n) × (n ≤ param_ms_max)

-- Every parameter within its bounds.
pub record IsRates (c : StreamParams) : Type 0 where
  pub attitude : IsInterval c.attitude_interval_us
  pub local : IsInterval c.local_position_interval_us
  pub global : IsInterval c.global_position_interval_us
  pub gps : IsInterval c.gps_raw_interval_us
  pub ekf : IsInterval c.ekf_status_interval_us
  pub reconnect : IsWait c.reconnect_interval_ms
  pub heartbeat : IsWait c.heartbeat_interval_ms

abbrev ChangesRates : ParamChange → Type 0
ChangesRates (changed c) = IsRates c
ChangesRates bad_range = Unit
ChangesRates bad_param_id = Unit

within-ChangesRates :
    (low high value : ℕ) (c : StreamParams)
    → ((low ≤ value) × (value ≤ high) → IsRates c)
    → ChangesRates (within low high value c)
within-ChangesRates low high value c k =
    if_cases ChangesRates (ltb value low || ltb high value) _ _ (λ _. tt) (λ e. k (ground arith))

change_param-ChangesRates :
    (id value : ℕ) (c : StreamParams) → IsRates c → ChangesRates (change_param id value c)
unfolding change_param
change_param-ChangesRates id value c r =
    if_cases ChangesRates (id == 0) _ _
      (λ _.
        within-ChangesRates interval_min_us interval_max_us value
          (record c { attitude_interval_us = value })
          (λ w. record {
            attitude = w;
            local = r.local;
            global = r.global;
            gps = r.gps;
            ekf = r.ekf;
            reconnect = r.reconnect;
            heartbeat = r.heartbeat;
          }))
      (λ _.
        if_cases ChangesRates (id == 1) _ _
          (λ _.
            within-ChangesRates interval_min_us interval_max_us value
              (record c { local_position_interval_us = value })
              (λ w. record {
                attitude = r.attitude;
                local = w;
                global = r.global;
                gps = r.gps;
                ekf = r.ekf;
                reconnect = r.reconnect;
                heartbeat = r.heartbeat;
              }))
          (λ _.
            if_cases ChangesRates (id == 2) _ _
              (λ _.
                within-ChangesRates interval_min_us interval_max_us value
                  (record c { global_position_interval_us = value })
                  (λ w. record {
                    attitude = r.attitude;
                    local = r.local;
                    global = w;
                    gps = r.gps;
                    ekf = r.ekf;
                    reconnect = r.reconnect;
                    heartbeat = r.heartbeat;
                  }))
              (λ _.
                if_cases ChangesRates (id == 3) _ _
                  (λ _.
                    within-ChangesRates interval_min_us interval_max_us value
                      (record c { gps_raw_interval_us = value })
                      (λ w. record {
                        attitude = r.attitude;
                        local = r.local;
                        global = r.global;
                        gps = w;
                        ekf = r.ekf;
                        reconnect = r.reconnect;
                        heartbeat = r.heartbeat;
                      }))
                  (λ _.
                    if_cases ChangesRates (id == 4) _ _
                      (λ _.
                        within-ChangesRates interval_min_us interval_max_us value
                          (record c { ekf_status_interval_us = value })
                          (λ w. record {
                            attitude = r.attitude;
                            local = r.local;
                            global = r.global;
                            gps = r.gps;
                            ekf = w;
                            reconnect = r.reconnect;
                            heartbeat = r.heartbeat;
                          }))
                      (λ _.
                        if_cases ChangesRates (id == 5) _ _
                          (λ _.
                            within-ChangesRates param_ms_min param_ms_max value
                              (record c { reconnect_interval_ms = value })
                              (λ w. record {
                                attitude = r.attitude;
                                local = r.local;
                                global = r.global;
                                gps = r.gps;
                                ekf = r.ekf;
                                reconnect = w;
                                heartbeat = r.heartbeat;
                              }))
                          (λ _.
                            if_cases ChangesRates (id == 6) _ _
                              (λ _.
                                within-ChangesRates param_ms_min param_ms_max value
                                  (record c { heartbeat_interval_ms = value })
                                  (λ w. record {
                                    attitude = r.attitude;
                                    local = r.local;
                                    global = r.global;
                                    gps = r.gps;
                                    ekf = r.ekf;
                                    reconnect = r.reconnect;
                                    heartbeat = w;
                                  }))
                              (λ _. tt)))))))

abbrev OfConfig : BridgeConfig → Type 0
OfConfig c = IsRates c.active

unfoldable pub HasRates : Bridge → Type 0
HasRates s = IsRates s.config.active

pub of_active : (t : Bridge) → IsRates t.config.active → HasRates t
unfolding HasRates
of_active t r = r

active_of : (s : Bridge) → HasRates s → IsRates s.config.active
unfolding HasRates
active_of s r = r

same : (s t : Bridge) → t.config.active ≡ s.config.active → HasRates s → HasRates t
unfolding HasRates
same s t e r = rw e r

publish-config :
    (env : BridgeEnv) (n class : ℕ) (ok : Bool) (detail : ℕ) (s : Bridge)
    → (publish_bridge_result env n class ok detail s).config ≡ s.config
unfolding publish_bridge_result transmit_bridge
publish-config env n class ok detail s =
    if_cases {A = Bridge} (λ t. t.config ≡ s.config) (env.delivers _) _ _ (λ _. refl) (λ _. refl)

published :
    (env : BridgeEnv) (n class : ℕ) (ok : Bool) (detail : ℕ) (s : Bridge)
    → HasRates s
    → HasRates (publish_bridge_result env n class ok detail s)
unfolding HasRates
published env n class ok detail s r =
    subst OfConfig (sym (publish-config env n class ok detail s)) r

save_bridge-HasRates : (o : SaveOutcome) (s : Bridge) → HasRates s → HasRates (save_bridge o s)
unfolding save_bridge HasRates
save_bridge-HasRates open_failed s r = r
save_bridge-HasRates write_failed s r = r
save_bridge-HasRates rename_failed s r = r
save_bridge-HasRates saved s r = r

module _ (env : BridgeEnv) (msg : ConfigCmd) where
  reject_config-HasRates :
      (result : ℕ) (s : Bridge) → HasRates s → HasRates (reject_config env msg result s)
  unfolding reject_config
  reject_config-HasRates result s r = published env _ _ _ _ _ (same s _ refl r)

  apply_change-HasRates :
      (c : ParamChange) (s : Bridge)
      → ChangesRates c
      → HasRates s
      → HasRates (apply_change env msg c s)
  unfolding activate_rates
  apply_change-HasRates bad_range s q r = reject_config-HasRates _ _ (same s _ refl r)
  apply_change-HasRates bad_param_id s q r = reject_config-HasRates _ _ (same s _ refl r)
  apply_change-HasRates (changed c) s q r =
      if_cases HasRates (has_low_param c) _ _ (λ _. reject_config-HasRates _ _ (same s _ refl r))
        (λ _.
          let x : Bridge = record s {
            config = record {
              pending_state = 0;
              last_result = 0;
              generation = u32 (s.config.generation + 1);
              active = c;
              pending = c;
              previous = s.config.active;
            };
            cmd_counter = u8 (s.cmd_counter + 1);
          } in
          published env _ _ _ _ _ (
            same (save_bridge env.save_outcome x) _ refl
              (save_bridge-HasRates env.save_outcome x (of_active x q))))

  -- Whatever a configuration command holds, the rates and waits that are active stay within their
  -- bounds.
  pub process_bridge_config-HasRates :
      (s : Bridge) → HasRates s → HasRates (process_bridge_config env msg s)
  unfolding process_bridge_config
  process_bridge_config-HasRates s r =
      if_cases HasRates (ltb msg.payload_length 8) _ _ (λ _. reject_config-HasRates _ _ r)
        (λ _.
          if_cases HasRates (not (byte_at msg.payload 0 == bridge_scope)) _ _ (λ _. r)
            (λ _.
              if_cases HasRates (not (byte_at msg.payload 1 == bridge_config_version)) _ _
                (λ _. reject_config-HasRates _ _ r)
                (λ _.
                  if_cases HasRates
                    (not (byte_at msg.payload 5 == 4)
                      || ltb msg.payload_length (u8 (8 + byte_at msg.payload 5)))
                    _ _ (λ _. reject_config-HasRates _ _ r)
                    (λ _.
                      if_cases HasRates
                        (not (
                          le16 (byte_at msg.payload 6) (byte_at msg.payload 7)
                          == bridge_config_checksum msg.payload))
                        _ _ (λ _. reject_config-HasRates _ _ r)
                        (λ _.
                          apply_change-HasRates _ s
                            (change_param-ChangesRates
                              (le16 (byte_at msg.payload 2) (byte_at msg.payload 3))
                              (u32_at msg.payload 8) s.config.active (active_of s r))
                            r)))))
