-- ===== src/Uplink/Process/Retransmit.antt =====
-- The ground sends each command four times: what the further copies do (the duplicate branch of
-- UPLINK_APP_ProcessUplink).
use cfs_telemetry_app.Common.{
  ℕ, suc, ◌+◌, ◌<◌, ◌≡◌, ◌≢◌, inl, inr, ◌∙◌, List, [], ◌∷◌, length, u16, u32, byte_at, arith,
}
use cfs_telemetry_app.Uplink.Messages.{ProcessUplinkCmd, routed, class_counter_mgmt, scope_uplink}
use cfs_telemetry_app.Uplink.State.{UplinkApp, Env}
use cfs_telemetry_app.Uplink.Admission.{seq_duplicate, check_sequence, compare_sequence}
use cfs_telemetry_app.Uplink.Telemetry.{update_status_telemetry}
use cfs_telemetry_app.Uplink.Process.{note_reception, process_checked, process_uplink}
use cfs_telemetry_app.Uplink.Process.Gates.{IsAdmitted, IsKept}
use cfs_telemetry_app.Uplink.Process.Outcome.{
  IsRouted, IsOwnReset, process_uplink-Outcome, process_uplink_own,
}

-- The copies arrive one after another, each with the answers of the executive at that time.
pub resend : List Env → ProcessUplinkCmd → UplinkApp → UplinkApp
resend [] cmd s = s
resend (env ∷ envs) cmd s = resend envs cmd (process_uplink env cmd s)

abbrev pub IsRemembered : ProcessUplinkCmd → UplinkApp → Type 0
IsRemembered cmd s = (s.accepted_count ≢ 0) × (u16 s.last_accepted_sequence ≡ cmd.sequence)

-- n copies were counted as duplicates, and nothing else happened.
pub record IsIgnored (n : ℕ) (s t : UplinkApp) : Type 0 where
  pub kept : IsKept s t
  pub no_error : t.err_counter ≡ s.err_counter
  pub no_rejection : t.rejected_count ≡ s.rejected_count
  pub same_link : t.link_state ≡ s.link_state
  pub counted : t.duplicate_count ≡ u32 (s.duplicate_count + n)

check_sequence-IsRemembered :
    (env : Env) (cmd : ProcessUplinkCmd) (s : UplinkApp)
    → IsRemembered cmd s
    → check_sequence (note_reception env cmd s) cmd.sequence ≡ seq_duplicate
unfolding check_sequence compare_sequence note_reception
check_sequence-IsRemembered env cmd s h = ground arith

copy-IsIgnored :
    (env : Env) (cmd : ProcessUplinkCmd) (s : UplinkApp)
    → IsRemembered cmd s
    → IsIgnored 1 s (process_uplink env cmd s)
unfolding process_uplink
copy-IsIgnored env cmd s h =
    rw (check_sequence-IsRemembered env cmd s h)
      (unfold process_checked note_reception update_status_telemetry in ground arith)

IsIgnored-trans :
    {n : ℕ} {s t u : UplinkApp} → IsIgnored 1 s t → IsIgnored n t u → IsIgnored (suc n) s u
IsIgnored-trans a b = record {
  kept = record {
    nothing_passed_on = b.kept.nothing_passed_on ∙ a.kept.nothing_passed_on;
    same_sequence = b.kept.same_sequence ∙ a.kept.same_sequence;
    same_accepted = b.kept.same_accepted ∙ a.kept.same_accepted;
    same_file = b.kept.same_file ∙ a.kept.same_file;
    same_commands = b.kept.same_commands ∙ a.kept.same_commands;
    same_flight_mode = b.kept.same_flight_mode ∙ a.kept.same_flight_mode;
    same_config = b.kept.same_config ∙ a.kept.same_config;
    same_health = b.kept.same_health ∙ a.kept.same_health;
  };
  no_error = b.no_error ∙ a.no_error;
  no_rejection = b.no_rejection ∙ a.no_rejection;
  same_link = b.same_link ∙ a.same_link;
  counted = omega (arith, a.counted, b.counted);
}

resend-IsIgnored :
    (envs : List Env) (cmd : ProcessUplinkCmd) (s : UplinkApp)
    → IsRemembered cmd s
    → s.duplicate_count < 4294967296
    → IsIgnored (length envs) s (resend envs cmd s)
unfolding resend
resend-IsIgnored [] cmd s h d = ground arith
resend-IsIgnored (env ∷ envs) cmd s h d =
    let first = copy-IsIgnored env cmd s h in
    IsIgnored-trans first (
      resend-IsIgnored envs cmd (process_uplink env cmd s)
        (
          (λ e. h.0 (omega (arith, first.kept.same_accepted))),
          omega (arith, first.kept.same_sequence, h.1),
        )
        (omega (arith, first.counted)))

IsRouted-IsIgnored :
    (env : Env) (cmd : ProcessUplinkCmd) (s t : UplinkApp) (envs : List Env)
    → IsRouted env cmd s t
    → cmd.sequence < 65536
    → s.accepted_count < 4294967295
    → t.duplicate_count < 4294967296
    → IsIgnored (length envs) t (resend envs cmd t)
IsRouted-IsIgnored env cmd s t envs r q a d =
    resend-IsIgnored envs cmd t ((λ e. omega (arith, r.counted)), omega (arith, r.sequence)) d

IsAlsoAdmitted :
    (cmd : ProcessUplinkCmd) (s t : UplinkApp)
    → IsAdmitted s cmd
    → IsOwnReset cmd s t
    → IsAdmitted t cmd
unfolding check_sequence
IsAlsoAdmitted cmd s t h r = ground arith

-- After an admitted command ended with the result ROUTED, further copies of it, however many and
-- whatever the clock and the bus do, are only counted as duplicates: nothing is passed on again,
-- the replay defence and the state file stay, and neither errors nor the link state change. The
-- command is no reset of the application's own counters, and the counter of accepted commands is
-- below its last value, at which it would wrap to 0. The sequence has 16 bits, and the counter of
-- duplicates 32.
pub resend_of_routed :
    (env : Env) (envs : List Env) (cmd : ProcessUplinkCmd) (s : UplinkApp)
    → IsAdmitted s cmd
    → (process_uplink env cmd s).last_command_result ≡ routed
    → ¬ ((cmd.command_class ≡ class_counter_mgmt) × (byte_at cmd.payload 0 ≡ scope_uplink))
    → cmd.sequence < 65536
    → s.accepted_count < 4294967295
    → (process_uplink env cmd s).duplicate_count < 4294967296
    → IsIgnored
        (length envs)
        (process_uplink env cmd s)
        (resend envs cmd (process_uplink env cmd s))
resend_of_routed env envs cmd s h r other q a d = elim (process_uplink-Outcome env cmd s h) [
  | inl done ↦ IsRouted-IsIgnored env cmd s (process_uplink env cmd s) envs done q a d
  | inr (inl own) ↦ absurd (other (own.class, own.scope))
  | inr (inr refused) ↦ absurd (refused.reports_refusal r)
]

-- An admitted reset of the application's own counters that ended with the result ROUTED is not
-- remembered: the same command, with the same sequence, is admitted again.
pub own_reset_not_remembered :
    (env : Env) (cmd : ProcessUplinkCmd) (s : UplinkApp)
    → IsAdmitted s cmd
    → cmd.command_class ≡ class_counter_mgmt
    → byte_at cmd.payload 0 ≡ scope_uplink
    → (process_uplink env cmd s).last_command_result ≡ routed
    → IsAdmitted (process_uplink env cmd s) cmd
own_reset_not_remembered env cmd s h c o r = elim (process_uplink_own env cmd s h c o) [
  | inl own ↦ IsAlsoAdmitted cmd s (process_uplink env cmd s) h own
  | inr refused ↦ absurd (refused.reports_refusal r)
]
