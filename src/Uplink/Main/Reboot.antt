-- ===== src/Uplink/Main/Reboot.antt =====
-- What survives a restart of uplink_app (UPLINK_APP_Init over the file of the session before), and
-- how a series of restarts is judged.
use Prim.Native.Nat.{min}
use cfs_telemetry_app.Common.{
  inl, inr, Option, List, [], ◌∷◌, All, length, byte_at, ℕ, ◌+◌, ◌<◌, ◌≡◌, ◌≢◌, refl, true, false,
  some, u8, leb, ◌==◌, if◌then◌else◌, arith,
}
use cfs_telemetry_app.Uplink.Messages.{ProcessUplinkCmd, routed, class_counter_mgmt, scope_uplink}
use cfs_telemetry_app.Uplink.Process.{process_uplink}
use cfs_telemetry_app.Uplink.Process.Gates.{IsAdmitted}
use cfs_telemetry_app.Uplink.Process.Outcome.{process_uplink-Outcome}
use cfs_telemetry_app.Uplink.State.{UplinkApp, Env}
use cfs_telemetry_app.Common.Executive.{saved}
use cfs_telemetry_app.Uplink.Admission.{seq_duplicate, check_sequence, compare_sequence}
use cfs_telemetry_app.Uplink.Persist.{
  encode_state, save_state, load_state, increment_boot_count, judge_boot, process_boot_marker,
}
use cfs_telemetry_app.Uplink.Persist.File.{FitsFile, IsRestored, load_state-IsSaved}
use cfs_telemetry_app.Uplink.Main.{initial, init}

-- The session that starts with the file of `s`; both saves of the start succeed.
pub reboot : Env → ℕ → UplinkApp → UplinkApp
reboot env reset_type s = (init true true env env reset_type s.state_file).0

-- The file is what a save of the state itself would write.
abbrev pub IsSaved : UplinkApp → Type 0
IsSaved s = s.state_file ≡ some (encode_state s)

-- What the next session knows of the one before.
pub record IsNextSession (s t : UplinkApp) : Type 0 where
  pub sequence : t.last_accepted_sequence ≡ s.last_accepted_sequence
  pub armed : t.accepted_count ≡ 1
  pub boots : t.boot_count ≡ u8 (s.boot_count + 1)
  pub not_survived : t.survived_mark ≡ 0
  pub streak :
      t.short_boot_streak ≡ (if s.survived_mark == 0 then min 255 (s.short_boot_streak + 1) else 0)
  pub suspect : t.boot_loop_suspect ≡ (if leb 5 t.short_boot_streak then 1 else 0)
  pub no_health : t.cfs_health_received ≡ false
  pub file : IsSaved t

after_load :
    (env : Env) (reset_type : ℕ) (s t u : UplinkApp)
    → env.save_outcome ≡ saved
    → FitsFile s
    → IsRestored s t u
    → u.cfs_health_received ≡ false
    → IsNextSession s (process_boot_marker env reset_type (increment_boot_count env u))
unfolding process_boot_marker increment_boot_count save_state judge_boot
after_load env reset_type s t u e f r h = record {
  sequence = ground arith;
  armed = ground arith;
  boots = ground arith;
  not_survived = ground arith;
  streak = ground arith;
  suspect = ground arith;
  no_health = ground arith;
  file = rw e refl;
}

load_state-no_health :
    (file : Option (List ℕ))
    → (load_state true (record (initial file) { valid = 1 })).cfs_health_received ≡ false
unfolding load_state
load_state-no_health file = ground arith

-- The next session takes over the replay defence and the boot history of the one before, counts
-- one boot more, and writes its own file. The file is what a save of the state before writes, whose
-- fields have the widths that the file holds, and the saves of the start succeed.
pub reboot-IsNextSession :
    (env : Env) (reset_type : ℕ) (s : UplinkApp)
    → env.save_outcome ≡ saved
    → FitsFile s
    → IsSaved s
    → IsNextSession s (reboot env reset_type s)
unfolding reboot init
reboot-IsNextSession env reset_type s e f h =
    after_load env reset_type s _ _ e f
      (load_state-IsSaved s (record (initial s.state_file) { valid = 1 }) f h refl)
      (load_state-no_health s.state_file)

-- The sequence check gives the same verdict on every sequence before and after a restart, if a
-- command had been accepted before. The file is what a save of the state before writes, whose
-- fields have the widths that the file holds, and the saves of the start succeed.
pub check_sequence-reboot :
    (env : Env) (reset_type sequence : ℕ) (s : UplinkApp)
    → env.save_outcome ≡ saved
    → FitsFile s
    → IsSaved s
    → s.accepted_count ≢ 0
    → check_sequence (reboot env reset_type s) sequence ≡ check_sequence s sequence
unfolding check_sequence
check_sequence-reboot env reset_type sequence s e f h a =
    ground (arith, reboot-IsNextSession env reset_type s e f h)

-- An admitted command that ended with the result ROUTED is a duplicate in the next session too. It
-- is no reset of the application's own counters, its save and those of the start succeed, its
-- sequence has 16 bits, and the fields of the state have the widths that the file holds.
pub replay_after_reboot :
    (env env' : Env) (reset_type : ℕ) (cmd : ProcessUplinkCmd) (s : UplinkApp)
    → IsAdmitted s cmd
    → (process_uplink env cmd s).last_command_result ≡ routed
    → ¬ ((cmd.command_class ≡ class_counter_mgmt) × (byte_at cmd.payload 0 ≡ scope_uplink))
    → env.save_outcome ≡ saved
    → env'.save_outcome ≡ saved
    → cmd.sequence < 65536
    → FitsFile (process_uplink env cmd s)
    → check_sequence (reboot env' reset_type (process_uplink env cmd s)) cmd.sequence
      ≡ seq_duplicate
unfolding check_sequence compare_sequence
replay_after_reboot env env' reset_type cmd s h r other e e' q f =
    elim (process_uplink-Outcome env cmd s h) [
      | inl done ↦
          let next =
            reboot-IsNextSession env' reset_type (process_uplink env cmd s) e' f (done.stored e) in
          ground (arith, next.sequence, next.armed, done.sequence)
      | inr (inl own) ↦ absurd (other (own.class, own.scope))
      | inr (inr refused) ↦ absurd (refused.reports_refusal r)
    ]

-- A series of sessions that all end before the survival mark is set.
pub reboots : List (Env × ℕ) → UplinkApp → UplinkApp
reboots [] s = s
reboots ((env, reset_type) ∷ rest) s = reboots rest (reboot env reset_type s)

abbrev pub AllSaved : List (Env × ℕ) → Type 0
AllSaved = All (λ start. start.0.save_outcome ≡ saved)

next-FitsFile : {s t : UplinkApp} → FitsFile s → IsNextSession s t → FitsFile t
next-FitsFile f n = ground arith

reboots_streak :
    (starts : List (Env × ℕ)) (s : UplinkApp)
    → AllSaved starts
    → FitsFile s
    → IsSaved s
    → s.survived_mark ≡ 0
    → (reboots starts s).short_boot_streak ≡ min 255 (s.short_boot_streak + length starts)
unfolding reboots
reboots_streak [] s e f h m = omega (arith, f.streak)
reboots_streak ((env, reset_type) ∷ rest) s e f h m =
    let n = reboot-IsNextSession env reset_type s e.0 f h in
    ground (
      arith,
      n.streak,
      reboots_streak rest (reboot env reset_type s) e.1 (next-FitsFile f n) n.file n.not_survived,
    )

reboots_suspect :
    (starts : List (Env × ℕ)) (s : UplinkApp)
    → AllSaved starts
    → FitsFile s
    → IsSaved s
    → s.survived_mark ≡ 0
    → s.boot_loop_suspect ≡ (if leb 5 s.short_boot_streak then 1 else 0)
    → (reboots starts s).boot_loop_suspect
      ≡ (if leb 5 (reboots starts s).short_boot_streak then 1 else 0)
unfolding reboots
reboots_suspect [] s e f h m p = p
reboots_suspect ((env, reset_type) ∷ rest) s e f h m p =
    let n = reboot-IsNextSession env reset_type s e.0 f h in
    reboots_suspect rest (reboot env reset_type s) e.1 (next-FitsFile f n) n.file n.not_survived
      n.suspect

-- After k + 1 restarts, each of a session that had not reached the survival mark and each with a
-- successful save, the streak of short boots has grown by k + 1 but not beyond 255, and the boot
-- loop is suspected exactly if the streak is 5 or more. The file is what a save of the first state
-- writes, whose fields have the widths that the file holds.
pub reboots_judged :
    (env : Env) (reset_type : ℕ) (rest : List (Env × ℕ)) (s : UplinkApp)
    → AllSaved ((env, reset_type) ∷ rest)
    → FitsFile s
    → IsSaved s
    → s.survived_mark ≡ 0
    → let t = reboots ((env, reset_type) ∷ rest) s in
      (t.short_boot_streak ≡ min 255 (s.short_boot_streak + length rest + 1))
      × (t.boot_loop_suspect ≡ (if leb 5 (s.short_boot_streak + length rest + 1) then 1 else 0))
unfolding reboots
reboots_judged env reset_type rest s e f h m =
    let n = reboot-IsNextSession env reset_type s e.0 f h in
    let streak =
      reboots_streak rest (reboot env reset_type s) e.1 (next-FitsFile f n) n.file n.not_survived in
    let suspect =
      reboots_suspect rest (reboot env reset_type s) e.1 (next-FitsFile f n) n.file n.not_survived
        n.suspect in
    (ground (arith, streak, n.streak), ground (arith, streak, suspect, n.streak))
