-- ===== src/LoraTdm/Frames/Link.antt =====
-- The link state of lora_tdm_app over windows without an acknowledgement.
use mathlib.Core.Path.{subst}
use Prim.Native.Nat.{min}
use cfs_telemetry_app.Common.{
  [], ◌∷◌, ◌∙◌, length, byte_at, ℕ, ◌+◌, ◌-◌, ◌≤◌, ◌<◌, ◌≡◌, ◌≢◌, refl, false, some, List,
  if◌then◌else◌, ltb, leb, arith,
}
use cfs_telemetry_app.LoraTdm.Receiver.{ack2_magic}
use cfs_telemetry_app.LoraTdm.Frames.{
  LoraTdmApp, link_disconnected, link_degraded, link_connected, parse_ack2_frame, take_ack2,
  process_rx_binary_frame, end_rx_window, ack_age, update_link_state,
}

-- A cycle in which no acknowledgement arrives: the window starts with the flag cleared.
pub silent_cycle : ℕ → LoraTdmApp → LoraTdmApp
silent_cycle now s =
    update_link_state now (end_rx_window (record s { ack_received_this_cycle = false }))

pub silent_cycles : List ℕ → LoraTdmApp → LoraTdmApp
silent_cycles [] s = s
silent_cycles (now ∷ times) s = silent_cycles times (silent_cycle now s)

silent_cycle-no_ack :
    (now : ℕ) (s : LoraTdmApp)
    → s.no_ack_count < 65536
    → ((silent_cycle now s).no_ack_count ≡ min 65535 (s.no_ack_count + 1))
      × ((silent_cycle now s).last_ack_timestamp_ms ≡ s.last_ack_timestamp_ms)
unfolding silent_cycle update_link_state end_rx_window
silent_cycle-no_ack now s h = (ground arith, ground arith)

silent_cycles-no_ack :
    (times : List ℕ) (s : LoraTdmApp)
    → s.no_ack_count < 65536
    → ((silent_cycles times s).no_ack_count ≡ min 65535 (s.no_ack_count + length times))
      × ((silent_cycles times s).last_ack_timestamp_ms ≡ s.last_ack_timestamp_ms)
unfolding silent_cycles
silent_cycles-no_ack [] s h = (omega (arith, h), refl)
silent_cycles-no_ack (now ∷ times) s h =
    let first = silent_cycle-no_ack now s h in
    let rest = silent_cycles-no_ack times (silent_cycle now s) (omega (arith, first.0)) in
    (omega (arith, rest.0, first.0), rest.1 ∙ first.1)

-- The state after a cycle without an acknowledgement, by the count and the age before it.
silent_cycle-link :
    (now : ℕ) (s : LoraTdmApp)
    → s.no_ack_count < 65536
    → s.last_ack_timestamp_ms ≢ 0
    → s.last_ack_timestamp_ms ≤ now
    → (silent_cycle now s).link_state ≡ (
        if ltb 5000 (now - s.last_ack_timestamp_ms)
        then link_disconnected
        else if leb 30 (s.no_ack_count + 1)
        then link_degraded
        else link_connected)
unfolding silent_cycle update_link_state end_rx_window ack_age
silent_cycle-link now s h sync order = ground arith

process_rx_binary_frame-acked :
    (acked : ℕ) (buf : List ℕ) (echo : ℕ) (s : LoraTdmApp)
    → byte_at buf 0 ≡ ack2_magic
    → parse_ack2_frame buf ≡ some echo
    → ((process_rx_binary_frame acked buf s).no_ack_count ≡ 0)
      × ((process_rx_binary_frame acked buf s).last_ack_timestamp_ms ≡ acked)
unfolding process_rx_binary_frame take_ack2
process_rx_binary_frame-acked acked [] echo s magic h = absurd (omega (arith, magic))
process_rx_binary_frame-acked acked (byte ∷ bytes) echo s magic h =
    let e : parse_ack2_frame (ack2_magic ∷ bytes) ≡ some echo =
      subst (λ first. parse_ack2_frame (first ∷ bytes) ≡ some echo) magic h in
    rw (magic, e) (ground arith, ground arith)

-- An intact ACK2 frame at a time that is not 0 starts the count of silent cycles anew. After it,
-- at the end of a series of cycles without an acknowledgement whose last one ends at `now`, the
-- link is DISCONNECTED if the frame is more than 5000 ms old; else it is DEGRADED from the 30th
-- cycle on, and CONNECTED before. The clock does not wrap in between.
pub process_rx_binary_frame-silence :
    (buf : List ℕ) (echo acked now : ℕ) (times : List ℕ) (s : LoraTdmApp)
    → byte_at buf 0 ≡ ack2_magic
    → parse_ack2_frame buf ≡ some echo
    → acked ≢ 0
    → acked ≤ now
    → (silent_cycle now (silent_cycles times (process_rx_binary_frame acked buf s))).link_state ≡ (
        if ltb 5000 (now - acked)
        then link_disconnected
        else if leb 30 (length times + 1)
        then link_degraded
        else link_connected)
process_rx_binary_frame-silence buf echo acked now times s magic h sync order =
    let start = process_rx_binary_frame acked buf s in
    let fresh = process_rx_binary_frame-acked acked buf echo s magic h in
    let later = silent_cycles-no_ack times start (omega (arith, fresh.0)) in
    ground (
      arith,
      silent_cycle-link now (silent_cycles times start) (omega (arith, later.0))
          (λ e. sync (omega (arith, later.1, fresh.1, e))) (omega (arith, later.1, fresh.1)),
      later,
      fresh,
    )
