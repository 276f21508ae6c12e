-- ===== src/LoraTdm/Tests.antt =====
-- Runs of the theorems about lora_tdm_app.
use cfs_telemetry_app.Common.{
  ℕ, ◌≤◌, ◌<◌, ◌≡◌, ◌⊎◌, ◌↔◌, refl, false, none, some, List, [], ◌∷◌, ◌++◌, arith,
}
use cfs_telemetry_app.Uplink.Crc.{crc16}
use cfs_telemetry_app.Uplink.Messages.{accept}
use cfs_telemetry_app.Uplink.Admission.{validate_proxy_command}
use cfs_telemetry_app.LoraTdm.Receiver.{rx_none, Receiver, receive}
use cfs_telemetry_app.LoraTdm.Receiver.Delivery.{
  RadioFrame, ack2, up2, IsIdle, stream, deliveries, receive-stream,
}
use cfs_telemetry_app.LoraTdm.Frames.{
  Up2Decoded, LoraTdmApp, link_connected, parse_ack2_frame, parse_up2_frame, up2_command,
  process_rx_binary_frame,
}
use cfs_telemetry_app.LoraTdm.Frames.Codec.{
  encode_up2, parse_up2_frame-encode_up2, parse_up2_frame_damaged,
}
use cfs_telemetry_app.LoraTdm.Frames.Handover.{up2_command-validate}
use cfs_telemetry_app.LoraTdm.Frames.Link.{
  silent_cycle, silent_cycles, process_rx_binary_frame-silence,
}

abbrev receiver : Receiver
receiver = record { buf = []; mode = rx_none; target_len = 0 }

-- An acknowledgement of the downlink 5.
abbrev ack_bytes : List ℕ
ack_bytes = 162 ∷ 5 ∷ 0 ∷ 149 ∷ 224 ∷ []

-- A counter management command, and its frame.
abbrev decoded : Up2Decoded
decoded = record {
  version = 1;
  command_class = 7;
  seq = 9;
  flags = 0xc0;
  payload_len = 6;
  payload = 3 ∷ 0 ∷ 68 ∷ 51 ∷ 34 ∷ 17 ∷ [];
}

abbrev up2_bytes : List ℕ
up2_bytes = 178 ∷ 6 ∷ 1 ∷ 7 ∷ 9 ∷ 0 ∷ 192 ∷ 3 ∷ 0 ∷ 68 ∷ 51 ∷ 34 ∷ 17 ∷ 30 ∷ 195 ∷ []

abbrev frames : List RadioFrame
frames =
    ack2 (5 ∷ 0 ∷ 149 ∷ 224 ∷ [])
    ∷ up2 6 (1 ∷ 7 ∷ 9 ∷ 0 ∷ 192 ∷ 3 ∷ 0 ∷ 68 ∷ 51 ∷ 34 ∷ 17 ∷ 30 ∷ 195 ∷ [])
    ∷ []

receive-stream_example :
    IsIdle (receive (stream frames) receiver).0
    × ((receive (stream frames) receiver).1 ≡ deliveries frames)
receive-stream_example =
    receive-stream frames receiver (refl, ((omega arith, refl), tt)) (refl, refl)

parse_up2_frame-encode_up2_example : parse_up2_frame (encode_up2 decoded ++ 0 ∷ []) ≡ some decoded
parse_up2_frame-encode_up2_example =
    parse_up2_frame-encode_up2 decoded (0 ∷ []) refl (omega arith) (omega arith)

up2_parses : parse_up2_frame up2_bytes ≡ some decoded
unfolding parse_up2_frame crc16
up2_parses = refl

-- The class 8 in place of 7.
parse_up2_frame_damaged_example :
    parse_up2_frame (178 ∷ 6 ∷ 1 ∷ 8 ∷ 9 ∷ 0 ∷ 192 ∷ 3 ∷ 0 ∷ 68 ∷ 51 ∷ 34 ∷ 17 ∷ 30 ∷ 195 ∷ [])
    ≡ none
parse_up2_frame_damaged_example =
    parse_up2_frame_damaged (178 ∷ 6 ∷ 1 ∷ [])
      (9 ∷ 0 ∷ 192 ∷ 3 ∷ 0 ∷ 68 ∷ 51 ∷ 34 ∷ 17 ∷ 30 ∷ 195 ∷ []) 7 8 decoded up2_parses (omega arith)
      (omega arith) (omega arith) (omega arith) (omega arith)

up2_command-validate_example : (validate_proxy_command (up2_command decoded) ≡ accept) ↔ (
    (decoded.version ≡ 1)
    × (1 ≤ decoded.command_class)
    × (decoded.command_class ≤ 8)
    × ((decoded.command_class ≡ 2) ⊎ (decoded.command_class ≡ 3) → 0 < decoded.payload_len))
up2_command-validate_example = up2_command-validate up2_bytes decoded up2_parses

abbrev app : LoraTdmApp
app = record {
  link_state = link_connected;
  link_state_initialized = 1;
  last_sent_seq = 5;
  rx_ack_count = 0;
  rx_cmd_count = 0;
  rx_error_count = 0;
  no_ack_count = 3;
  ack_received_this_cycle = false;
  seq_fail_count = 0;
  last_ack_timestamp_ms = 0;
  pending_uplink_feedback = 0;
  forwarded = [];
}

-- Two silent cycles of 100 ms.
process_rx_binary_frame-silence_example :
    (silent_cycle 1200
      (silent_cycles (1100 ∷ []) (process_rx_binary_frame 1000 ack_bytes app))).link_state
    ≡ link_connected
process_rx_binary_frame-silence_example =
    process_rx_binary_frame-silence ack_bytes 5 1000 1200 (1100 ∷ []) app refl
      (unfold parse_ack2_frame crc16 in refl) (omega arith) (omega arith)
