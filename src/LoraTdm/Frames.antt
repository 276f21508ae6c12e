-- ===== src/LoraTdm/Frames.antt =====
-- The binary frames of lora_tdm_app and the state that they change: LORA_TDM_APP_ParseAck2Frame,
-- ParseUp2Frame, ForwardUp2ToUplinkApp, ProcessRxBinaryFrame and UpdateLinkState of
-- lora_tdm_app/fsw/src/lora_tdm_app_utils.c. LORA_TDM_APP_Crc16 has the body of uplink_app's CRC.
pub mod Codec
pub mod Handover
pub mod Link
use cfs_telemetry_app.Common.{
  ℕ, ◌+◌, ◌-◌, ◌/◌, ◌%◌, Bool, true, false, not, ◌||◌, Option, none, some, List, [], ◌∷◌, ◌++◌,
  length, take, drop, byte_at, le16, u8, u16, u32, ltb, leb, ◌==◌, if◌then◌else◌,
}
use cfs_telemetry_app.Uplink.Crc.{crc16}
use cfs_telemetry_app.Uplink.Messages.{ProcessUplinkCmd}
use cfs_telemetry_app.LoraTdm.Receiver.{ack2_magic, up2_magic}

-- LORA_TDM_APP_Up2Decoded_t
pub record Up2Decoded : Type 0 where
  pub version : ℕ
  pub command_class : ℕ
  pub seq : ℕ
  pub flags : ℕ
  pub payload_len : ℕ
  pub payload : List ℕ

-- The link states and the feedback codes that the model writes.
pub data LoraLinkState : Type 0 where
  link_disconnected link_connected link_degraded : LoraLinkState

abbrev pub uplink_fb_ok : ℕ
uplink_fb_ok = 0

abbrev pub uplink_fb_crc_fail : ℕ
uplink_fb_crc_fail = 1

-- The fields of LORA_TDM_APP_Data_t that the reception reads and writes, and the commands that it
-- has passed on to uplink_app, the latest first.
pub record LoraTdmApp : Type 0 where
  pub link_state : LoraLinkState
  pub link_state_initialized : ℕ
  pub last_sent_seq : ℕ  -- uint32
  pub rx_ack_count : ℕ  -- uint32
  pub rx_cmd_count : ℕ  -- uint32
  pub rx_error_count : ℕ  -- uint16
  pub no_ack_count : ℕ  -- uint16
  pub ack_received_this_cycle : Bool
  pub seq_fail_count : ℕ  -- uint16
  pub last_ack_timestamp_ms : ℕ  -- uint32
  pub pending_uplink_feedback : ℕ
  pub forwarded : List ProcessUplinkCmd

abbrev pub word_at : List ℕ → ℕ → ℕ
word_at buf i = le16 (byte_at buf i) (byte_at buf (i + 1))

-- The sequence that the frame echoes, or `none` for LORA_TDM_ACK_INVALID.
unfoldable pub parse_ack2_frame : List ℕ → Option ℕ
parse_ack2_frame buf =
    if ltb (length buf) 5
    then none
    else if not (byte_at buf 0 == ack2_magic)
    then none
    else if not (crc16 (take 3 buf) == word_at buf 3)
    then none
    else some (word_at buf 1)

unfoldable pub parse_up2_frame : List ℕ → Option Up2Decoded
parse_up2_frame buf =
    let plen = byte_at buf 1 in
    if ltb (length buf) 8
    then none
    else if not (byte_at buf 0 == up2_magic)
    then none
    else if ltb (length buf) (7 + plen + 2) || ltb 196 plen
    then none
    else if not (crc16 (take (7 + plen) buf) == word_at buf (7 + plen))
    then none
    else some (record {
      version = byte_at buf 2;
      command_class = byte_at buf 3;
      seq = word_at buf 4;
      flags = byte_at buf 6;
      payload_len = plen;
      payload = take plen (drop 7 buf);
    })

-- The command that uplink_app gets, with a checksum of its own.
unfoldable pub up2_command : Up2Decoded → ProcessUplinkCmd
up2_command d = record {
  version = d.version;
  command_class = d.command_class;
  payload_length = d.payload_len;
  flags = d.flags;
  sequence = d.seq;
  checksum = crc16 (
      d.version
      ∷ d.command_class
      ∷ d.payload_len
      ∷ d.flags
      ∷ d.seq % 256
      ∷ u8 (d.seq / 256)
      ∷ take d.payload_len d.payload);
  payload = take d.payload_len d.payload;
}

-- The status of the transmission is ignored.
unfoldable pub forward_up2_to_uplink_app : Up2Decoded → LoraTdmApp → LoraTdmApp
unfolding up2_command
forward_up2_to_uplink_app d s = record s {
  forwarded = up2_command d ∷ s.forwarded;
  pending_uplink_feedback = uplink_fb_ok;
  rx_cmd_count = u32 (s.rx_cmd_count + 1);
}

-- An ACK2 frame at a time of the clock, by what the parser gives.
unfoldable pub take_ack2 : ℕ → LoraTdmApp → Option ℕ → LoraTdmApp
take_ack2 now s none = record s { rx_error_count = u16 (s.rx_error_count + 1) }
take_ack2 now s (some seq_echo) = record s {
  seq_fail_count =
      if not (u16 seq_echo == u16 s.last_sent_seq)
      then u16 (s.seq_fail_count + 1)
      else s.seq_fail_count;
  rx_ack_count = u32 (s.rx_ack_count + 1);
  no_ack_count = 0;
  ack_received_this_cycle = true;
  last_ack_timestamp_ms = now;
}

unfoldable pub take_up2 : LoraTdmApp → Option Up2Decoded → LoraTdmApp
unfolding forward_up2_to_uplink_app
take_up2 s none = record s {
  pending_uplink_feedback = uplink_fb_crc_fail;
  rx_error_count = u16 (s.rx_error_count + 1);
}
take_up2 s (some d) = forward_up2_to_uplink_app d s

unfoldable pub process_rx_binary_frame : ℕ → List ℕ → LoraTdmApp → LoraTdmApp
process_rx_binary_frame now buf s =
    if length buf == 0
    then s
    else if byte_at buf 0 == ack2_magic
    then take_ack2 now s (parse_ack2_frame buf)
    else if byte_at buf 0 == up2_magic
    then take_up2 s (parse_up2_frame buf)
    else s

-- The end of a receive window.
unfoldable pub end_rx_window : LoraTdmApp → LoraTdmApp
end_rx_window s =
    if not s.ack_received_this_cycle
    then if ltb s.no_ack_count 0xffff
      then record s { no_ack_count = u16 (s.no_ack_count + 1) }
      else s
    else s

-- The time since the last acknowledgement, 0 without one and where the clock has wrapped.
unfoldable pub ack_age : LoraTdmApp → ℕ → ℕ
ack_age s now =
    if s.last_ack_timestamp_ms == 0
    then 0
    else if leb s.last_ack_timestamp_ms now
    then now - s.last_ack_timestamp_ms
    else 0

unfoldable pub update_link_state : ℕ → LoraTdmApp → LoraTdmApp
unfolding ack_age
update_link_state now s = record s {
  link_state =
      if ltb 5000 (ack_age s now)
      then link_disconnected
      else if leb 30 s.no_ack_count
      then link_degraded
      else link_connected;
  link_state_initialized = if s.link_state_initialized == 0 then 1 else s.link_state_initialized;
}
