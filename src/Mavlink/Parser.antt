-- ===== src/Mavlink/Parser.antt =====
-- The parser of MAVLink frames: MAVLINK_BRIDGE_APP_ProcessReceivedByte, ResetParser,
-- CrcAccumulate and ComputeFrameCrc (mavlink_bridge_app/fsw/src/mavlink_bridge_app_utils.c).
pub mod Frames
pub mod Termination
use Prim.Native.Nat.{bit_xor}
use cfs_telemetry_app.Common.{
  ℕ, ◌+◌, ◌*◌, ◌/◌, ◌%◌, Bool, true, false, List, [], ◌∷◌, ◌++◌, ◌==◌, ltb, leb, if◌then◌else◌,
  take, u8, u16, le16,
}

-- MAVLINK_BRIDGE_APP_ParseState_t
pub data ParseState : Type 0 where
  wait_stx got_length got_incompat got_compat got_seq got_sysid got_compid : ParseState
  got_msgid1 got_msgid2 got_msgid3 reading_payload got_crc1 got_crc2 : ParseState

-- MAVLINK_BRIDGE_APP_ParserContext_t. The array of the payload is zero when a frame begins, so it is
-- the list of the bytes that were written, and a read beyond them gives 0.
pub record Parser : Type 0 where
  pub state : ParseState
  pub is_v2 : Bool
  pub payload_len : ℕ  -- uint8
  pub payload_index : ℕ  -- uint8
  pub seq : ℕ
  pub sys_id : ℕ
  pub comp_id : ℕ
  pub msg_id : ℕ
  pub crc_low : ℕ
  pub crc_high : ℕ
  pub payload : List ℕ

abbrev pub stx_v1 : ℕ
stx_v1 = 0xfe

abbrev pub stx_v2 : ℕ
stx_v2 = 0xfd

abbrev pub max_payload_len : ℕ
max_payload_len = 255

abbrev pub reset_parser : Parser
reset_parser = record {
  state = wait_stx;
  is_v2 = false;
  payload_len = 0;
  payload_index = 0;
  seq = 0;
  sys_id = 0;
  comp_id = 0;
  msg_id = 0;
  crc_low = 0;
  crc_high = 0;
  payload = [];
}

-- What a byte makes the function do beside its own state: nothing, RecordParseError, or
-- HandleFrameComplete on the frame in the parser.
pub data ParseEvent : Type 0 where
  no_event length_error : ParseEvent
  frame_complete : Parser → ParseEvent

-- The state after the last byte of the header.
abbrev pub after_header : Parser → ParseState
after_header p = if p.payload_len == 0 then got_crc1 else reading_payload

abbrev pub take_stx : ℕ → Parser → Parser × ParseEvent
take_stx byte p =
    if byte == stx_v1
    then (record reset_parser { is_v2 = false; state = got_length }, no_event)
    else if byte == stx_v2
    then (record reset_parser { is_v2 = true; state = got_length }, no_event)
    else (p, no_event)

abbrev pub take_length : ℕ → Parser → Parser × ParseEvent
take_length byte p =
    if ltb max_payload_len byte
    then (reset_parser, length_error)
    else if p.is_v2
    then (record p { payload_len = byte; state = got_incompat }, no_event)
    else (record p { payload_len = byte; state = got_seq }, no_event)

abbrev pub take_payload : ℕ → Parser → Parser
take_payload byte p =
    let i = u8 (p.payload_index + 1) in
    record p {
      payload = p.payload ++ (byte ∷ []);
      payload_index = i;
      state = if leb p.payload_len i then got_crc1 else reading_payload;
    }

-- The switch over the state; the bytes of the id are disjoint fields.
abbrev pub parse_in : ParseState → ℕ → Parser → Parser × ParseEvent
parse_in wait_stx byte p = take_stx byte p
parse_in got_length byte p = take_length byte p
parse_in got_incompat byte p = (record p { state = got_compat }, no_event)
parse_in got_compat byte p = (record p { state = got_seq }, no_event)
parse_in got_seq byte p = (record p { seq = byte; state = got_sysid }, no_event)
parse_in got_sysid byte p = (record p { sys_id = byte; state = got_compid }, no_event)
parse_in got_compid byte p = (record p { comp_id = byte; state = got_msgid1 }, no_event)
parse_in got_msgid1 byte p =
    (record p { msg_id = byte; state = if p.is_v2 then got_msgid2 else after_header p }, no_event)
parse_in got_msgid2 byte p =
    (record p { msg_id = p.msg_id + byte * 256; state = got_msgid3 }, no_event)
parse_in got_msgid3 byte p =
    (record p { msg_id = p.msg_id + byte * 65536; state = after_header p }, no_event)
parse_in reading_payload byte p = (take_payload byte p, no_event)
parse_in got_crc1 byte p = (record p { crc_low = byte; state = got_crc2 }, no_event)
parse_in got_crc2 byte p = (reset_parser, frame_complete (record p { crc_high = byte }))

-- MAVLINK_BRIDGE_APP_ProcessReceivedByte
unfoldable pub process_received_byte : ℕ → Parser → Parser × ParseEvent
process_received_byte byte p = parse_in p.state byte p

-- The state of the parser after some bytes.
unfoldable pub parse_bytes : List ℕ → Parser → Parser
unfolding process_received_byte
parse_bytes [] p = p
parse_bytes (byte ∷ rest) p = parse_bytes rest (process_received_byte byte p).0

abbrev pub add_event : ParseEvent → List Parser → List Parser
add_event no_event frames = frames
add_event length_error frames = frames
add_event (frame_complete p) frames = p ∷ frames

-- The frames that some bytes complete, in their order.
unfoldable pub frames_of : List ℕ → Parser → List Parser
unfolding process_received_byte
frames_of [] p = []
frames_of (byte ∷ rest) p =
    let (p', event) = process_received_byte byte p in add_event event (frames_of rest p')

-- MAVLINK_BRIDGE_APP_CrcAccumulate; a shift to the left of a uint8 is cut to 8 bits where it is
-- assigned to one.
unfoldable pub crc_accumulate : ℕ → ℕ → ℕ
crc_accumulate byte crc =
    let tmp = bit_xor byte (crc % 256) in
    let tmp' = bit_xor tmp (u8 (tmp * 16)) in
    u16 (bit_xor (bit_xor (bit_xor (crc / 256) (tmp' * 256)) (tmp' * 8)) (tmp' / 16))

unfoldable pub crc_accumulate_all : List ℕ → ℕ → ℕ
unfolding crc_accumulate
crc_accumulate_all [] crc = crc
crc_accumulate_all (byte ∷ rest) crc = crc_accumulate_all rest (crc_accumulate byte crc)

-- The bytes that ComputeFrameCrc accumulates; the two flags of a v2 frame count as 0.
abbrev pub crc_bytes : Parser → ℕ → List ℕ
crc_bytes p crc_extra =
    (p.payload_len ∷ [])
    ++ (if p.is_v2 then 0 ∷ 0 ∷ [] else [])
    ++ (p.seq ∷ p.sys_id ∷ p.comp_id ∷ p.msg_id % 256 ∷ [])
    ++ (if p.is_v2 then p.msg_id / 256 % 256 ∷ p.msg_id / 65536 % 256 ∷ [] else [])
    ++ take p.payload_len p.payload
    ++ (crc_extra ∷ [])

unfoldable pub compute_frame_crc : Parser → ℕ → ℕ
compute_frame_crc p crc_extra = crc_accumulate_all (crc_bytes p crc_extra) 0xffff

abbrev pub received_crc : Parser → ℕ
received_crc p = le16 p.crc_low p.crc_high
