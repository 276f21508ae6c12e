-- ===== src/Mavlink/Frame/RoundTrip.antt =====
-- The parser reads back what the bridge sends.
use cfs_telemetry_app.Common.{
  ℕ, suc, ◌+◌, ◌*◌, ◌/◌, ◌%◌, ◌<◌, ◌≤◌, ◌≡◌, refl, ap, sym, ◌∙◌, true, false, List, [], ◌∷◌, ◌++◌,
  length, length-append, take-length, u8, leb, ltb, ◌==◌, if◌then◌else◌, le16, arith,
}
use mathlib.Core.List.{append-nil, append_assoc}
use cfs_telemetry_app.Mavlink.Parser.{
  ParseState, wait_stx, got_length, got_incompat, reading_payload, got_crc1, got_crc2, Parser,
  stx_v2, reset_parser, process_received_byte, parse_in, take_payload, add_event, frames_of,
  crc_accumulate, crc_accumulate_all, compute_frame_crc, received_crc,
}
use cfs_telemetry_app.Mavlink.Frame.{system_id, component_id, frame_body, frame_crc, mavlink_frame}

-- The parser before the rest of a payload.
abbrev pub rest_state : List ℕ → ParseState
rest_state [] = got_crc1
rest_state (byte ∷ rest) = reading_payload

abbrev pub at_payload : Parser → List ℕ → List ℕ → Parser
at_payload q pre post = record q {
  payload = pre;
  payload_index = length pre;
  state = rest_state post;
}

with_index :
    (q : Parser) (pre : List ℕ) (i j : ℕ) (st st' : ParseState)
    → i ≡ j
    → st ≡ st'
    → record q { payload = pre; payload_index = i; state = st }
      ≡ record q { payload = pre; payload_index = j; state = st' }
with_index q pre i j st st' e e' = rw (e, e') refl

leb-true : (a b : ℕ) → a ≤ b → leb a b ≡ true
leb-true a b h = ground arith

leb-false : (a b : ℕ) → b < a → leb a b ≡ false
leb-false a b h = ground arith

take_payload-at :
    (q : Parser) (pre : List ℕ) (byte : ℕ) (post : List ℕ)
    → q.payload_len < 256
    → length pre + length (byte ∷ post) ≡ q.payload_len
    → take_payload byte (at_payload q pre (byte ∷ post)) ≡ at_payload q (pre ++ (byte ∷ [])) post
take_payload-at q pre byte [] small l =
    with_index q (pre ++ (byte ∷ [])) _ _ _ _
      (omega (arith, small, l, length-append pre (byte ∷ [])))
      (let e : leb q.payload_len (u8 (length pre + 1)) ≡ true =
          leb-true _ _ (omega (arith, small, l)) in
        rw e refl)
take_payload-at q pre byte (next ∷ post) small l =
    with_index q (pre ++ (byte ∷ [])) _ _ _ _
      (omega (arith, small, l, length-append pre (byte ∷ [])))
      (let e : leb q.payload_len (u8 (length pre + 1)) ≡ false =
          leb-false _ _ (omega (arith, small, l)) in
        rw e refl)

-- The bytes of a payload fill the buffer.
frames_of-payload :
    (q : Parser) (pre post rest : List ℕ)
    → q.payload_len < 256
    → length pre + length post ≡ q.payload_len
    → frames_of (post ++ rest) (at_payload q pre post)
      ≡ frames_of rest (at_payload q (pre ++ post) [])
unfolding frames_of process_received_byte
frames_of-payload q pre [] rest small l =
    ap (λ t. frames_of rest (at_payload q t [])) (sym (append-nil pre))
frames_of-payload q pre (byte ∷ post) rest small l =
    ap (frames_of (post ++ rest)) (take_payload-at q pre byte post small l)
    ∙ frames_of-payload q (pre ++ (byte ∷ [])) post rest small
        (omega (arith, l, length-append pre (byte ∷ [])))
    ∙ ap (λ t. frames_of rest (at_payload q t [])) (append_assoc pre (byte ∷ []) post)

-- The parser between the start of a frame and its length.
abbrev pub started : Parser
started = record reset_parser { is_v2 = true; state = got_length }

abbrev pub with_length : ℕ → Parser
with_length len = record started { payload_len = len; state = got_incompat }

frames_of-stx :
    (p : Parser) (bytes : List ℕ)
    → p.state ≡ wait_stx
    → frames_of (stx_v2 ∷ bytes) p ≡ frames_of bytes started
unfolding frames_of process_received_byte
frames_of-stx p bytes e =
    ap (λ st. let r = parse_in st stx_v2 p in add_event r.1 (frames_of bytes r.0)) e

frames_of-length :
    (len : ℕ) (bytes : List ℕ)
    → len < 256
    → frames_of (len ∷ bytes) started ≡ frames_of bytes (with_length len)
unfolding frames_of process_received_byte
frames_of-length len bytes small = let e : ltb 255 len ≡ false = ground arith in rw e refl

-- The parser after the header.
abbrev pub with_header : ℕ → ℕ → ℕ → Parser
with_header seq msg_id len = record (with_length len) {
  seq = seq;
  sys_id = system_id;
  comp_id = component_id;
  msg_id = msg_id;
}

header_state :
    (payload : List ℕ)
    → (if length payload == 0 then got_crc1 else reading_payload) ≡ rest_state payload
header_state [] = refl
header_state (byte ∷ rest) = let e : (suc (length rest) == 0) ≡ false = ground arith in rw e refl

msg_id-bytes : (m : ℕ) → m < 16777216 → m % 256 + m / 256 % 256 * 256 + m / 65536 % 256 * 65536 ≡ m
msg_id-bytes m h = omega arith

frames_of-header :
    (seq msg_id : ℕ) (payload bytes : List ℕ)
    → msg_id < 16777216
    → frames_of
        (0
          ∷ 0
          ∷ seq
          ∷ system_id
          ∷ component_id
          ∷ msg_id % 256
          ∷ msg_id / 256 % 256
          ∷ msg_id / 65536 % 256
          ∷ bytes)
        (with_length (length payload))
      ≡ frames_of bytes (at_payload (with_header seq msg_id (length payload)) [] payload)
unfolding frames_of process_received_byte
frames_of-header seq msg_id payload bytes h =
    ap
      (λ st.
        frames_of bytes
          (record (with_header seq
            (msg_id % 256 + msg_id / 256 % 256 * 256 + msg_id / 65536 % 256 * 65536)
            (length payload)) { state = st }))
      (header_state payload)
    ∙ ap (λ m. frames_of bytes (at_payload (with_header seq m (length payload)) [] payload))
        (msg_id-bytes msg_id h)

-- The frame that the parser makes of a frame of the bridge.
abbrev pub parsed : ℕ → ℕ → List ℕ → ℕ → Parser
parsed seq msg_id payload crc =
    record (at_payload (with_header seq msg_id (length payload)) payload []) {
      crc_low = crc % 256;
      crc_high = crc / 256 % 256;
      state = got_crc2;
    }

pub frames_of-mavlink_frame :
    (seq msg_id crc_extra : ℕ) (payload rest : List ℕ) (p : Parser)
    → p.state ≡ wait_stx
    → length payload < 256
    → msg_id < 16777216
    → frames_of (mavlink_frame seq msg_id payload crc_extra ++ rest) p
      ≡ parsed seq msg_id payload (frame_crc seq msg_id payload crc_extra)
        ∷ frames_of rest reset_parser
unfolding mavlink_frame frames_of process_received_byte
frames_of-mavlink_frame seq msg_id crc_extra payload rest p e small h =
    let crc = frame_crc seq msg_id payload crc_extra in
    let check_bytes : List ℕ = crc % 256 ∷ crc / 256 % 256 ∷ [] in
    let q = with_header seq msg_id (length payload) in
    let tail : List ℕ = (payload ++ check_bytes) ++ rest in
    let header : List ℕ =
      0
      ∷ 0
      ∷ seq
      ∷ system_id
      ∷ component_id
      ∷ msg_id % 256
      ∷ msg_id / 256 % 256
      ∷ msg_id / 65536 % 256
      ∷ tail in
    frames_of-stx p (length payload ∷ header) e
    ∙ frames_of-length (length payload) header small
    ∙ frames_of-header seq msg_id payload tail h
    ∙ ap (λ t. frames_of t (at_payload q [] payload)) (append_assoc payload check_bytes rest)
    ∙ frames_of-payload q [] payload (check_bytes ++ rest) small (omega arith)

crc_accumulate-word : (byte crc : ℕ) → crc_accumulate byte crc < 65536
unfolding crc_accumulate
crc_accumulate-word byte crc = omega arith

crc_accumulate_all-word :
    (bytes : List ℕ) (crc : ℕ) → crc < 65536 → crc_accumulate_all bytes crc < 65536
unfolding crc_accumulate_all
crc_accumulate_all-word [] crc h = h
crc_accumulate_all-word (byte ∷ rest) crc h =
    crc_accumulate_all-word rest (crc_accumulate byte crc) (crc_accumulate-word byte crc)

word_bytes : (w : ℕ) → w < 65536 → w ≡ le16 (w % 256) (w / 256 % 256)
word_bytes w h = omega arith

pub parsed-crc :
    (seq msg_id crc_extra : ℕ) (payload : List ℕ)
    → let q = parsed seq msg_id payload (frame_crc seq msg_id payload crc_extra) in
      compute_frame_crc q crc_extra ≡ received_crc q
unfolding compute_frame_crc frame_crc
parsed-crc seq msg_id crc_extra payload =
    let body : List ℕ = frame_body seq msg_id payload ++ (crc_extra ∷ []) in
    ap
      (λ t.
        crc_accumulate_all
          (length payload
            ∷ 0
            ∷ 0
            ∷ seq
            ∷ system_id
            ∷ component_id
            ∷ msg_id % 256
            ∷ msg_id / 256 % 256
            ∷ msg_id / 65536 % 256
            ∷ (t ++ (crc_extra ∷ [])))
          0xffff)
      (take-length payload)
    ∙ word_bytes (crc_accumulate_all body 0xffff)
        (crc_accumulate_all-word body 0xffff (omega arith))

-- A frame that the bridge sends, with any sequence, message id of 24 bits and payload of at most 255
-- bytes, is one frame for the same parser where it waits for the start of a frame: it has the id, the
-- sequence and the payload that were sent, its checksum is the one that the parser computes, and what
-- follows it is read as from the start.
pub frames_of-sent :
    (seq msg_id crc_extra : ℕ) (payload rest : List ℕ) (p : Parser)
    → p.state ≡ wait_stx
    → length payload < 256
    → msg_id < 16777216
    → (q : Parser) × (frames_of (mavlink_frame seq msg_id payload crc_extra ++ rest) p
        ≡ q ∷ frames_of rest reset_parser)
      × (q.msg_id ≡ msg_id)
      × (q.seq ≡ seq)
      × (q.payload ≡ payload)
      × (compute_frame_crc q crc_extra ≡ received_crc q)
frames_of-sent seq msg_id crc_extra payload rest p e small h = (
  parsed seq msg_id payload (frame_crc seq msg_id payload crc_extra),
  frames_of-mavlink_frame seq msg_id crc_extra payload rest p e small h,
  refl,
  refl,
  refl,
  parsed-crc seq msg_id crc_extra payload,
)
