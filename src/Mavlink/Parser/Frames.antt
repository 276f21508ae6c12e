-- ===== src/Mavlink/Parser/Frames.antt =====
-- The states that the parser can be in, and the frames that it completes.
use cfs_telemetry_app.Common.{
  ℕ, ◌<◌, ◌≡◌, refl, ◌+◌, List, [], ◌∷◌, All, length, length-append, u8, leb, ◌==◌, ltb, if_cases,
  arith, sym, ◌∙◌,
}
use mathlib.Core.Path.{subst}
use cfs_telemetry_app.Mavlink.Parser.{
  ParseState, wait_stx, got_length, got_incompat, got_compat, got_seq, got_sysid, got_compid,
  got_msgid1, got_msgid2, got_msgid3, reading_payload, got_crc1, got_crc2, Parser, ParseEvent,
  no_event, length_error, frame_complete, process_received_byte, parse_in, take_payload, add_event,
  frames_of, take_stx, take_length, stx_v1, stx_v2, reset_parser, max_payload_len, after_header,
}

-- How much of the payload has been read in each state.
abbrev pub IsPhase : ParseState → Parser → Type 0
IsPhase wait_stx p = Unit
IsPhase reading_payload p = p.payload_index < p.payload_len
IsPhase got_crc1 p = p.payload_index ≡ p.payload_len
IsPhase got_crc2 p = p.payload_index ≡ p.payload_len
IsPhase _ p = p.payload_index ≡ 0

abbrev pub IsParserIn : ParseState → Parser → Type 0
IsParserIn st p = (p.payload_len < 256) × (p.payload_index ≡ length p.payload) × IsPhase st p

abbrev pub IsParser : Parser → Type 0
IsParser p = IsParserIn p.state p

-- A frame whose payload is as long as its header says.
abbrev pub IsWhole : Parser → Type 0
IsWhole p = (p.payload_len < 256) × (length p.payload ≡ p.payload_len)

abbrev pub IsWholeEvent : ParseEvent → Type 0
IsWholeEvent (frame_complete p) = IsWhole p
IsWholeEvent no_event = Unit
IsWholeEvent length_error = Unit

abbrev Hands : Parser × ParseEvent → Type 0
Hands r = IsWholeEvent r.1

abbrev Stays : Parser × ParseEvent → Type 0
Stays r = IsParser r.0

reset_parser-IsParser : IsParser reset_parser
reset_parser-IsParser = (omega arith, refl, tt)

module _ (byte : ℕ) (small : byte < 256) (p : Parser) where
  take_stx-IsParser : wait_stx ≡ p.state → IsParserIn wait_stx p → IsParser (take_stx byte p).0
  take_stx-IsParser e k =
      if_cases Stays (byte == stx_v1) _ _ (λ _. (omega arith, refl, refl))
        (λ _.
          if_cases Stays (byte == stx_v2) _ _ (λ _. (omega arith, refl, refl))
            (λ _. subst (λ st. IsParserIn st p) e k))

  take_length-IsParser : IsParserIn got_length p → IsParser (take_length byte p).0
  take_length-IsParser k =
      if_cases Stays (ltb max_payload_len byte) _ _ (λ _. reset_parser-IsParser)
        (λ _. if_cases Stays p.is_v2 _ _ (λ _. (small, k.1, k.2)) (λ _. (small, k.1, k.2)))

  after_header-IsPhase : (q : Parser) → q.payload_index ≡ 0 → IsPhase (after_header q) q
  after_header-IsPhase q e =
      if_cases (λ st. IsPhase st q) (q.payload_len == 0) got_crc1 reading_payload
        (λ h. ground arith) (λ h. ground arith)

  take_payload-IsParser : IsParserIn reading_payload p → IsParser (take_payload byte p)
  take_payload-IsParser k =
      let q = take_payload byte p in
      let whole : q.payload_index ≡ length q.payload =
        omega (arith, length-append p.payload (byte ∷ []), k) in
      let phase : IsPhase q.state q =
        if_cases (λ st. IsPhase st q) (leb p.payload_len (u8 (p.payload_index + 1))) got_crc1
          reading_payload (λ h. ground arith) (λ h. ground arith) in
      (k.0, whole, phase)

  -- The cases of the switch.
  parse_in-IsParser :
      (st : ParseState) → st ≡ p.state → IsParserIn st p → IsParser (parse_in st byte p).0
  parse_in-IsParser wait_stx e k = take_stx-IsParser e k
  parse_in-IsParser got_length e k = take_length-IsParser k
  parse_in-IsParser got_incompat e k = k
  parse_in-IsParser got_compat e k = k
  parse_in-IsParser got_seq e k = k
  parse_in-IsParser got_sysid e k = k
  parse_in-IsParser got_compid e k = k
  parse_in-IsParser got_msgid1 e k =
      let q = (parse_in got_msgid1 byte p).0 in
      let phase : IsPhase q.state q =
        if_cases (λ st. IsPhase st q) p.is_v2 got_msgid2 (after_header q) (λ _. k.2)
          (λ _. after_header-IsPhase q k.2) in
      (k.0, k.1, phase)
  parse_in-IsParser got_msgid2 e k = k
  parse_in-IsParser got_msgid3 e k =
      (k.0, k.1, after_header-IsPhase (parse_in got_msgid3 byte p).0 k.2)
  parse_in-IsParser reading_payload e k = take_payload-IsParser k
  parse_in-IsParser got_crc1 e k = k
  parse_in-IsParser got_crc2 e k = reset_parser-IsParser

pub process_received_byte-IsParser :
    (byte : ℕ) (p : Parser) → byte < 256 → IsParser p → IsParser (process_received_byte byte p).0
unfolding process_received_byte
process_received_byte-IsParser byte p small k = parse_in-IsParser byte small p p.state refl k

-- A frame is handed on only with its whole payload.
parse_in-IsWholeEvent :
    (byte : ℕ) (p : Parser) (st : ParseState)
    → IsParserIn st p
    → IsWholeEvent (parse_in st byte p).1
parse_in-IsWholeEvent byte p wait_stx k =
    if_cases Hands (byte == stx_v1) _ _ (λ _. tt)
      (λ _. if_cases Hands (byte == stx_v2) _ _ (λ _. tt) (λ _. tt))
parse_in-IsWholeEvent byte p got_length k =
    if_cases Hands (ltb max_payload_len byte) _ _ (λ _. tt)
      (λ _. if_cases Hands p.is_v2 _ _ (λ _. tt) (λ _. tt))
parse_in-IsWholeEvent byte p got_crc2 k = (k.0, sym k.1 ∙ k.2)
parse_in-IsWholeEvent byte p got_incompat k = tt
parse_in-IsWholeEvent byte p got_compat k = tt
parse_in-IsWholeEvent byte p got_seq k = tt
parse_in-IsWholeEvent byte p got_sysid k = tt
parse_in-IsWholeEvent byte p got_compid k = tt
parse_in-IsWholeEvent byte p got_msgid1 k = tt
parse_in-IsWholeEvent byte p got_msgid2 k = tt
parse_in-IsWholeEvent byte p got_msgid3 k = tt
parse_in-IsWholeEvent byte p reading_payload k = tt
parse_in-IsWholeEvent byte p got_crc1 k = tt

add_event-All :
    (event : ParseEvent) (frames : List Parser)
    → IsWholeEvent event
    → All IsWhole frames
    → All IsWhole (add_event event frames)
add_event-All no_event frames w k = k
add_event-All length_error frames w k = k
add_event-All (frame_complete p) frames w k = (w, k)

-- Whatever bytes arrive, from a boundary of frames or inside one, each frame that the parser hands on
-- has a payload of at most 255 bytes, and as many of them as its header says.
pub frames_of-IsWhole :
    (bytes : List ℕ) (p : Parser)
    → All (λ b. b < 256) bytes
    → IsParser p
    → All IsWhole (frames_of bytes p)
unfolding frames_of process_received_byte
frames_of-IsWhole [] p small k = tt
frames_of-IsWhole (byte ∷ rest) p small k =
    let (p', event) = process_received_byte byte p in
    add_event-All event (frames_of rest p') (parse_in-IsWholeEvent byte p p.state k)
      (frames_of-IsWhole rest p' small.1 (process_received_byte-IsParser byte p small.0 k))
