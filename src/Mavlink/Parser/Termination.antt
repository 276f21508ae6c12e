-- ===== src/Mavlink/Parser/Termination.antt =====
-- The parser comes back to a boundary of frames.
use cfs_telemetry_app.Common.{
  ℕ, zero, suc, ◌+◌, ◌-◌, ◌<◌, ◌≤◌, ◌≡◌, ◌⊎◌, inl, inr, refl, List, [], ◌∷◌, All, length, take, u8,
  leb, ltb, ◌==◌, if_cases, arith,
}
use cfs_telemetry_app.Mavlink.Parser.{
  ParseState, wait_stx, got_length, got_incompat, got_compat, got_seq, got_sysid, got_compid,
  got_msgid1, got_msgid2, got_msgid3, reading_payload, got_crc1, got_crc2, Parser, ParseEvent,
  process_received_byte, parse_in, take_payload, parse_bytes, take_length, max_payload_len,
  after_header,
}
use cfs_telemetry_app.Mavlink.Parser.Frames.{IsParserIn, IsParser, process_received_byte-IsParser}

-- An upper bound of the bytes that the frame still takes; a length is not yet known to be below 255.
abbrev budget_in : ParseState → Parser → ℕ
budget_in wait_stx p = 0
budget_in got_length p = 266
budget_in got_incompat p = p.payload_len + 10
budget_in got_compat p = p.payload_len + 9
budget_in got_seq p = p.payload_len + 8
budget_in got_sysid p = p.payload_len + 7
budget_in got_compid p = p.payload_len + 6
budget_in got_msgid1 p = p.payload_len + 5
budget_in got_msgid2 p = p.payload_len + 4
budget_in got_msgid3 p = p.payload_len + 3
budget_in reading_payload p = p.payload_len - p.payload_index + 2
budget_in got_crc1 p = 2
budget_in got_crc2 p = 1

abbrev budget : Parser → ℕ
budget p = budget_in p.state p

budget_in-bound : (st : ParseState) (p : Parser) → IsParserIn st p → budget_in st p ≤ 266
budget_in-bound wait_stx p k = omega arith
budget_in-bound got_length p k = omega arith
budget_in-bound got_incompat p k = omega (arith, k)
budget_in-bound got_compat p k = omega (arith, k)
budget_in-bound got_seq p k = omega (arith, k)
budget_in-bound got_sysid p k = omega (arith, k)
budget_in-bound got_compid p k = omega (arith, k)
budget_in-bound got_msgid1 p k = omega (arith, k)
budget_in-bound got_msgid2 p k = omega (arith, k)
budget_in-bound got_msgid3 p k = omega (arith, k)
budget_in-bound reading_payload p k = omega (arith, k)
budget_in-bound got_crc1 p k = omega arith
budget_in-bound got_crc2 p k = omega arith

module _ (byte : ℕ) (small : byte < 256) (p : Parser) where
  abbrev Lowers : ℕ → Parser × ParseEvent → Type 0
  Lowers n r = budget r.0 < n

  after_header-budget :
      (q : Parser) → q.payload_index ≡ 0 → budget_in (after_header q) q ≤ q.payload_len + 2
  after_header-budget q e =
      if_cases (λ st. budget_in st q ≤ q.payload_len + 2) (q.payload_len == 0) got_crc1
        reading_payload (λ _. omega arith) (λ _. omega (arith, e))

  take_payload-budget :
      IsParserIn reading_payload p → budget (take_payload byte p) < budget_in reading_payload p
  take_payload-budget k =
      let q = take_payload byte p in
      if_cases (λ st. budget_in st q < budget_in reading_payload p)
        (leb p.payload_len (u8 (p.payload_index + 1))) got_crc1 reading_payload
        (λ h. omega (arith, k)) (λ h. omega (arith, k))

  take_length-budget : Lowers 266 (take_length byte p)
  take_length-budget =
      if_cases (Lowers 266) (ltb max_payload_len byte) _ _ (λ _. omega arith)
        (λ _. if_cases (Lowers 266) p.is_v2 _ _ (λ _. omega arith) (λ _. omega arith))

  -- A byte inside a frame uses up some of the budget.
  parse_in-budget :
      (st : ParseState)
      → IsParserIn st p
      → (st ≡ wait_stx) ⊎ Lowers (budget_in st p) (parse_in st byte p)
  parse_in-budget wait_stx k = inl refl
  parse_in-budget got_length k = inr (take_length-budget)
  parse_in-budget got_incompat k = inr (omega arith)
  parse_in-budget got_compat k = inr (omega arith)
  parse_in-budget got_seq k = inr (omega arith)
  parse_in-budget got_sysid k = inr (omega arith)
  parse_in-budget got_compid k = inr (omega arith)
  parse_in-budget got_msgid1 k =
      let q = (parse_in got_msgid1 byte p).0 in
      inr (
        if_cases (λ st. budget_in st q < p.payload_len + 5) p.is_v2 got_msgid2 (after_header q)
          (λ _. omega arith) (λ _. omega (arith, after_header-budget q k.2)))
  parse_in-budget got_msgid2 k = inr (omega arith)
  parse_in-budget got_msgid3 k =
      inr (omega (arith, after_header-budget (parse_in got_msgid3 byte p).0 k.2))
  parse_in-budget reading_payload k = inr (take_payload-budget k)
  parse_in-budget got_crc1 k = inr (omega arith)
  parse_in-budget got_crc2 k = inr (omega arith)

-- The bytes after which the parser is at a boundary, of which it needs at most its budget.
parse_bytes-budget :
    (bytes : List ℕ) (n : ℕ) (p : Parser)
    → budget p ≤ n
    → n ≤ length bytes
    → All (λ b. b < 256) bytes
    → IsParser p
    → (m : ℕ) × (m ≤ n) × ((parse_bytes (take m bytes) p).state ≡ wait_stx)
unfolding parse_bytes process_received_byte
parse_bytes-budget [] n p b l small k = elim (parse_in-budget 0 (omega arith) p p.state k) [
  | inl e ↦ (0, omega arith, e)
  | inr low ↦ absurd (omega (arith, b, l, low))
]
parse_bytes-budget (byte ∷ rest) zero p b l small k =
    elim (parse_in-budget byte small.0 p p.state k) [
      | inl e ↦ (0, omega arith, e)
      | inr low ↦ absurd (omega (arith, b, l, low))
    ]
parse_bytes-budget (byte ∷ rest) (suc n) p b l small k =
    elim (parse_in-budget byte small.0 p p.state k) [
      | inl e ↦ (0, omega arith, e)
      | inr low ↦
          let (m, bound, e) =
            parse_bytes-budget rest n (process_received_byte byte p).0 (omega (arith, b, low))
              (omega (arith, l)) small.1 (process_received_byte-IsParser byte p small.0 k) in
          (suc m, omega (arith, bound), e)
    ]

-- Whatever state the parser is in and whatever bytes arrive, it is back at a boundary between frames,
-- where it looks for the start of a frame, after at most 266 of them: noise on the line cannot keep
-- it inside a frame.
pub parse_bytes-boundary :
    (bytes : List ℕ) (p : Parser)
    → IsParser p
    → All (λ b. b < 256) bytes
    → 266 ≤ length bytes
    → (m : ℕ) × (m ≤ 266) × ((parse_bytes (take m bytes) p).state ≡ wait_stx)
parse_bytes-boundary bytes p k small l =
    parse_bytes-budget bytes 266 p (budget_in-bound p.state p k) l small k
