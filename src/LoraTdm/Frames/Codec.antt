-- ===== src/LoraTdm/Frames/Codec.antt =====
-- The UP2 frames of lora_tdm_app against their wire format.
use mathlib.Core.List.{append_assoc}
use cfs_telemetry_app.Common.{
  ℕ, ◌+◌, ◌-◌, ◌/◌, ◌%◌, ◌≤◌, ◌<◌, ◌≡◌, ◌≢◌, ◌⊎◌, inl, inr, refl, sym, ap, ◌∙◌, Option, none, some,
  List, ◌∷◌, ◌++◌, length, take, drop, byte_at, length-append, take-append, get_or-append_right,
  bytes16, arith,
}
use cfs_telemetry_app.Common.Replace.{replaced-get_or, take_around}
use cfs_telemetry_app.Uplink.Crc.{crc16}
use cfs_telemetry_app.Uplink.Crc.Detect.{crc16-lt, crc16_byte_injective}
use cfs_telemetry_app.LoraTdm.Receiver.{up2_magic}
use cfs_telemetry_app.LoraTdm.Frames.{Up2Decoded, word_at, parse_up2_frame}

-- The bytes that the checksum of a UP2 frame covers, and the frame.
abbrev pub up2_body : Up2Decoded → List ℕ
up2_body d =
    up2_magic
    ∷ d.payload_len
    ∷ d.version
    ∷ d.command_class
    ∷ d.seq % 256
    ∷ d.seq / 256
    ∷ d.flags
    ∷ d.payload

abbrev pub encode_up2 : Up2Decoded → List ℕ
encode_up2 d = up2_body d ++ bytes16 (crc16 (up2_body d))

module _ (d : Up2Decoded) (rest : List ℕ) (h : d.payload_len ≡ length d.payload) where
  abbrev check_bytes : List ℕ
  check_bytes = bytes16 (crc16 (up2_body d)) ++ rest

  encoded-take : take (7 + d.payload_len) (up2_body d ++ check_bytes) ≡ up2_body d
  encoded-take = take-append (7 + d.payload_len) (up2_body d) check_bytes (omega (arith, h))

  encoded-crc : word_at (up2_body d ++ check_bytes) (7 + d.payload_len) ≡ crc16 (up2_body d)
  encoded-crc = omega (
    arith,
    crc16-lt (up2_body d),
    get_or-append_right (up2_body d) check_bytes (7 + d.payload_len) 0 0 (omega (arith, h)),
    get_or-append_right (up2_body d) check_bytes (7 + d.payload_len + 1) 1 0 (omega (arith, h)),
  )

  encoded-payload : take d.payload_len (drop 7 (up2_body d ++ check_bytes)) ≡ d.payload
  encoded-payload = take-append d.payload_len d.payload check_bytes h

  encoded-length : 7 + d.payload_len + 2 ≤ length (up2_body d ++ check_bytes)
  encoded-length = omega (arith, h, length-append (up2_body d) check_bytes)

  parse_body :
      d.payload_len ≤ 196 → d.seq < 65536 → parse_up2_frame (up2_body d ++ check_bytes) ≡ some d
  unfolding parse_up2_frame
  parse_body small fits =
      rw (encoded-take, encoded-crc, encoded-payload) (ground (arith, encoded-length))

-- A UP2 frame parses to what was encoded, whatever bytes follow it. The payload has the announced
-- length, which is at most 196, and the sequence fits 16 bits.
pub parse_up2_frame-encode_up2 :
    (d : Up2Decoded) (rest : List ℕ)
    → d.payload_len ≡ length d.payload
    → d.payload_len ≤ 196
    → d.seq < 65536
    → parse_up2_frame (encode_up2 d ++ rest) ≡ some d
parse_up2_frame-encode_up2 d rest h small fits =
    ap parse_up2_frame (append_assoc (up2_body d) (bytes16 (crc16 (up2_body d))) rest)
    ∙ parse_body d rest h small fits

-- What the parser has checked of a frame that it gives.
pub record IsUp2Frame (buf : List ℕ) (d : Up2Decoded) : Type 0 where
  pub checked : crc16 (take (7 + byte_at buf 1) buf) ≡ word_at buf (7 + byte_at buf 1)
  pub small : byte_at buf 1 ≤ 196
  pub announced : d.payload_len ≡ byte_at buf 1
  pub payload : d.payload ≡ take (byte_at buf 1) (drop 7 buf)

pub parse_up2_frame-IsUp2Frame :
    (buf : List ℕ) (d : Up2Decoded) → parse_up2_frame buf ≡ some d → IsUp2Frame buf d
unfolding parse_up2_frame
parse_up2_frame-IsUp2Frame buf d h = record {
  checked = ground arith;
  small = ground arith;
  announced = ground arith;
  payload = ground arith;
}

module _ (before after : List ℕ) (a b : ℕ) where
  same_length :
      2 ≤ length before → byte_at (before ++ a ∷ after) 1 ≡ byte_at (before ++ b ∷ after) 1
  same_length h = replaced-get_or before after a b 1 (omega (arith, h))

  same_check :
      (k : ℕ)
      → length before < k
      → word_at (before ++ a ∷ after) k ≡ word_at (before ++ b ∷ after) k
  same_check k h = omega (
    arith,
    replaced-get_or before after a b k (omega arith),
    replaced-get_or before after a b (k + 1) (omega arith),
  )

  both_accepted :
      (d e : Up2Decoded)
      → 2 ≤ length before
      → length before < 7 + d.payload_len
      → a < 256
      → b < 256
      → IsUp2Frame (before ++ a ∷ after) d
      → IsUp2Frame (before ++ b ∷ after) e
      → a ≡ b
  both_accepted d e two inside p q u v =
      let n = 7 + byte_at (before ++ a ∷ after) 1 in
      let inside' : length before < n = omega (arith, inside, u.announced) in
      let len = ap (λ k. 7 + k) (same_length two) in
      crc16_byte_injective before (take (n - length before - 1) after) a b p q (
        ap crc16 (sym (take_around n before after a inside'))
        ∙ u.checked
        ∙ same_check n inside'
        ∙ ap (λ k. word_at (before ++ b ∷ after) k) len
        ∙ sym v.checked
        ∙ ap (λ k. crc16 (take k (before ++ b ∷ after))) (sym len)
        ∙ ap crc16 (take_around n before after b inside'))

option_cases {ℓ} : {A : Type ℓ} (o : Option A) → (o ≡ none) ⊎ ((x : A) × (o ≡ some x))
option_cases none = inl refl
option_cases (some x) = inr (x, refl)

-- Where a UP2 frame parses, the same frame with one byte changed, at any place between its length
-- byte and its checksum, does not.
pub parse_up2_frame_damaged :
    (before after : List ℕ) (a b : ℕ) (d : Up2Decoded)
    → parse_up2_frame (before ++ a ∷ after) ≡ some d
    → 2 ≤ length before
    → length before < 7 + d.payload_len
    → a < 256
    → b < 256
    → a ≢ b
    → parse_up2_frame (before ++ b ∷ after) ≡ none
parse_up2_frame_damaged before after a b d h two inside p q ne =
    elim (option_cases (parse_up2_frame (before ++ b ∷ after))) [
      | inl refused ↦ refused
      | inr (e, accepted) ↦ absurd (
          ne (
            both_accepted before after a b d e two inside p q
              (parse_up2_frame-IsUp2Frame (before ++ a ∷ after) d h)
              (parse_up2_frame-IsUp2Frame (before ++ b ∷ after) e accepted)))
    ]
