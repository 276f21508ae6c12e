-- ===== src/Uplink/Persist/Damage.antt =====
-- What damage of the state file UPLINK_APP_LoadState notices.
use native.Mathlib.Decide.{dec_lt}
use mathlib.Core.Path.{subst}
use cfs_telemetry_app.Common.{
  u32_at, ℕ, ◌-◌, ◌≤◌, ◌<◌, ◌≡◌, ◌≢◌, ◌⊎◌, inl, inr, refl, sym, ap, ◌∙◌, true, some, List, ◌∷◌,
  ◌++◌, length, take, length-append, take-length, Bool-cases, byte_at, arith,
}
use cfs_telemetry_app.Uplink.Crc.{crc16}
use cfs_telemetry_app.Uplink.Crc.Detect.{crc16_byte_injective}
use cfs_telemetry_app.Uplink.State.{UplinkApp}
use cfs_telemetry_app.Uplink.Persist.{is_state_intact, load_file}
use cfs_telemetry_app.Common.Replace.{
  replaced-length, replaced-get_or, replaced-here, take_before, take_around,
}
use cfs_telemetry_app.Uplink.Persist.File.{is_state_intact-bytes}

abbrev pub IsBytes : List ℕ → Type 0
IsBytes bytes = (i : ℕ) → byte_at bytes i < 256

last_bytes : (i : ℕ) → 16 ≤ i → i < 20 → (i ≡ 16) ⊎ (i ≡ 17) ⊎ (i ≡ 18) ⊎ (i ≡ 19)
last_bytes i lo hi = grind arith

-- Bytes that make the same word are the same.
same_byte :
    (xs ys : List ℕ)
    → IsBytes xs
    → IsBytes ys
    → u32_at xs 16 ≡ u32_at ys 16
    → (i : ℕ) → 16 ≤ i
    → i < 20
    → byte_at xs i ≡ byte_at ys i
same_byte xs ys p q e i lo hi = elim (last_bytes i lo hi) [
  | inl at ↦ rw at (omega (arith, p 16, p 17, p 18, p 19, q 16, q 17, q 18, q 19))
  | inr (inl at) ↦ rw at (omega (arith, p 16, p 17, p 18, p 19, q 16, q 17, q 18, q 19))
  | inr (inr (inl at)) ↦ rw at (omega (arith, p 16, p 17, p 18, p 19, q 16, q 17, q 18, q 19))
  | inr (inr (inr at)) ↦ rw at (omega (arith, p 16, p 17, p 18, p 19, q 16, q 17, q 18, q 19))
]

module _ (before after : List ℕ) (a b : ℕ) where
  in_body :
      a < 256
      → b < 256
      → length before < 16
      → is_state_intact (before ++ a ∷ after) ≡ true
      → is_state_intact (before ++ b ∷ after) ≡ true
      → a ≡ b
  in_body p q h u v = crc16_byte_injective before (take (16 - length before - 1) after) a b p q (
      ap crc16 (sym (take_around 16 before after a h))
      ∙ omega (
        arith,
        (is_state_intact-bytes (before ++ a ∷ after) u).1,
        (is_state_intact-bytes (before ++ b ∷ after) v).1,
        replaced-get_or before after a b 16 (omega arith),
        replaced-get_or before after a b 17 (omega arith),
        replaced-get_or before after a b 18 (omega arith),
        replaced-get_or before after a b 19 (omega arith),
      )
      ∙ ap crc16 (take_around 16 before after b h))

  same_word :
      16 ≤ length before
      → is_state_intact (before ++ a ∷ after) ≡ true
      → is_state_intact (before ++ b ∷ after) ≡ true
      → u32_at (before ++ a ∷ after) 16 ≡ u32_at (before ++ b ∷ after) 16
  same_word h u v =
      (is_state_intact-bytes (before ++ a ∷ after) u).1
      ∙ ap crc16 (take_before 16 before after a b h)
      ∙ sym (is_state_intact-bytes (before ++ b ∷ after) v).1

  in_checksum :
      IsBytes (before ++ a ∷ after)
      → IsBytes (before ++ b ∷ after)
      → 16 ≤ length before
      → is_state_intact (before ++ a ∷ after) ≡ true
      → is_state_intact (before ++ b ∷ after) ≡ true
      → a ≡ b
  in_checksum p q h u v =
      sym (replaced-here before after a)
      ∙ same_byte (before ++ a ∷ after) (before ++ b ∷ after) p q (same_word h u v) (length before)
          h
          (omega (
            arith,
            length-append before (a ∷ after),
            (is_state_intact-bytes (before ++ a ∷ after) u).0,
          ))
      ∙ replaced-here before after b

byte_of : (before after : List ℕ) (a : ℕ) → IsBytes (before ++ a ∷ after) → a < 256
byte_of before after a p = omega (arith, p (length before), replaced-here before after a)

-- Where the file of a save loads, the same file with one byte changed, at any place of the 20,
-- the checksum's own included, is not intact: a load of it leaves the state as it was.
pub load_file_damaged :
    (before after : List ℕ) (a b : ℕ) (s : UplinkApp)
    → IsBytes (before ++ a ∷ after)
    → IsBytes (before ++ b ∷ after)
    → is_state_intact (before ++ a ∷ after) ≡ true
    → a ≢ b
    → load_file s (some (before ++ b ∷ after)) ≡ s
unfolding load_file
load_file_damaged before after a b s p q u ne =
    elim (Bool-cases (is_state_intact (before ++ b ∷ after))) [
      | inl v ↦ elim (dec_lt (length before) 16) [
        | yes h ↦ absurd (
            ne (
              in_body before after a b (byte_of before after a p) (byte_of before after b q) h u v))
        | no h ↦ absurd (ne (in_checksum before after a b p q (omega arith) u v))
      ]
      | inr v ↦
          let size : length (before ++ b ∷ after) ≡ 20 = omega (
            arith,
            (is_state_intact-bytes (before ++ a ∷ after) u).0,
            replaced-length before after a b,
          ) in
          let whole =
            subst (λ n. take n (before ++ b ∷ after) ≡ before ++ b ∷ after) size
              (take-length (before ++ b ∷ after)) in
          rw (whole, v) refl
    ]
