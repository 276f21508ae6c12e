-- ===== src/LoraTdm/Receiver/Invariant.antt =====
-- What the receiver of lora_tdm_app keeps true for every stream of bytes.
use cfs_telemetry_app.Common.{
  ℕ, ◌+◌, ◌≤◌, ◌<◌, ◌≡◌, ◌≢◌, refl, ◌∙◌, List, [], ◌∷◌, ◌++◌, length, length-append, byte_at,
  if_cases, leb, ltb, ◌==◌, arith,
}
use cfs_telemetry_app.LoraTdm.Receiver.{
  RxFrameMode, rx_none, rx_text, rx_ack2, rx_up2_hdr, rx_up2_body, Receiver, RxEvent, choose_mode,
  complete, receive_byte, receive, rx_capacity,
}

-- How many bytes each mode may hold: a binary frame is never complete without being delivered,
-- and its length never comes near the end of the buffer.
abbrev pub FitsMode : RxFrameMode → ℕ → ℕ → Type 0
FitsMode rx_none target n = n ≡ 0
FitsMode rx_text target n = (1 ≤ n) × (n ≤ 255)
FitsMode rx_ack2 target n = (1 ≤ n) × (n < 5) × (target ≡ 5)
FitsMode rx_up2_hdr target n = n ≡ 1
FitsMode rx_up2_body target n = (2 ≤ n) × (n < target) × (target ≤ 205)

abbrev pub IsReceiver : Receiver → Type 0
IsReceiver r = FitsMode r.mode r.target_len (length r.buf)

-- The same with the byte that has just arrived.
abbrev Grown : RxFrameMode → ℕ → ℕ → Type 0
Grown rx_none target n = n ≢ n
Grown rx_text target n = (1 ≤ n) × (n ≤ 255)
Grown rx_ack2 target n = (1 ≤ n) × (n ≤ 5) × (target ≡ 5)
Grown rx_up2_hdr target n = (1 ≤ n) × (n ≤ 2)
Grown rx_up2_body target n = (2 ≤ n) × (n ≤ target) × (target ≤ 205)

complete-IsReceiver :
    (c : ℕ) (r : Receiver) (m : RxFrameMode)
    → r.mode ≡ m
    → Grown m r.target_len (length r.buf)
    → IsReceiver (complete c r m).0
unfolding complete
complete-IsReceiver c r rx_none e h = absurd (h refl)
complete-IsReceiver c r rx_text e h =
    if_cases (λ (p : Receiver × List RxEvent). IsReceiver p.0) (c == 10) _ _ (λ _. refl)
      (λ _. rw e h)
complete-IsReceiver c r rx_ack2 e h =
    if_cases (λ (p : Receiver × List RxEvent). IsReceiver p.0) (leb r.target_len (length r.buf)) _ _
      (λ _. refl) (λ n. rw e (ground (arith, h, n)))
complete-IsReceiver c r rx_up2_hdr e h =
    if_cases (λ (p : Receiver × List RxEvent). IsReceiver p.0) (length r.buf == 2) _ _
      (λ two.
        if_cases (λ (p : Receiver × List RxEvent). IsReceiver p.0) (ltb 196 (byte_at r.buf 1)) _ _
          (λ _. refl) (λ small. ground (arith, two, small)))
      (λ n. rw e (ground (arith, h, n)))
complete-IsReceiver c r rx_up2_body e h =
    if_cases (λ (p : Receiver × List RxEvent). IsReceiver p.0) (leb r.target_len (length r.buf)) _ _
      (λ _. refl) (λ n. rw e (ground (arith, h, n)))

grown :
    (m : RxFrameMode) (target n : ℕ)
    → FitsMode m target n
    → 1 ≤ n
    → n < 255
    → Grown m target (n + 1)
grown rx_none target n h one full = absurd (omega arith)
grown rx_text target n h one full = (omega arith, omega arith)
grown rx_ack2 target n h one full = (omega arith, omega arith, h.2)
grown rx_up2_hdr target n h one full = (omega arith, omega arith)
grown rx_up2_body target n h one full = (omega arith, omega arith, h.2)

abbrev IsGrown : Receiver → Type 0
IsGrown r = Grown r.mode r.target_len (length r.buf)

choose_mode-IsGrown :
    (c : ℕ) (r : Receiver) → (length r.buf ≢ 1 → IsGrown r) → IsGrown (choose_mode c r)
unfolding choose_mode
choose_mode-IsGrown c r more =
    if_cases IsGrown (length r.buf == 1) _ _
      (λ one.
        if_cases IsGrown (c == 162) _ _ (λ _. ground (arith, one))
          λ _.
            if_cases IsGrown (c == 178) _ _ (λ _. ground (arith, one)) (λ _. ground (arith, one)))
      (λ n. more (ground (arith, n)))

none_is_empty :
    (m : RxFrameMode) (target n : ℕ)
    → FitsMode m target n
    → n < 255
    → n + 1 ≢ 1
    → Grown m target (n + 1)
none_is_empty rx_none target n h full more = absurd (more (omega arith))
none_is_empty rx_text target n h full more = grown rx_text target n h (omega arith) full
none_is_empty rx_ack2 target n h full more = grown rx_ack2 target n h (omega arith) full
none_is_empty rx_up2_hdr target n h full more = grown rx_up2_hdr target n h (omega arith) full
none_is_empty rx_up2_body target n h full more = grown rx_up2_body target n h (omega arith) full

pub snoc-length : (xs : List ℕ) (c : ℕ) → length (xs ++ c ∷ []) ≡ length xs + 1
snoc-length xs c = omega (arith, length-append xs (c ∷ []))

receive_byte-IsReceiver : (c : ℕ) (r : Receiver) → IsReceiver r → IsReceiver (receive_byte c r).0
unfolding receive_byte
receive_byte-IsReceiver c r h =
    if_cases (λ (p : Receiver × List RxEvent). IsReceiver p.0) (ltb (length r.buf) rx_capacity) _ _
      (λ room.
        let r' : Receiver = record r { buf = r.buf ++ c ∷ [] } in
        let fits : length r.buf < 255 = ground (arith, room) in
        complete-IsReceiver c (choose_mode c r') (choose_mode c r').mode refl (
          choose_mode-IsGrown c r' (λ more. rw (snoc-length r.buf c) (
            none_is_empty r.mode r.target_len (length r.buf) h fits
              (λ e. more (snoc-length r.buf c ∙ e))))))
      (λ _. refl)

-- Whatever bytes arrive, the receiver keeps its bounds: with no mode it is empty, a line has at
-- most 255 bytes, an ACK2 frame is delivered at its 5 bytes, and a UP2 frame is at all times
-- shorter than its length, which is at most 205, so no binary frame reaches the end of the buffer.
pub receive-IsReceiver :
    (bytes : List ℕ) (r : Receiver) → IsReceiver r → IsReceiver (receive bytes r).0
unfolding receive
receive-IsReceiver [] r h = h
receive-IsReceiver (c ∷ cs) r h =
    receive-IsReceiver cs (receive_byte c r).0 (receive_byte-IsReceiver c r h)
