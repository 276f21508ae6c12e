-- ===== src/LoraTdm/Receiver/Delivery.antt =====
-- The receiver of lora_tdm_app delivers the binary frames of the ground.
use mathlib.Core.List.{append_assoc}
use cfs_telemetry_app.Common.{
  ℕ, ◌+◌, ◌≤◌, ◌<◌, ◌≡◌, ◌⊎◌, inl, inr, refl, ap, List, [], ◌∷◌, ◌++◌, length, All, arith,
}
use cfs_telemetry_app.LoraTdm.Receiver.{
  RxFrameMode, rx_none, rx_ack2, rx_up2_hdr, rx_up2_body, Receiver, RxEvent, rx_frame, choose_mode,
  complete, receive_byte, receive, ack2_magic, up2_magic,
}
use cfs_telemetry_app.LoraTdm.Receiver.Invariant.{snoc-length}

abbrev at : List ℕ → RxFrameMode → ℕ → Receiver
at buf mode target_len = record { buf = buf; mode = mode; target_len = target_len }

-- The two modes in which a frame is filled up to its length.
abbrev IsFilling : RxFrameMode → Type 0
IsFilling m = (m ≡ rx_ack2) ⊎ (m ≡ rx_up2_body)

receive_byte_more :
    (c : ℕ) (p : List ℕ) (m : RxFrameMode) (t : ℕ)
    → IsFilling m
    → 1 ≤ length p
    → length p + 1 < t
    → t ≤ 205
    → receive_byte c (at p m t) ≡ (at (p ++ c ∷ []) m t, [])
unfolding receive_byte choose_mode complete
receive_byte_more c p m t (inl e) one more fits = rw e (ground (arith, snoc-length p c))
receive_byte_more c p m t (inr e) one more fits = rw e (ground (arith, snoc-length p c))

receive_byte_last :
    (c : ℕ) (p : List ℕ) (m : RxFrameMode) (t : ℕ)
    → IsFilling m
    → 1 ≤ length p
    → length p + 1 ≡ t
    → t ≤ 205
    → receive_byte c (at p m t) ≡ (at [] rx_none t, rx_frame (p ++ c ∷ []) ∷ [])
unfolding receive_byte choose_mode complete
receive_byte_last c p m t (inl e) one last fits = rw e (ground (arith, snoc-length p c))
receive_byte_last c p m t (inr e) one last fits = rw e (ground (arith, snoc-length p c))

fill :
    (c : ℕ) (cs p : List ℕ) (m : RxFrameMode) (t : ℕ)
    → IsFilling m
    → 1 ≤ length p
    → length p + 1 + length cs ≡ t
    → t ≤ 205
    → receive (c ∷ cs) (at p m t) ≡ (at [] rx_none t, rx_frame (p ++ c ∷ cs) ∷ [])
unfolding receive
fill c [] p m t f one len fits = rw (receive_byte_last c p m t f one (omega arith) fits) refl
fill c (d ∷ ds) p m t f one len fits =
    rw
      (
        receive_byte_more c p m t f one (omega arith) fits,
        fill d ds (p ++ c ∷ []) m t f (omega (arith, snoc-length p c))
            (omega (arith, snoc-length p c)) fits,
        append_assoc,
      )
      refl

-- A binary frame of the ground: the magic byte and the rest.
pub data RadioFrame : Type 0 where
  ack2 : List ℕ → RadioFrame
  up2 : ℕ → List ℕ → RadioFrame

abbrev pub frame_bytes : RadioFrame → List ℕ
frame_bytes (ack2 rest) = ack2_magic ∷ rest
frame_bytes (up2 plen rest) = up2_magic ∷ plen ∷ rest

-- An ACK2 frame has 5 bytes, and a UP2 frame has 9 with its payload of at most 196.
abbrev pub IsWhole : RadioFrame → Type 0
IsWhole (ack2 rest) = length rest ≡ 4
IsWhole (up2 plen rest) = (plen ≤ 196) × (length rest ≡ 7 + plen)

abbrev pub IsIdle : Receiver → Type 0
IsIdle r = (r.buf ≡ []) × (r.mode ≡ rx_none)

ack2_first :
    (t : ℕ) → receive_byte ack2_magic (at [] rx_none t) ≡ (at (ack2_magic ∷ []) rx_ack2 5, [])
unfolding receive_byte choose_mode complete
ack2_first t = refl

up2_first :
    (t : ℕ) → receive_byte up2_magic (at [] rx_none t) ≡ (at (up2_magic ∷ []) rx_up2_hdr t, [])
unfolding receive_byte choose_mode complete
up2_first t = refl

up2_second :
    (plen t : ℕ)
    → plen ≤ 196
    → receive_byte plen (at (up2_magic ∷ []) rx_up2_hdr t)
      ≡ (at (up2_magic ∷ plen ∷ []) rx_up2_body (7 + plen + 2), [])
unfolding receive_byte choose_mode complete
up2_second plen t h = ground arith

abbrev frame_length : RadioFrame → ℕ
frame_length (ack2 rest) = 5
frame_length (up2 plen rest) = 7 + plen + 2

receive_silent :
    (x : ℕ) (xs : List ℕ) (r r1 : Receiver) (out : Receiver × List RxEvent)
    → receive_byte x r ≡ (r1, [])
    → receive xs r1 ≡ out
    → receive (x ∷ xs) r ≡ out
unfolding receive
receive_silent x xs r r1 out e h = rw e h

receive_frame :
    (frame : RadioFrame) (t : ℕ)
    → IsWhole frame
    → receive (frame_bytes frame) (at [] rx_none t)
      ≡ (at [] rx_none (frame_length frame), rx_frame (frame_bytes frame) ∷ [])
receive_frame (ack2 []) t h = absurd (omega arith)
receive_frame (ack2 (c ∷ cs)) t h =
    receive_silent ack2_magic (c ∷ cs) _ _ _ (ack2_first t)
      (fill c cs (ack2_magic ∷ []) rx_ack2 5 (inl refl) (omega arith) (omega arith) (omega arith))
receive_frame (up2 plen []) t h = absurd (omega arith)
receive_frame (up2 plen (c ∷ cs)) t h =
    receive_silent up2_magic (plen ∷ c ∷ cs) _ _ _ (up2_first t) (
      receive_silent plen (c ∷ cs) _ _ _ (up2_second plen t h.0) (
        fill c cs (up2_magic ∷ plen ∷ []) rx_up2_body (7 + plen + 2) (inr refl) (omega arith)
          (omega arith) (omega arith)))

-- A stream may be cut anywhere, as it is by the windows: the receiver goes on where it was.
receive_append :
    (xs ys : List ℕ) (r : Receiver)
    → receive (xs ++ ys) r
      ≡ ((receive ys (receive xs r).0).0, (receive xs r).1 ++ (receive ys (receive xs r).0).1)
unfolding receive
receive_append [] ys r = refl
receive_append (x ∷ xs) ys r = rw (receive_append xs ys (receive_byte x r).0, append_assoc) refl

abbrev pub stream : List RadioFrame → List ℕ
stream [] = []
stream (frame ∷ frames) = frame_bytes frame ++ stream frames

abbrev pub deliveries : List RadioFrame → List RxEvent
deliveries [] = []
deliveries (frame ∷ frames) = rx_frame (frame_bytes frame) ∷ deliveries frames

-- A stream of whole ACK2 and UP2 frames that starts at an idle receiver is delivered frame by
-- frame, each once, in order and with all its bytes, and leaves the receiver idle.
pub receive-stream :
    (frames : List RadioFrame) (r : Receiver)
    → All IsWhole frames
    → IsIdle r
    → IsIdle (receive (stream frames) r).0 × ((receive (stream frames) r).1 ≡ deliveries frames)
unfolding receive
receive-stream [] r h idle = (idle, refl)
receive-stream (frame ∷ frames) r h idle =
    let start : receive (frame_bytes frame) r
        ≡ (at [] rx_none (frame_length frame), rx_frame (frame_bytes frame) ∷ []) =
      rw (idle.0, idle.1) (receive_frame frame r.target_len h.0) in
    let rest = receive-stream frames (at [] rx_none (frame_length frame)) h.1 (refl, refl) in
    rw (receive_append (frame_bytes frame) (stream frames) r, start)
      (rest.0, ap (λ events. rx_frame (frame_bytes frame) ∷ events) rest.1)

-- Where a stream is cut into two windows makes no difference to what is delivered.
pub receive-windows :
    (first second : List ℕ) (r : Receiver)
    → let after = receive first r in
      (receive (first ++ second) r).1 ≡ after.1 ++ (receive second after.0).1
receive-windows first second r = rw (receive_append first second r) refl
