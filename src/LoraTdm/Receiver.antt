-- ===== src/LoraTdm/Receiver.antt =====
-- The receiver of lora_tdm_app: the part of LORA_TDM_APP_RunRxWindow (lora_tdm_app/fsw/src/
-- lora_tdm_app.c) that collects the bytes of a window into lines and frames. What is complete is
-- an event, which the application handles at once.
pub mod Invariant
pub mod Delivery
use cfs_telemetry_app.Common.{
  ℕ, ◌+◌, List, [], ◌∷◌, ◌++◌, length, byte_at, ltb, leb, ◌==◌, if◌then◌else◌,
}

-- LORA_TDM_RXFRAME_NONE, _TEXT, _ACK2, _UP2_HDR and _UP2_BODY
pub data RxFrameMode : Type 0 where
  rx_none rx_text rx_ack2 rx_up2_hdr rx_up2_body : RxFrameMode

abbrev pub ack2_magic : ℕ
ack2_magic = 0xa2

abbrev pub up2_magic : ℕ
up2_magic = 0xb2

-- RxLineBuf up to RxLineBufLen, RxFrameMode and RxFrameTargetLen
pub record Receiver : Type 0 where
  pub buf : List ℕ
  pub mode : RxFrameMode
  pub target_len : ℕ

-- The calls of LORA_TDM_APP_ProcessRxLine and LORA_TDM_APP_ProcessRxBinaryFrame.
pub data RxEvent : Type 0 where
  rx_line rx_frame : List ℕ → RxEvent

-- RxLineBuf has 256 bytes, the last one for the end of a line.
abbrev pub rx_capacity : ℕ
rx_capacity = 255

abbrev pub restart : Receiver → Receiver
restart r = record r { buf = []; mode = rx_none }

-- The first byte sets the mode.
unfoldable pub choose_mode : ℕ → Receiver → Receiver
choose_mode c r =
    if length r.buf == 1
    then if c == ack2_magic
      then record r { mode = rx_ack2; target_len = 5 }
      else if c == up2_magic
      then record r { mode = rx_up2_hdr }
      else record r { mode = rx_text }
    else r

-- The switch on the mode.
unfoldable pub complete : ℕ → Receiver → RxFrameMode → Receiver × List RxEvent
complete c r rx_text = if c == 10 then (restart r, rx_line r.buf ∷ []) else (r, [])
complete c r rx_up2_hdr =
    if length r.buf == 2
    then if ltb 196 (byte_at r.buf 1)
      then (restart r, [])
      else (record r { target_len = 7 + byte_at r.buf 1 + 2; mode = rx_up2_body }, [])
    else (r, [])
complete c r rx_ack2 =
    if leb r.target_len (length r.buf) then (restart r, rx_frame r.buf ∷ []) else (r, [])
complete c r rx_up2_body =
    if leb r.target_len (length r.buf) then (restart r, rx_frame r.buf ∷ []) else (r, [])
complete c r rx_none = (r, [])

-- One byte that `read` gives; a full buffer is thrown away, and the byte with it.
unfoldable pub receive_byte : ℕ → Receiver → Receiver × List RxEvent
unfolding choose_mode complete
receive_byte c r =
    if ltb (length r.buf) rx_capacity
    then (let chosen = choose_mode c (record r { buf = r.buf ++ c ∷ [] }) in
        complete c chosen chosen.mode)
    else (restart r, [])

-- The loop over the bytes that arrive, in one window or in several.
unfoldable pub receive : List ℕ → Receiver → Receiver × List RxEvent
unfolding receive_byte
receive [] r = (r, [])
receive (c ∷ cs) r =
    let (r1, first) = receive_byte c r in let (r2, rest) = receive cs r1 in (r2, first ++ rest)
