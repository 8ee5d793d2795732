-- ===== src/Controller/Lora/Frame.antt =====
-- gugaPI/app/lora_protocol.cpp: the check value and the encoding of a frame.
use guga_pi.Controller.Lora.State.{sof_0, sof_1, version}
use guga_pi.Common.{
  ℕ, if◌then◌else◌, suc, u16, List, ◌<◌, bit_and, zero, bit_xor, ◌∷◌, ◌^◌, ◌!=◌, ◌<<◌, [], u8, ◌++◌,
  arith, length, ◌>>◌,
}

-- One round of the loop of `UpdateCrc`.
abbrev pub crc16_round : ℕ → ℕ
crc16_round crc =
    if bit_and crc 0x8000 != 0 then u16 (bit_xor (crc << 1) 0x1021) else u16 (crc << 1)

unfoldable pub crc16_rounds : ℕ → ℕ → ℕ
crc16_rounds zero crc = crc
crc16_rounds (suc n) crc = crc16_rounds n (crc16_round crc)

unfoldable pub update_crc : ℕ → ℕ → ℕ
update_crc crc value = crc16_rounds 8 (u16 (bit_xor crc (u16 value << 8)))

-- The loop of `LoraProtocol_Crc16Ccitt`.
unfoldable pub crc16_over : ℕ → List ℕ → ℕ
crc16_over crc [] = crc
crc16_over crc (x ∷ xs) = crc16_over (update_crc crc x) xs

unfoldable pub crc16_ccitt : List ℕ → ℕ
crc16_ccitt bytes = crc16_over 0xFFFF bytes

-- The bytes of `EncodeFrame` that its check value covers.
abbrev pub covered : ℕ → ℕ → ℕ → List ℕ → List ℕ
covered kind flags sequence payload =
    version
    ∷ kind
    ∷ flags
    ∷ sequence
    ∷ u8 (bit_and (length payload) 0xFF)
    ∷ u8 (bit_and (length payload >> 8) 0xFF)
    ∷ payload

-- `encoded[0 .. length)` of `EncodeFrame`.
unfoldable pub encode_frame : ℕ → ℕ → ℕ → List ℕ → List ℕ
encode_frame kind flags sequence payload =
    let crc = crc16_ccitt (covered kind flags sequence payload) in
    sof_0
    ∷ sof_1
    ∷ (covered kind flags sequence payload
        ++ (u8 (bit_and crc 0xFF) ∷ u8 (bit_and (crc >> 8) 0xFF) ∷ []))

round-lt : (n crc : ℕ) → crc < 2 ^ 16 → crc16_rounds n crc < 2 ^ 16
unfolding crc16_rounds
round-lt zero crc h = h
round-lt (suc n) crc h = round-lt n (crc16_round crc) (ground arith)

-- A check value has 16 bits.
pub crc16_over-lt : (xs : List ℕ) (crc : ℕ) → crc < 2 ^ 16 → crc16_over crc xs < 2 ^ 16
unfolding crc16_over update_crc
crc16_over-lt [] crc h = h
crc16_over-lt (x ∷ xs) crc h =
    crc16_over-lt xs (crc16_rounds 8 (u16 (bit_xor crc (u16 x << 8)))) (round-lt 8 _ (omega arith))

pub crc16_ccitt-lt : (xs : List ℕ) → crc16_ccitt xs < 2 ^ 16
unfolding crc16_ccitt
crc16_ccitt-lt xs = crc16_over-lt xs 0xFFFF (omega arith)
