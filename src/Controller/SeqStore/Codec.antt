-- ===== src/Controller/SeqStore/Codec.antt =====
-- gugaPI/app/seq_store.cpp: instructions and check values as bytes.
use guga_pi.Controller.SeqStore.State.{Instr, instr_size, instr_size_v1}
use guga_pi.Common.{
  ℕ, zero, suc, List, if◌then◌else◌, u8, bit_or, bit_and, ◌∷◌, bit_xor, get_or, [], ◌>>◌, ◌+◌, ◌!=◌,
  ◌<<◌, ◌++◌, length, u32, u16,
}

unfoldable pub write_u16 : ℕ → List ℕ
write_u16 v = u8 (bit_and v 0xFF) ∷ u8 (bit_and (v >> 8) 0xFF) ∷ []

unfoldable pub read_u16 : List ℕ → ℕ → ℕ
read_u16 buf i = bit_or (get_or buf i 0) (get_or buf (i + 1) 0 << 8)

unfoldable pub write_u32 : ℕ → List ℕ
write_u32 v =
    u8 (bit_and v 0xFF)
    ∷ u8 (bit_and (v >> 8) 0xFF)
    ∷ u8 (bit_and (v >> 16) 0xFF)
    ∷ u8 (bit_and (v >> 24) 0xFF)
    ∷ []

unfoldable pub read_u32 : List ℕ → ℕ → ℕ
read_u32 buf i =
    bit_or
      (bit_or (bit_or (get_or buf i 0) (get_or buf (i + 1) 0 << 8)) (get_or buf (i + 2) 0 << 16))
      (get_or buf (i + 3) 0 << 24)

-- One round of the inner loop of `Crc32`.
abbrev crc32_round : ℕ → ℕ
crc32_round crc =
    if bit_and crc 0x80000000 != 0 then u32 (bit_xor (crc << 1) 0x04C11DB7) else u32 (crc << 1)

unfoldable pub crc32_rounds : ℕ → ℕ → ℕ
crc32_rounds zero crc = crc
crc32_rounds (suc n) crc = crc32_rounds n (crc32_round crc)

unfoldable pub crc32_over : ℕ → List ℕ → ℕ
crc32_over crc [] = crc
crc32_over crc (x ∷ xs) = crc32_over (crc32_rounds 8 (u32 (bit_xor crc (x << 24)))) xs

unfoldable pub crc32 : List ℕ → ℕ
crc32 bytes = u32 (bit_xor (crc32_over 0xFFFFFFFF bytes) 0xFFFFFFFF)

unfoldable pub serialize_instr : Instr → List ℕ
serialize_instr instr =
    u8 instr.op
    ∷ (write_u32 instr.param1
        ++ (write_u16 (u16 instr.param2)
            ++ (u8 instr.until
                ∷ (write_u32 instr.condition_value ++ (instr.on_success ∷ instr.on_timeout ∷ [])))))

-- From index `i` of a buffer on.
unfoldable pub deserialize_instr : List ℕ → ℕ → Instr
deserialize_instr buf i = record {
  op = get_or buf i 0;
  param1 = read_u32 buf (i + 1);
  param2 = read_u16 buf (i + 5);
  until = get_or buf (i + 7) 0;
  condition_value = read_u32 buf (i + 8);
  on_success = get_or buf (i + 12) 0;
  on_timeout = get_or buf (i + 13) 0;
}

unfoldable pub deserialize_instr_v1 : List ℕ → ℕ → Instr
deserialize_instr_v1 buf i = record {
  op = get_or buf i 0;
  param1 = read_u32 buf (i + 1);
  param2 = read_u16 buf (i + 5);
  until = get_or buf (i + 7) 0;
  condition_value = 0;
  on_success = get_or buf (i + 8) 0;
  on_timeout = get_or buf (i + 9) 0;
}

-- The loops over the instructions of a buffer, `n` of them from index `i` on.
unfoldable pub deserialize_all : List ℕ → ℕ → ℕ → List Instr
deserialize_all buf i zero = []
deserialize_all buf i (suc n) = deserialize_instr buf i ∷ deserialize_all buf (i + instr_size) n

unfoldable pub deserialize_all_v1 : List ℕ → ℕ → ℕ → List Instr
deserialize_all_v1 buf i zero = []
deserialize_all_v1 buf i (suc n) =
    deserialize_instr_v1 buf i ∷ deserialize_all_v1 buf (i + instr_size_v1) n

unfoldable pub serialize_all : List Instr → List ℕ
serialize_all [] = []
serialize_all (instr ∷ instrs) = serialize_instr instr ++ serialize_all instrs

-- A slot with these instructions: its marks, its payload and its check value.
unfoldable pub slot_bytes : List Instr → List ℕ
slot_bytes instrs =
    let payload = 1 ∷ length instrs ∷ serialize_all instrs in payload ++ write_u32 (crc32 payload)
