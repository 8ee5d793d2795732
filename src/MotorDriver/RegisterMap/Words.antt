-- ===== src/MotorDriver/RegisterMap/Words.antt =====
-- MotorDriver/protocol/register_map.cpp: the words that span several registers.
use guga_pi.MotorDriver.RegisterMap.State.{
  RegisterMap, load_uint16, load_uint32, store_uint16, store_int32,
}
use guga_pi.Common.{
  ℕ, Array, ◌<◌, ◌+◌, ◌≡◌, ◌*◌, u32, u16, u8, arith, bit_and, bit_and_byte, ◌>>◌, ◌%◌, ◌∙◌, ◌/◌,
  join_four, join_two,
}

-- The number that four registers hold, the lowest byte first.
pub load_uint32-bytes :
    (t : Array) (reg : ℕ)
    → reg + 3 < 256
    → t reg < 256
    → t (reg + 1) < 256
    → t (reg + 2) < 256
    → t (reg + 3) < 256
    → load_uint32 t reg ≡ t reg + t (reg + 1) * 256 + t (reg + 2) * 65536 + t (reg + 3) * 16777216
unfolding load_uint32
load_uint32-bytes t reg le h0 h1 h2 h3 =
    let i1 : u8 (reg + 1) ≡ reg + 1 = omega arith in
    let i2 : u8 (reg + 2) ≡ reg + 2 = omega arith in
    let i3 : u8 (reg + 3) ≡ reg + 3 = omega arith in
    rw (i1, i2, i3, join_four (t reg) (t (reg + 1)) (t (reg + 2)) (t (reg + 3)) h0 h1 h2 h3)
      (omega arith)

-- What a 32-bit store leaves in its four registers.
store_int32-bytes :
    (s : RegisterMap) (reg value : ℕ)
    → reg + 3 < 256
    → let t = (store_int32 s reg value).registers in
      let encoded = u32 value in
      (t reg ≡ encoded % 256)
      × (t (reg + 1) ≡ encoded / 256 % 256)
      × (t (reg + 2) ≡ encoded / 65536 % 256)
      × (t (reg + 3) ≡ encoded / 16777216)
unfolding store_int32
store_int32-bytes s reg value le =
    let i1 : u8 (reg + 1) ≡ reg + 1 = omega arith in
    let i2 : u8 (reg + 2) ≡ reg + 2 = omega arith in
    let i3 : u8 (reg + 3) ≡ reg + 3 = omega arith in
    let encoded = u32 value in
    (
      ground (arith, i1, i2, i3, bit_and_byte encoded),
      ground (arith, i1, i2, i3, bit_and_byte (encoded >> 8)),
      ground (arith, i1, i2, i3, bit_and_byte (encoded >> 16)),
      ground (arith, i1, i2, i3, bit_and_byte (encoded >> 24)),
    )

-- A 32-bit value that is stored in four registers is read back.
pub load_uint32-store_int32 :
    (s : RegisterMap) (reg value : ℕ)
    → reg + 3 < 256
    → load_uint32 (store_int32 s reg value).registers reg ≡ u32 value
load_uint32-store_int32 s reg value le =
    let t = (store_int32 s reg value).registers in
    let (b0, b1, b2, b3) = store_int32-bytes s reg value le in
    load_uint32-bytes t reg le (omega (arith, b0)) (omega (arith, b1)) (omega (arith, b2))
      (omega (arith, b3))
    ∙ omega (arith, b0, b1, b2, b3)

-- A 16-bit value that is stored in two registers is read back.
pub load_uint16-store_uint16 :
    (s : RegisterMap) (reg value : ℕ)
    → reg + 1 < 256
    → load_uint16 (store_uint16 s reg value).registers reg ≡ u16 value
unfolding load_uint16 store_uint16
load_uint16-store_uint16 s reg value le =
    let i1 : u8 (reg + 1) ≡ reg + 1 = omega arith in
    let low : bit_and value 255 < 256 = omega (arith, bit_and_byte value) in
    ground (
      arith,
      i1,
      bit_and_byte value,
      bit_and_byte (value >> 8),
      join_two (bit_and value 255) (bit_and (value >> 8) 255) low,
    )
