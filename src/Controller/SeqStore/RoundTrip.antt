-- ===== src/Controller/SeqStore/RoundTrip.antt =====
-- gugaPI/app/seq_store.cpp: the bytes of a slot give its instructions back.
use guga_pi.Controller.SeqStore.State.{Instr, instr_size}
use guga_pi.Controller.SeqStore.Codec.{
  write_u16, read_u16, write_u32, read_u32, serialize_instr, deserialize_instr, serialize_all,
  deserialize_all, slot_bytes, crc32,
}
use mathlib.Core.List.{append_assoc}
use guga_pi.Common.{
  ℕ, join_two, join_four, ◌<◌, List, u8, ◌^◌, ◌≡◌, ◌++◌, bit_and, length, ◌%◌, bit_or, arith, ◌+◌,
  get_or-append, bit_and_byte, ◌>>◌, u16, refl, ◌<<◌, ◌∙◌, ◌∷◌, ◌*◌, All, length-append, ap, take,
  [], sym, take-append, suc,
}

-- An instruction whose fields fit their places.
pub record IsStorable (x : Instr) : Type 0 where
  pub op_fits : x.op < 256
  pub param1_fits : x.param1 < 2 ^ 32
  pub param2_fits : x.param2 < 2 ^ 16
  pub until_fits : x.until < 256
  pub condition_fits : x.condition_value < 2 ^ 32

module _ (xs ys : List ℕ) where
  pub read_u16-append : (i k : ℕ) → i ≡ length xs + k → read_u16 (xs ++ ys) i ≡ read_u16 ys k
  unfolding read_u16
  read_u16-append i k h =
      rw (get_or-append xs ys i k h, get_or-append xs ys (i + 1) (k + 1) (omega arith)) refl

  pub read_u32-append : (i k : ℕ) → i ≡ length xs + k → read_u32 (xs ++ ys) i ≡ read_u32 ys k
  unfolding read_u32
  read_u32-append i k h =
      rw
        (
          get_or-append xs ys i k h,
          get_or-append xs ys (i + 1) (k + 1) (omega arith),
          get_or-append xs ys (i + 2) (k + 2) (omega arith),
          get_or-append xs ys (i + 3) (k + 3) (omega arith),
        )
        refl

  deserialize_instr-append : deserialize_instr (xs ++ ys) (length xs) ≡ deserialize_instr ys 0
  unfolding deserialize_instr
  deserialize_instr-append =
      let n = length xs in
      rw
        (
          get_or-append xs ys n 0 (omega arith),
          read_u32-append (n + 1) 1 (omega arith),
          read_u16-append (n + 5) 5 (omega arith),
          get_or-append xs ys (n + 7) 7 (omega arith),
          read_u32-append (n + 8) 8 (omega arith),
          get_or-append xs ys (n + 12) 12 (omega arith),
          get_or-append xs ys (n + 13) 13 (omega arith),
        )
        refl

byte_of : (v : ℕ) → u8 (bit_and v 0xFF) ≡ v % 256
byte_of v = omega (arith, bit_and_byte v)

pub word_of :
    (v : ℕ)
    → v < 2 ^ 32
    → bit_or
        (bit_or
          (bit_or (u8 (bit_and v 0xFF)) (u8 (bit_and (v >> 8) 0xFF) << 8))
          (u8 (bit_and (v >> 16) 0xFF) << 16))
        (u8 (bit_and (v >> 24) 0xFF) << 24)
      ≡ v
word_of v h =
    rw (byte_of v, byte_of (v >> 8), byte_of (v >> 16), byte_of (v >> 24))
      (join_four (v % 256) ((v >> 8) % 256) ((v >> 16) % 256) ((v >> 24) % 256) (omega arith)
          (omega arith) (omega arith) (omega arith)
        ∙ omega arith)

pub half_of :
    (v : ℕ) → v < 2 ^ 16 → bit_or (u8 (bit_and v 0xFF)) (u8 (bit_and (v >> 8) 0xFF) << 8) ≡ v
half_of v h =
    rw (byte_of v, byte_of (v >> 8))
      (join_two (v % 256) ((v >> 8) % 256) (omega arith) ∙ omega arith)

deserialize-serialize :
    (x : Instr) (rest : List ℕ) → IsStorable x → deserialize_instr (serialize_instr x ++ rest) 0 ≡ x
unfolding deserialize_instr serialize_instr read_u16 read_u32 write_u16 write_u32
deserialize-serialize x rest v =
    let op : u8 x.op ≡ x.op = omega (arith, v.op_fits) in
    let until : u8 x.until ≡ x.until = omega (arith, v.until_fits) in
    let param2 : u16 x.param2 ≡ x.param2 = omega (arith, v.param2_fits) in
    rw
      (
        op,
        until,
        param2,
        word_of x.param1 v.param1_fits,
        half_of x.param2 v.param2_fits,
        word_of x.condition_value v.condition_fits,
      )
      refl

length-serialize_instr : (x : Instr) → length (serialize_instr x) ≡ instr_size
unfolding serialize_instr write_u32 write_u16
length-serialize_instr x = refl

length-serialize_all : (xs : List Instr) → length (serialize_all xs) ≡ length xs * instr_size
unfolding serialize_all
length-serialize_all [] = refl
length-serialize_all (x ∷ xs) = omega (
  arith,
  length-append (serialize_instr x) (serialize_all xs),
  length-serialize_instr x,
  length-serialize_all xs,
)

-- The instructions behind any prefix are read back, whatever follows them.
pub deserialize_all-serialize_all :
    (xs : List Instr) (before after : List ℕ) (i : ℕ)
    → All IsStorable xs
    → i ≡ length before
    → deserialize_all (before ++ (serialize_all xs ++ after)) i (length xs) ≡ xs
unfolding deserialize_all serialize_all
deserialize_all-serialize_all [] before after i v e = refl
deserialize_all-serialize_all (x ∷ xs) before after i v e =
    let bytes = serialize_instr x in
    let rest = serialize_all xs ++ after in
    let buf = before ++ ((bytes ++ serialize_all xs) ++ after) in
    let split : buf ≡ before ++ (bytes ++ rest) =
      ap (λ (t : List ℕ). before ++ t) (append_assoc bytes (serialize_all xs) after) in
    let first : deserialize_instr buf i ≡ x =
      ap (λ (t : List ℕ). deserialize_instr t i) split
      ∙ ap (deserialize_instr (before ++ (bytes ++ rest))) e
      ∙ deserialize_instr-append before (bytes ++ rest)
      ∙ deserialize-serialize x rest v.0 in
    let others : deserialize_all buf (i + instr_size) (length xs) ≡ xs =
      ap (λ (t : List ℕ). deserialize_all t (i + instr_size) (length xs))
        (split ∙ sym (append_assoc before bytes rest))
      ∙ deserialize_all-serialize_all xs (before ++ bytes) after (i + instr_size) v.1
          (omega (arith, e, length-append before bytes, length-serialize_instr x)) in
    ap (λ (y : Instr). y ∷ deserialize_all buf (i + instr_size) (length xs)) first
    ∙ ap (λ (ys : List Instr). x ∷ ys) others

abbrev payload_of : List Instr → List ℕ
payload_of xs = 1 ∷ length xs ∷ serialize_all xs

pub length-slot_bytes : (xs : List Instr) → length (slot_bytes xs) ≡ 2 + length xs * instr_size + 4
unfolding slot_bytes write_u32
length-slot_bytes xs = omega (
  arith,
  length-append (payload_of xs) (write_u32 (crc32 (payload_of xs))),
  length-serialize_all xs,
)

read_u32-write_u32 : (v : ℕ) → v < 2 ^ 32 → read_u32 (write_u32 v) 0 ≡ v
unfolding read_u32 write_u32
read_u32-write_u32 v h = word_of v h

crc32-lt : (xs : List ℕ) → crc32 xs < 2 ^ 32
unfolding crc32
crc32-lt xs = omega arith

-- The check value at its place is the one of the payload before it.
pub slot_bytes-crc :
    (xs : List Instr)
    → let n = 2 + length xs * instr_size in
      read_u32 (slot_bytes xs) n ≡ crc32 (take n (slot_bytes xs))
unfolding slot_bytes
slot_bytes-crc xs =
    let payload = payload_of xs in
    let crc = crc32 payload in
    let e : 2 + length xs * instr_size ≡ length payload = omega (arith, length-serialize_all xs) in
    rw e (
      read_u32-append payload (write_u32 crc) (length payload) 0 (omega arith)
      ∙ read_u32-write_u32 crc (crc32-lt payload)
      ∙ ap crc32 (sym (take-append payload (write_u32 crc))))

pub slot_bytes-instrs :
    (xs : List Instr) → All IsStorable xs → deserialize_all (slot_bytes xs) 2 (length xs) ≡ xs
unfolding slot_bytes
slot_bytes-instrs xs v =
    deserialize_all-serialize_all xs (1 ∷ length xs ∷ []) (write_u32 (crc32 (payload_of xs))) 2 v
      refl

pub slot_bytes-marks : (xs : List Instr) → take 2 (slot_bytes xs) ≡ 1 ∷ length xs ∷ []
unfolding slot_bytes
slot_bytes-marks xs = refl

-- An instruction whose fields are in the ranges of their C types, an int32_t as its pattern.
pub record IsTyped (x : Instr) : Type 0 where
  pub op_fits : x.op < 256
  pub param1_fits : x.param1 < 2 ^ 32
  pub param2_fits : x.param2 < 2 ^ 32
  pub until_fits : x.until < 256
  pub condition_fits : x.condition_value < 2 ^ 32

-- What a slot keeps of an instruction: sixteen bits of its second parameter.
abbrev pub kept : Instr → Instr
kept x = record x { param2 = x.param2 % 2 ^ 16 }

abbrev pub kept_all : List Instr → List Instr
kept_all [] = []
kept_all (x ∷ xs) = kept x ∷ kept_all xs

pub kept_all-IsStorable : (xs : List Instr) → All IsTyped xs → All IsStorable (kept_all xs)
kept_all-IsStorable [] v = tt
kept_all-IsStorable (x ∷ xs) (v, vs) = (
  record {
    op_fits = v.op_fits;
    param1_fits = v.param1_fits;
    param2_fits = omega arith;
    until_fits = v.until_fits;
    condition_fits = v.condition_fits;
  },
  kept_all-IsStorable xs vs,
)

serialize_instr-kept : (x : Instr) → serialize_instr (kept x) ≡ serialize_instr x
unfolding serialize_instr
serialize_instr-kept x = let e : u16 (x.param2 % 2 ^ 16) ≡ u16 x.param2 = omega arith in rw e refl

pub length-kept_all : (xs : List Instr) → length (kept_all xs) ≡ length xs
length-kept_all [] = refl
length-kept_all (x ∷ xs) = ap suc (length-kept_all xs)

serialize_all-kept_all : (xs : List Instr) → serialize_all (kept_all xs) ≡ serialize_all xs
unfolding serialize_all
serialize_all-kept_all [] = refl
serialize_all-kept_all (x ∷ xs) = rw (serialize_instr-kept x, serialize_all-kept_all xs) refl

pub slot_bytes-kept_all : (xs : List Instr) → slot_bytes (kept_all xs) ≡ slot_bytes xs
unfolding slot_bytes
slot_bytes-kept_all xs = rw (length-kept_all xs, serialize_all-kept_all xs) refl
