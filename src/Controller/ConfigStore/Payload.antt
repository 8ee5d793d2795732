-- ===== src/Controller/ConfigStore/Payload.antt =====
-- gugaPI/app/config_store.cpp: the payload of the stored image. The file's own WriteU16, WriteU32,
-- ReadU16, ReadU32 and Crc32 are those of gugaPI/app/seq_store.cpp, in Controller/SeqStore/Codec.
use guga_pi.Controller.ConfigStore.Field
use guga_pi.Controller.ConfigStore.Table.{ParamType, param_u8, param_u16, param_u32, param_i32}
use guga_pi.Controller.SeqStore.Codec.{write_u16, write_u32, read_u16, read_u32}
use guga_pi.Common.{
  ℕ, List, u8, get_or, if◌then◌else◌, update, Bool, ◌∷◌, u16, leb, u32, [], ◌++◌, ◌+◌, sub32, ◌*◌,
  ◌&&◌, ◌-◌, ◌==◌, ltb,
}
use guga_pi.Controller.ConfigStore.Params.{ConfigStoreParams, set_defaults}
use guga_pi.Controller.ConfigStore.Layout.{
  Entry, layout_main, layout_infrared, layout_v5, layout_wheels, layout_inverts, layout_v8,
  layout_loops, layout_v9, layout_v3, layout_v11, layout_v6, layout_v4, layout_v12, layout_v7,
  layout_v13, layout_v14, layout_v15, layout_dm,
}

-- AppendU8, AppendU16, AppendU32 and AppendI32.
unfoldable pub append_field : ParamType → ℕ → List ℕ
append_field param_u8 value = u8 value ∷ []
append_field param_u16 value = write_u16 value
append_field param_u32 value = write_u32 value
append_field param_i32 value = write_u32 value

abbrev pub field_size : ParamType → ℕ
field_size param_u8 = 1
field_size param_u16 = 2
field_size param_u32 = 4
field_size param_i32 = 4

-- ReadU8Field, ReadU16Field, ReadU32Field and ReadI32Field, at an index of the payload.
unfoldable pub read_field : ParamType → List ℕ → ℕ → ℕ
read_field param_u8 bytes i = get_or bytes i 0
read_field param_u16 bytes i = u16 (read_u16 bytes i)
read_field param_u32 bytes i = read_u32 bytes i
read_field param_i32 bytes i = read_u32 bytes i

-- The appends of a part of the layout.
unfoldable pub encode_fields : List Entry → ConfigStoreParams → List ℕ
encode_fields [] p = []
encode_fields ((type, field) ∷ rest) p = append_field type (p field) ++ encode_fields rest p

unfoldable pub encode_payload : ConfigStoreParams → List ℕ
encode_payload p = encode_fields layout_main p

unfoldable pub encode_infrared_extension : ConfigStoreParams → List ℕ
encode_infrared_extension p = encode_fields layout_infrared p

-- The cursor and the parameters.
abbrev pub Decoder : Type 0
Decoder = ℕ × ConfigStoreParams

unfoldable pub decode_fields : List Entry → List ℕ → Decoder → Decoder
decode_fields [] bytes d = d
decode_fields ((type, field) ∷ rest) bytes (cursor, p) =
    decode_fields rest bytes
      (cursor + field_size type, update p field (read_field type bytes cursor))

-- A part that images of at least `least` bytes have.
unfoldable pub decode_from : ℕ → ℕ → List Entry → List ℕ → Decoder → Decoder
decode_from payload_length least layout bytes d =
    if leb least payload_length then decode_fields layout bytes d else d

-- The widest hysteresis around the threshold of an image of version 5.
unfoldable pub fit_hysteresis : ConfigStoreParams → ConfigStoreParams
fit_hysteresis p =
    let p1 =
      if leb 1000 (p Field.grayscale_threshold)
      then update p Field.grayscale_threshold 999
      else p in
    let threshold = p1 Field.grayscale_threshold in
    let lower_room = u16 (sub32 threshold 1 * 2) in
    let upper_room = u16 ((999 - threshold) * 2) in
    let available = if ltb lower_room upper_room then lower_room else upper_room in
    if ltb available (p1 Field.grayscale_hysteresis)
    then update p1 Field.grayscale_hysteresis available
    else p1

-- The wheels of an image without the radius in micrometres.
unfoldable pub migrate_wheels : ConfigStoreParams → ConfigStoreParams
migrate_wheels p =
    let p1 = update p Field.wheel_radius_um (u32 (p Field.wheel_radius_mm * 1000)) in
    if p Field.left_counts_per_rev == 364
      && p Field.right_counts_per_rev == 364
      && p Field.wheel_radius_mm == 32
    then update (update (update p1 Field.left_counts_per_rev 1456) Field.right_counts_per_rev 1456)
        Field.wheel_radius_um 33050
    else p1

-- From version 5 to the radius of version 7.
unfoldable pub decode_middle : List ℕ → ℕ → Decoder → Decoder
decode_middle bytes n d =
    let (c1, p1) = decode_from n 137 layout_v5 bytes d in
    let p2 = if leb 137 n && ltb n 158 then fit_hysteresis p1 else p1 in
    let (c3, p3) = decode_from n 158 layout_v6 bytes (c1, p2) in
    if leb 162 n then decode_fields layout_v7 bytes (c3, p3) else (c3, migrate_wheels p3)

unfoldable pub decode_early : List ℕ → ℕ → Decoder → Decoder
decode_early bytes n d =
    let d1 = decode_fields layout_wheels bytes d in
    let d2 = decode_from n 68 layout_inverts bytes d1 in
    let d3 = decode_fields layout_loops bytes d2 in
    let d4 = decode_from n 90 layout_v3 bytes d3 in decode_from n 103 layout_v4 bytes d4

unfoldable pub decode_late : List ℕ → ℕ → Bool → Decoder → Decoder
decode_late bytes n infrared_v16_layout d =
    let d1 = decode_from n 177 layout_v8 bytes d in
    let d2 = decode_from n 181 layout_v9 bytes d1 in
    let d3 = decode_from n 183 layout_v11 bytes d2 in
    let d4 = decode_from n 191 layout_v12 bytes d3 in
    let d5 = decode_from n 215 layout_v13 bytes d4 in
    let d6 = decode_from n 219 layout_v14 bytes d5 in
    let d7 = decode_from n 223 layout_v15 bytes d6 in
    decode_from n 243 (if infrared_v16_layout then layout_infrared else layout_dm) bytes d7

unfoldable pub decode_payload : List ℕ → ℕ → Bool → ConfigStoreParams
decode_payload bytes n infrared_v16_layout =
    let d = decode_middle bytes n (decode_early bytes n (0, set_defaults)) in
    (decode_late bytes n infrared_v16_layout d).1

unfoldable pub decode_infrared_extension : List ℕ → ConfigStoreParams → ConfigStoreParams
decode_infrared_extension bytes p = (decode_fields layout_infrared bytes (0, p)).1
