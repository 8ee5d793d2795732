-- ===== src/Controller/ConfigStore.antt =====
-- gugaPI/app/config_store.cpp: the parameters in use, and what loads, saves and changes them, with
-- FEATURE_ENABLE_FRAM on. The FRAM of gugaPI/board/board_fram.h is the interface `Fram`; names and
-- calibration arrays are not null.
pub mod Field
pub mod Table
pub mod Params
pub mod Layout
pub mod Payload
pub mod RoundTrip
pub mod Validity
mod Examples
use guga_pi.Controller.ConfigStore.Field
use guga_pi.Controller.DriverStatus.{DriverStatus, ok, error, invalid_arg, not_initialized}
use guga_pi.Controller.SeqStore.Codec.{write_u16, write_u32, read_u16, read_u32, crc32}
use Prim.Native.String.{String}
use text.Mathlib.Text.{◌==◌ as str_eq}
use guga_pi.Common.{
  Bool, ℕ, List, if◌then◌else◌, Option, Array, ◌+◌, ◌∷◌, false, ◌++◌, list_of, u16, not, true, ℤ,
  update, some, u8, [], ◌==◌, ◌!=◌, none, ◌||◌, take, u32, ltb, suc, length, ◌&&◌, pattern32, ltb_ℤ,
  zero, leb, drop, ◌*◌, ◌/◌,
}
use guga_pi.Controller.ConfigStore.Params.{
  ConfigStoreParams, set_defaults, validate_params, grayscale_channel_count, find_param, assign,
  legacy_default_grayscale_track_mask, write_param_value, default_grayscale_track_mask,
}
use guga_pi.Controller.ConfigStore.Payload.{
  encode_payload, decode_payload, encode_infrared_extension, decode_infrared_extension,
}
use guga_pi.Controller.ConfigStore.Table.{param_descriptors}

-- A read gives its status and the buffer.
pub record Fram : Type 1 where
  pub World : Type 0
  pub is_ready : World → Bool
  pub read : ℕ → ℕ → World → World × DriverStatus × Array
  pub write : ℕ → List ℕ → World → World × DriverStatus

pub data LoadOutcome : Type 0 where
  not_attempted from_fram defaults_invalid defaults_io_error defaults_unsupported : LoadOutcome
  defaults_explicit : LoadOutcome

-- `g_params` and `g_status`.
pub record ConfigStore : Type 0 where
  pub params : ConfigStoreParams
  pub loaded_from_fram : Bool
  pub dirty : Bool
  pub stored_length : ℕ
  pub stored_crc : ℕ
  pub last_load_status : DriverStatus
  pub last_save_status : DriverStatus
  pub load_outcome : LoadOutcome

abbrev pub config_address : ℕ
config_address = 0x0000

abbrev pub config_magic : ℕ
config_magic = 0x47504643

abbrev pub config_version : ℕ
config_version = 17

abbrev pub payload_size : ℕ
payload_size = 243

abbrev pub header_length : ℕ
header_length = 8

abbrev pub image_length : ℕ
image_length = header_length + payload_size + 4

abbrev pub infrared_extension_address : ℕ
infrared_extension_address = 0x1FD0

abbrev pub infrared_extension_magic : ℕ
infrared_extension_magic = 0x43335249

abbrev pub infrared_extension_version : ℕ
infrared_extension_version = 1

abbrev pub infrared_extension_size : ℕ
infrared_extension_size = 20

abbrev pub infrared_extension_image_length : ℕ
infrared_extension_image_length = header_length + infrared_extension_size + 4

-- The older versions, each with the length of its payload.
abbrev pub legacy_layouts : List (ℕ × ℕ)
legacy_layouts =
    (16, 243)
    ∷ (15, 223)
    ∷ (14, 219)
    ∷ (13, 215)
    ∷ (12, 191)
    ∷ (11, 183)
    ∷ (10, 183)
    ∷ (9, 181)
    ∷ (8, 177)
    ∷ (7, 162)
    ∷ (6, 158)
    ∷ (5, 137)
    ∷ (4, 103)
    ∷ (3, 90)
    ∷ (1, 66)
    ∷ (2, 68)
    ∷ []

unfoldable pub is_layout : ℕ → ℕ → List (ℕ × ℕ) → Bool
is_layout version length [] = false
is_layout version length ((v, n) ∷ rest) =
    (version == v && length == n) || is_layout version length rest

-- A header, a payload, and the check value of both.
unfoldable pub image_of : ℕ → ℕ → ℕ → List ℕ → List ℕ
image_of magic version length payload =
    let bytes = write_u32 magic ++ (write_u16 version ++ (write_u16 length ++ payload)) in
    bytes ++ write_u32 (crc32 bytes)

unfoldable pub reset_defaults : ConfigStore → ConfigStore
reset_defaults s = record s {
  params = set_defaults;
  loaded_from_fram = false;
  dirty = true;
  stored_length = payload_size;
  stored_crc = 0;
  load_outcome = defaults_explicit;
}

-- The returns of `ConfigStore_Load` that leave the defaults in use.
abbrev pub refuse : ConfigStore → LoadOutcome → DriverStatus → ConfigStore
refuse s outcome status = record s { load_outcome = outcome; last_load_status = status }

-- The parameters of an image, and whether it is one of the infrared branch.
unfoldable pub decode_image : ℕ → ℕ → List ℕ → ConfigStoreParams × Bool
decode_image version length payload =
    let first = decode_payload payload length false in
    let legacy = version == 16 && length == 243 && not (validate_params first) in
    let loaded = if legacy then decode_payload payload length true else first in
    let upgraded =
      if leb version 10 && loaded Field.grayscale_track_mask == legacy_default_grayscale_track_mask
      then update loaded Field.grayscale_track_mask default_grayscale_track_mask
      else loaded in
    (upgraded, legacy)

-- The infrared extension record, if it is one.
unfoldable pub decode_extension_image : List ℕ → ConfigStoreParams → Option ConfigStoreParams
decode_extension_image image p =
    let covered = header_length + infrared_extension_size in
    if read_u32 image 0 != infrared_extension_magic
      || u16 (read_u16 image 4) != infrared_extension_version
      || u16 (read_u16 image 6) != infrared_extension_size
    then none
    else if read_u32 image covered != crc32 (take covered image)
    then none
    else some (decode_infrared_extension (drop header_length image) p)

-- The parameters with those of the extension, if it is valid with them, and whether it was.
unfoldable pub extend : ConfigStoreParams → Option ConfigStoreParams → ConfigStoreParams × Bool
extend p none = (p, false)
extend p (some extended) = if validate_params extended then (extended, true) else (p, false)

module _ (f : Fram) where
  unfoldable pub load_infrared_extension :
      ConfigStoreParams → f.World → f.World × Option ConfigStoreParams
  load_infrared_extension p w =
      let (w1, status, buffer) =
        f.read infrared_extension_address infrared_extension_image_length w in
      let image = list_of buffer 0 infrared_extension_image_length in
      elim status [ ok ↦ (w1, decode_extension_image image p) | failed ↦ (w1, none) ]

  -- From the parameters of the image on.
  unfoldable pub load_params :
      ConfigStore → Bool → ConfigStoreParams × Bool → f.World → f.World × ConfigStore
  load_params s current (loaded, legacy) w =
      let (w1, extension) = load_infrared_extension loaded w in
      let (params, extended) = extend loaded (if legacy then none else extension) in
      if not (validate_params loaded) then (w, refuse s defaults_invalid invalid_arg) else (
        if legacy then w else w1,
        record s {
          params = params;
          loaded_from_fram = true;
          load_outcome = from_fram;
          dirty = not current || not extended;
          last_load_status = ok;
        },
      )

  -- From the read of the image on.
  unfoldable pub load_image : ConfigStore → List ℕ → f.World → f.World × ConfigStore
  load_image s image w =
      let version = u16 (read_u16 image 4) in
      let length = u16 (read_u16 image 6) in
      let current = version == config_version && length == payload_size in
      let s1 = record s { stored_length = length; stored_crc = 0 } in
      let stored_crc = read_u32 image (header_length + length) in
      let s2 = record s1 { stored_crc = stored_crc } in
      if read_u32 image 0 != config_magic
        || (not current && not (is_layout version length legacy_layouts))
      then (w, refuse s1 defaults_invalid error)
      else if stored_crc != crc32 (take (header_length + length) image)
      then (w, refuse s2 defaults_invalid error)
      else load_params s2 current (decode_image version length (drop header_length image)) w

  -- `ConfigStore_Load`, which returns `last_load_status`.
  unfoldable pub load : ConfigStore → f.World → f.World × ConfigStore
  load s w =
      let s1 = reset_defaults s in
      let (w1, status, buffer) = f.read config_address image_length w in
      if not (f.is_ready w) then (w, refuse s1 defaults_io_error not_initialized) else elim status [
        | ok ↦ load_image s1 (list_of buffer 0 image_length) w1
        | failed ↦ (w1, refuse s1 defaults_io_error failed)
      ]

  unfoldable pub save_infrared_extension : ConfigStoreParams → f.World → f.World × DriverStatus
  save_infrared_extension p w =
      f.write infrared_extension_address
        (image_of infrared_extension_magic infrared_extension_version infrared_extension_size
          (encode_infrared_extension p))
        w

  -- From the infrared extension on.
  unfoldable pub save_main : ConfigStore → f.World → f.World × ConfigStore
  save_main s w =
      let image = image_of config_magic config_version payload_size (encode_payload s.params) in
      let (w1, status) = f.write config_address image w in
      let s1 = record s { last_save_status = status } in
      elim status [
        | ok ↦ (
          w1,
          record s1 {
            loaded_from_fram = true;
            dirty = false;
            stored_length = payload_size;
            stored_crc = crc32 (take (header_length + payload_size) image);
          },
        )
        | failed ↦ (w1, s1)
      ]

  -- `ConfigStore_Save`, which returns `last_save_status`.
  unfoldable pub save : ConfigStore → f.World → f.World × ConfigStore
  save s w =
      let (w1, status) = save_infrared_extension s.params w in
      if not (f.is_ready w)
      then (w, record s { last_save_status = not_initialized })
      else elim status [
        | ok ↦ save_main s w1
        | failed ↦ (w1, record s { last_save_status = failed })
      ]

-- The new parameters of the setters, if they are valid.
abbrev pub commit : ConfigStore → ConfigStoreParams → ConfigStore × DriverStatus
commit s updated =
    if validate_params updated
    then (record s { params = updated; dirty = true }, ok)
    else (s, invalid_arg)

-- The two radii of the wheels stay together.
unfoldable pub couple_radius : String → ℤ → ConfigStoreParams → ConfigStoreParams
couple_radius name value p =
    if str_eq name "wheel_radius_mm"
    then update p Field.wheel_radius_um (u32 (pattern32 value * 1000))
    else if str_eq name "wheel_radius_um"
    then update p Field.wheel_radius_mm (pattern32 value / 1000)
    else p

unfoldable pub set : ConfigStore → String → ℤ → ConfigStore × DriverStatus
set s name value = elim (find_param name) [
  | none ↦ (s, invalid_arg)
  | some d ↦
      if ltb_ℤ value d.min_value || ltb_ℤ d.max_value value
      then (s, invalid_arg)
      else commit s (couple_radius name value (write_param_value s.params d value))
]

unfoldable pub set_infrared_calibration : ConfigStore → ℕ → ℕ → ℕ → ℕ → ConfigStore × DriverStatus
set_infrared_calibration s invert span_raw adc_threshold adc_hysteresis =
    let p1 = update s.params Field.infrared_position_invert invert in
    let p2 = update p1 Field.infrared_position_span_raw span_raw in
    let p3 = update p2 Field.infrared_adc_threshold adc_threshold in
    let p4 = update p3 Field.infrared_adc_hysteresis adc_hysteresis in
    if ltb 1 invert
      || span_raw == 0
      || ltb 32767 span_raw
      || adc_threshold == 0
      || ltb 4095 adc_threshold
      || ltb 1000 adc_hysteresis
    then (s, invalid_arg)
    else commit s p4

-- The loop over the channels from `i` on, `n` of them left.
unfoldable pub set_channels : ℕ → ℕ → Array → Array → ConfigStoreParams → Option ConfigStoreParams
set_channels zero i white black p = some p
set_channels (suc n) i white black p =
    let p1 = update p (Field.grayscale_white + i) (white i) in
    let p2 = update p1 (Field.grayscale_black + i) (black i) in
    let rest = set_channels n (i + 1) white black p2 in
    if ltb 4095 (white i) || ltb 4095 (black i) || white i == black i then none else rest

abbrev pub with_scalars : ℕ → ℕ → ℕ → ℕ → ℕ → Option ConfigStoreParams → Option ConfigStoreParams
with_scalars threshold hysteresis position_floor min_line_strength track_mask none = none
with_scalars threshold hysteresis position_floor min_line_strength track_mask (some p) = some (
    assign p (
      (Field.grayscale_threshold, threshold)
      ∷ (Field.grayscale_hysteresis, hysteresis)
      ∷ (Field.grayscale_position_floor, position_floor)
      ∷ (Field.grayscale_min_line_strength, min_line_strength)
      ∷ (Field.grayscale_track_mask, track_mask)
      ∷ []))

abbrev pub commit_if : ConfigStore → Option ConfigStoreParams → ConfigStore × DriverStatus
commit_if s none = (s, invalid_arg)
commit_if s (some updated) = commit s updated

unfoldable pub set_grayscale_calibration :
    ConfigStore → Array → Array → ℕ → ℕ → ℕ → ℕ → ℕ → ConfigStore × DriverStatus
set_grayscale_calibration s white black threshold hysteresis position_floor min_line_strength
      track_mask =
    let channels = set_channels grayscale_channel_count 0 white black s.params in
    if threshold == 0
      || leb 1000 threshold
      || ltb 998 hysteresis
      || leb 1000 position_floor
      || min_line_strength == 0
      || ltb 8000 min_line_strength
      || track_mask == 0
    then (s, invalid_arg)
    else commit_if s
        (with_scalars threshold hysteresis position_floor min_line_strength track_mask channels)

-- The shorter form, with the other settings as they are.
unfoldable pub set_grayscale_thresholds :
    ConfigStore → Array → Array → ℕ → ConfigStore × DriverStatus
set_grayscale_thresholds s white black threshold =
    set_grayscale_calibration s white black threshold (s.params Field.grayscale_hysteresis)
      (s.params Field.grayscale_position_floor) (s.params Field.grayscale_min_line_strength)
      (s.params Field.grayscale_track_mask)

unfoldable pub param_count : ℕ
param_count = u8 (length param_descriptors)
