-- ===== src/Controller/ConfigStore/Validity.antt =====
-- gugaPI/app/config_store.cpp: the parameters in use, through the operations of the store.
use guga_pi.Controller.ConfigStore.Params.{
  ConfigStoreParams, set_defaults, validate_params, all_in_range, find_param, find_in, get_value,
  channels_differ, motion_is_valid, supply_is_valid, line_is_valid, infrared_is_valid,
  read_param_value, default_values,
}
use guga_pi.Controller.ConfigStore.Table.{param_descriptors}
use guga_pi.Controller.ConfigStore.{
  Fram, ConfigStore, reset_defaults, load, extend, save, set, commit, commit_if,
  set_infrared_calibration, set_grayscale_calibration, load_params, load_image, save_main,
  config_address, save_infrared_extension, image_length, refuse, defaults_io_error, image_of,
  read_u16, config_magic, config_version, payload_size, header_length, decode_image,
}
use guga_pi.Controller.DriverStatus.{
  DriverStatus, ok, error, invalid_arg, not_initialized, timeout, busy, unsupported, nack,
}
use Prim.Native.String.{String}
use guga_pi.Common.{
  false, ◌≡◌, true, refl, signed, ℤ, Bool-cases, Bool, Option, ℕ, inl, if◌then◌else◌, Option-cases,
  some, Array, inr, none, not, List, arith, list_of, ltb_ℤ, u16, ◌||◌, ◌==◌, ◌&&◌, ◌+◌, drop, ltb,
  leb,
}
use guga_pi.Controller.SeqStore.Codec.{read_u32}
use guga_pi.Controller.ConfigStore.Payload.{encode_payload}

-- The parameters in use pass `ValidateParams`.
abbrev pub IsUsable : ConfigStore → Type 0
IsUsable s = validate_params s.params ≡ true

defaults_valid : validate_params set_defaults ≡ true
unfolding validate_params set_defaults all_in_range find_param find_in get_value channels_differ
    motion_is_valid supply_is_valid line_is_valid infrared_is_valid read_param_value default_values
    param_descriptors signed
defaults_valid = refl

-- The states of the store after calls in any order, each load and save on an FRAM in any state.
module _ (f : Fram) where
  pub data Reached : ConfigStore → Type 0 where
    reset : (s : ConfigStore) → Reached (reset_defaults s)
    loaded : (s : ConfigStore) (w : f.World) → Reached ((load f s w).1)
    saved : (s : ConfigStore) (w : f.World) → Reached s → Reached ((save f s w).1)
    changed :
        (s : ConfigStore) (name : String) (value : ℤ) → Reached s → Reached ((set s name value).0)
    infrared_calibrated :
        (s : ConfigStore) (invert span_raw threshold hysteresis : ℕ)
        → Reached s
        → Reached ((set_infrared_calibration s invert span_raw threshold hysteresis).0)
    grayscale_calibrated :
        (s : ConfigStore) (white black : Array) (threshold hysteresis floor strength mask : ℕ)
        → Reached s
        → Reached
            ((set_grayscale_calibration s white black threshold hysteresis floor strength mask).0)

commit-IsUsable : (s : ConfigStore) (p : ConfigStoreParams) → IsUsable s → IsUsable ((commit s p).0)
commit-IsUsable s p h = elim (Bool-cases (validate_params p)) [ inl e ↦ rw e e | inr e ↦ rw e h ]

if-IsUsable :
    (b : Bool) (x y : ConfigStore × DriverStatus)
    → IsUsable (x.0)
    → IsUsable (y.0)
    → IsUsable ((if b then x else y).0)
if-IsUsable true x y h k = h
if-IsUsable false x y h k = k

set-IsUsable :
    (s : ConfigStore) (name : String) (value : ℤ) → IsUsable s → IsUsable ((set s name value).0)
unfolding set
set-IsUsable s name value h = elim (Option-cases (find_param name)) [
  | inl e ↦ rw (set, e) h
  | inr (d, e) ↦
      rw (set, e)
        (if-IsUsable (ltb_ℤ value d.min_value || ltb_ℤ d.max_value value) (s, invalid_arg)
          (commit s _) h (commit-IsUsable s _ h))
]

commit_if-IsUsable :
    (s : ConfigStore) (p : Option ConfigStoreParams) → IsUsable s → IsUsable ((commit_if s p).0)
commit_if-IsUsable s none h = h
commit_if-IsUsable s (some p) h = commit-IsUsable s p h

extend-valid :
    (p : ConfigStoreParams) (extension : Option ConfigStoreParams)
    → validate_params p ≡ true
    → validate_params ((extend p extension).0) ≡ true
unfolding extend
extend-valid p none h = h
extend-valid p (some extended) h = elim (Bool-cases (validate_params extended)) [
  | inl e ↦ rw e e
  | inr e ↦ rw e h
]

module _ (f : Fram) where
  if_store-IsUsable :
      (b : Bool) (x y : f.World × ConfigStore)
      → IsUsable (x.1)
      → IsUsable (y.1)
      → IsUsable ((if b then x else y).1)
  if_store-IsUsable true x y h k = h
  if_store-IsUsable false x y h k = k

  load_params-IsUsable :
      (s : ConfigStore) (current : Bool) (read : ConfigStoreParams × Bool) (w : f.World)
      → IsUsable s
      → IsUsable ((load_params f s current read w).1)
  unfolding load_params
  load_params-IsUsable s current (params, legacy) w h = elim (Bool-cases (validate_params params)) [
    | inl e ↦ rw (load_params, e) (extend-valid params _ e)
    | inr e ↦ rw (load_params, e) h
  ]

  load_image-IsUsable :
      (s : ConfigStore) (image : List ℕ) (w : f.World)
      → IsUsable s
      → IsUsable ((load_image f s image w).1)
  unfolding load_image
  load_image-IsUsable s image w h =
      let version = u16 (read_u16 image 4) in
      let length = u16 (read_u16 image 6) in
      let current = version == config_version && length == payload_size in
      let s1 = record s {
        stored_length = length;
        stored_crc = read_u32 image (header_length + length);
      } in
      let read = decode_image version length (drop header_length image) in
      let params_read = load_params-IsUsable s1 current read w h in ground (arith, params_read, h)

  -- The outcome of a transfer: a failure leaves a store in use, a success goes on.
  status-IsUsable :
      (status : DriverStatus) (x : f.World × ConfigStore)
      (failure : DriverStatus → f.World × ConfigStore)
      → IsUsable (x.1)
      → ((failed : DriverStatus) → IsUsable ((failure failed).1))
      → IsUsable (
          (elim status as (λ (t : DriverStatus). f.World × ConfigStore) [
            | ok ↦ x
            | failed ↦ failure failed
          ]).1)
  status-IsUsable ok x failure h k = h
  status-IsUsable error x failure h k = k error
  status-IsUsable invalid_arg x failure h k = k invalid_arg
  status-IsUsable not_initialized x failure h k = k not_initialized
  status-IsUsable timeout x failure h k = k timeout
  status-IsUsable busy x failure h k = k busy
  status-IsUsable unsupported x failure h k = k unsupported
  status-IsUsable nack x failure h k = k nack

  load-IsUsable : (s : ConfigStore) (w : f.World) → IsUsable ((load f s w).1)
  unfolding load reset_defaults
  load-IsUsable s w =
      let (w1, status, buffer) = f.read config_address image_length w in
      let image = list_of buffer 0 image_length in
      if_store-IsUsable (not (f.is_ready w)) _ _ defaults_valid (
        status-IsUsable status (load_image f (reset_defaults s) image w1)
          (λ failed. (w1, refuse (reset_defaults s) defaults_io_error failed))
          (load_image-IsUsable (reset_defaults s) image w1 defaults_valid)
          (λ failed. defaults_valid))

  save_main-IsUsable : (s : ConfigStore) (w : f.World) → IsUsable s → IsUsable ((save_main f s w).1)
  unfolding save_main
  save_main-IsUsable s w h =
      let image = image_of config_magic config_version payload_size (encode_payload s.params) in
      let (w1, status) = f.write config_address image w in
      status-IsUsable status _ (λ failed. (w1, record s { last_save_status = status })) h
        (λ failed. h)

  save-IsUsable : (s : ConfigStore) (w : f.World) → IsUsable s → IsUsable ((save f s w).1)
  unfolding save
  save-IsUsable s w h =
      let (w1, status) = save_infrared_extension f s.params w in
      if_store-IsUsable (not (f.is_ready w)) _ _ h (
        status-IsUsable status (save_main f s w1)
          (λ failed. (w1, record s { last_save_status = failed })) (save_main-IsUsable s w1 h)
          (λ failed. h))

infrared-IsUsable :
    (s : ConfigStore) (invert span_raw threshold hysteresis : ℕ)
    → IsUsable s
    → IsUsable ((set_infrared_calibration s invert span_raw threshold hysteresis).0)
unfolding set_infrared_calibration
infrared-IsUsable s invert span_raw threshold hysteresis h =
    if-IsUsable
      (ltb 1 invert
        || span_raw == 0
        || ltb 32767 span_raw
        || threshold == 0
        || ltb 4095 threshold
        || ltb 1000 hysteresis)
      (s, invalid_arg) (commit s _) h (commit-IsUsable s _ h)

grayscale-IsUsable :
    (s : ConfigStore) (white black : Array) (threshold hysteresis floor strength mask : ℕ)
    → IsUsable s
    → IsUsable
        ((set_grayscale_calibration s white black threshold hysteresis floor strength mask).0)
unfolding set_grayscale_calibration
grayscale-IsUsable s white black threshold hysteresis floor strength mask h =
    if-IsUsable
      (threshold == 0
        || leb 1000 threshold
        || ltb 998 hysteresis
        || leb 1000 floor
        || strength == 0
        || ltb 8000 strength
        || mask == 0)
      (s, invalid_arg) (commit_if s _) h (commit_if-IsUsable s _ h)

-- Whatever the FRAM holds, answers and does with what is written to it, and in whatever order the
-- store is reset, loaded, saved, changed by name and calibrated, from a reset or a load on: the
-- parameters in use pass `ValidateParams`.
pub reached-IsUsable : (f : Fram) (s : ConfigStore) → Reached f s → IsUsable s
unfolding reset_defaults
reached-IsUsable f _ (reset s) = defaults_valid
reached-IsUsable f _ (loaded s w) = load-IsUsable f s w
reached-IsUsable f _ (saved s w r) = save-IsUsable f s w (reached-IsUsable f s r)
reached-IsUsable f _ (changed s name value r) = set-IsUsable s name value (reached-IsUsable f s r)
reached-IsUsable f _ (infrared_calibrated s a b c d r) =
    infrared-IsUsable s a b c d (reached-IsUsable f s r)
reached-IsUsable f _ (grayscale_calibrated s white black a b c d e r) =
    grayscale-IsUsable s white black a b c d e (reached-IsUsable f s r)
