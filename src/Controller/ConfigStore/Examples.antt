-- ===== src/Controller/ConfigStore/Examples.antt =====
-- gugaPI/app/config_store.cpp: the theorems on concrete parameters and a concrete memory.
use guga_pi.Controller.ConfigStore.Field
use guga_pi.Controller.ConfigStore.{Fram, ConfigStore, load, save, set, not_attempted}
use guga_pi.Controller.ConfigStore.Table.{ParamType, param_u8, param_u16, param_u32, param_i32}
use guga_pi.Controller.ConfigStore.Layout.{Entry, layout_main}
use guga_pi.Controller.ConfigStore.Payload.{encode_payload, decode_payload}
use guga_pi.Controller.ConfigStore.Params.{ConfigStoreParams, set_defaults}
use guga_pi.Controller.ConfigStore.RoundTrip.{IsTyped, Fits, has_field, decode-encode_payload}
use guga_pi.Controller.ConfigStore.Validity.{IsUsable, loaded, saved, changed, reached-IsUsable}
use guga_pi.Controller.DriverStatus.{ok}
use guga_pi.Common.{
  Array, ℕ, List, [], ◌∷◌, true, false, pos, fill, ◌+◌, ◌%◌, ◌≡◌, arith, if◌then◌else◌,
}

abbrev pub numbered : ConfigStoreParams
numbered field = field % 200

numbered-Fits : (type : ParamType) (field : ℕ) → Fits type (numbered field)
numbered-Fits param_u8 field = omega arith
numbered-Fits param_u16 field = omega arith
numbered-Fits param_u32 field = omega arith
numbered-Fits param_i32 field = omega arith

numbered-IsTyped : (es : List Entry) → IsTyped es numbered
numbered-IsTyped [] = tt
numbered-IsTyped ((type, field) ∷ rest) = (numbered-Fits type field, numbered-IsTyped rest)

decode-encode_payload_example :
    decode_payload (encode_payload numbered) 243 false Field.heading_kp ≡ (
      if has_field Field.heading_kp layout_main
      then numbered Field.heading_kp
      else set_defaults Field.heading_kp)
decode-encode_payload_example =
    decode-encode_payload numbered (numbered-IsTyped layout_main) Field.heading_kp

abbrev pub memory : Fram
memory = record {
  World = Array;
  is_ready = λ w. true;
  read = λ address n w. (w, ok, λ i. w (address + i));
  write = λ address bytes w. (fill w address bytes, ok);
}

abbrev pub blank : ConfigStore
blank = record {
  params = λ field. 0;
  loaded_from_fram = false;
  dirty = false;
  stored_length = 0;
  stored_crc = 0;
  last_load_status = ok;
  last_save_status = ok;
  load_outcome = not_attempted;
}

-- A store that was loaded from an empty memory, changed and saved.
abbrev pub in_use : ConfigStore
in_use = (save memory ((set ((load memory blank (λ i. 0)).1) "heading_kp" (pos 1200)).0) (λ i. 0)).1

reached-IsUsable_example : IsUsable in_use
reached-IsUsable_example =
    reached-IsUsable memory in_use
      (saved _ (λ i. 0) (changed _ "heading_kp" (pos 1200) (loaded blank (λ i. 0))))
