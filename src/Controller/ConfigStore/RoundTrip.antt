-- ===== src/Controller/ConfigStore/RoundTrip.antt =====
-- gugaPI/app/config_store.cpp: the payload that is stored gives the parameters back.
use guga_pi.Controller.ConfigStore.Table.{param_u8, param_u16, param_u32, param_i32, ParamType}
use guga_pi.Controller.SeqStore.RoundTrip.{read_u16-append, read_u32-append, word_of, half_of}
use guga_pi.Controller.SeqStore.Codec.{read_u16, read_u32}
use mathlib.Core.List.{append_assoc, append-nil}
use guga_pi.Common.{
  u8, u16, get_or-append, arith, length-append, [], ◌∷◌, List, ℕ, ◌<◌, ◌++◌, ◌^◌, Bool, length,
  update, false, ◌≡◌, ◌+◌, ◌==◌, if◌then◌else◌, refl, ◌||◌, ◌∙◌, arith, sym,
}
use guga_pi.Controller.ConfigStore.Payload.{
  decode_fields, encode_fields, Decoder, append_field, read_field, field_size, decode_payload,
  decode_late, decode_middle, decode_early, decode_from, encode_payload,
}
use guga_pi.Controller.ConfigStore.Layout.{Entry, layout_main}
use guga_pi.Controller.SeqStore.Codec.{write_u16, write_u32}
use guga_pi.Controller.ConfigStore.Params.{ConfigStoreParams, set_defaults}

-- The value fits the type of its field.
abbrev pub Fits : ParamType → ℕ → Type 0
Fits param_u8 value = value < 2 ^ 8
Fits param_u16 value = value < 2 ^ 16
Fits param_u32 value = value < 2 ^ 32
Fits param_i32 value = value < 2 ^ 32

abbrev pub IsTyped : List Entry → ConfigStoreParams → Type 0
IsTyped [] p = Unit {0}
IsTyped ((type, field) ∷ rest) p = Fits type (p field) × IsTyped rest p

-- The fields of a layout are taken from `p`, the others from `q`.
unfoldable pub merge : List Entry → ConfigStoreParams → ConfigStoreParams → ConfigStoreParams
merge [] p q = q
merge ((type, field) ∷ rest) p q = merge rest p (update q field (p field))

unfoldable pub has_field : ℕ → List Entry → Bool
has_field field [] = false
has_field field ((type, other) ∷ rest) = field == other || has_field field rest

pub merge-has_field :
    (es : List Entry) (p q : ConfigStoreParams) (field : ℕ)
    → merge es p q field ≡ (if has_field field es then p field else q field)
unfolding merge has_field
merge-has_field [] p q field = refl
merge-has_field ((type, other) ∷ rest) p q field =
    let later = merge-has_field rest p (update q other (p other)) field in ground (arith, later)

abbrev pub layout_size : List Entry → ℕ
layout_size [] = 0
layout_size ((type, field) ∷ rest) = field_size type + layout_size rest

length-append_field :
    (type : ParamType) (value : ℕ) → length (append_field type value) ≡ field_size type
unfolding append_field write_u16 write_u32
length-append_field param_u8 value = refl
length-append_field param_u16 value = refl
length-append_field param_u32 value = refl
length-append_field param_i32 value = refl

u16-read_u16 :
    (value : ℕ) (after : List ℕ)
    → value < 2 ^ 16
    → u16 (read_u16 (write_u16 value ++ after) 0) ≡ value
unfolding read_u16 write_u16
u16-read_u16 value after h = rw (half_of value h) (omega (arith, h))

read_u32-word :
    (value : ℕ) (after : List ℕ) → value < 2 ^ 32 → read_u32 (write_u32 value ++ after) 0 ≡ value
unfolding read_u32 write_u32
read_u32-word value after h = word_of value h

read_field-append_field :
    (type : ParamType) (value : ℕ) (before after : List ℕ)
    → Fits type value
    → read_field type (before ++ (append_field type value ++ after)) (length before) ≡ value
unfolding read_field append_field
read_field-append_field param_u8 value before after h =
    let e : u8 value ≡ value = omega (arith, h) in
    get_or-append before (u8 value ∷ after) (length before) 0 (omega arith) ∙ e
read_field-append_field param_u16 value before after h =
    rw (read_u16-append before (write_u16 value ++ after) (length before) 0 (omega arith))
      (u16-read_u16 value after h)
read_field-append_field param_u32 value before after h =
    read_u32-append before (write_u32 value ++ after) (length before) 0 (omega arith)
    ∙ read_u32-word value after h
read_field-append_field param_i32 value before after h =
    read_u32-append before (write_u32 value ++ after) (length before) 0 (omega arith)
    ∙ read_u32-word value after h

decode_fields_lem :
    (es : List Entry) (p q : ConfigStoreParams) (before after : List ℕ)
    → IsTyped es p
    → decode_fields es (before ++ (encode_fields es p ++ after)) (length before, q)
      ≡ (length before + layout_size es, merge es p q)
unfolding decode_fields encode_fields merge
decode_fields_lem [] p q before after h =
    let e : length before + 0 ≡ length before = omega arith in rw e refl
decode_fields_lem ((type, field) ∷ rest) p q before after (h, hs) =
    let here = append_field type (p field) in
    let later = decode_fields_lem rest p (update q field (p field)) (before ++ here) after hs in
    let tail = encode_fields rest p ++ after in
    let size : length (before ++ here) ≡ length before + field_size type =
      length-append before here ∙ rw (length-append_field type (p field)) refl in
    let bytes : before ++ ((here ++ encode_fields rest p) ++ after) ≡ before ++ (here ++ tail) =
      rw (append_assoc here (encode_fields rest p) after) refl in
    let joined : (before ++ here) ++ tail ≡ before ++ (here ++ tail) =
      append_assoc before here tail in
    let value = read_field-append_field type (p field) before tail h in
    let total : length before + field_size type + layout_size rest
        ≡ length before + (field_size type + layout_size rest) =
      omega arith in
    cc (later, size, bytes, joined, value, total)

decode_fields-append :
    (xs ys : List Entry) (bytes : List ℕ) (d : Decoder)
    → decode_fields (xs ++ ys) bytes d ≡ decode_fields ys bytes (decode_fields xs bytes d)
unfolding decode_fields
decode_fields-append [] ys bytes d = refl
decode_fields-append ((type, field) ∷ rest) ys bytes (cursor, p) =
    decode_fields-append rest ys bytes _

-- The decoder of a current image goes through the layout from its start to its end.
decode_payload-fields :
    (bytes : List ℕ)
    → decode_payload bytes 243 false ≡ (decode_fields layout_main bytes (0, set_defaults)).1
unfolding decode_payload decode_late decode_middle decode_early decode_from decode_fields
decode_payload-fields bytes = refl

-- Decoding the payload that was encoded from parameters whose values fit the types of their fields
-- gives the value of every field of the layout back, and the default of every other field.
pub decode-encode_payload :
    (p : ConfigStoreParams)
    → IsTyped layout_main p
    → (field : ℕ)
    → decode_payload (encode_payload p) 243 false field
      ≡ (if has_field field layout_main then p field else set_defaults field)
unfolding encode_payload
decode-encode_payload p h field =
    let whole : encode_fields layout_main p ++ [] ≡ encode_fields layout_main p = append-nil _ in
    let decoded = decode_fields_lem layout_main p set_defaults [] [] h in
    rw (decode_payload-fields (encode_fields layout_main p), sym whole, decoded)
      (merge-has_field layout_main p set_defaults field)
