-- ===== src/Controller/SeqStore/Slots.antt =====
-- gugaPI/app/seq_store.cpp: the operations on slots. The pointers that they fill are not null.
use guga_pi.Controller.SeqStore.State.{
  Platform, Instr, instr_size, slot_count, act_op_road_nav, act_op_dm_position,
}
use guga_pi.Controller.SeqStore.Codec.{read_u32, crc32, deserialize_all, slot_bytes}
use guga_pi.Controller.SeqStore.Layout.{slot_addr, fetch, store, ensure_layout}
use guga_pi.Controller.Action.{Act, Result, ◌>>=◌, ◌>>◌, pure, refuse_if, done, failed}
use guga_pi.Controller.DriverStatus.{DriverStatus, ok, error, invalid_arg, not_initialized, busy}
use guga_pi.Common.{
  ℕ, true, false, some, none, Bool, leb, List, if◌then◌else◌, get_or, ◌==◌, ◌∷◌, ◌!=◌, [], ◌||◌,
  ◌+◌, ltb, ◌*◌, take,
}

abbrev act_cond_dm_relative : ℕ
act_cond_dm_relative = 8

pub record SeqSlotInfo : Type 0 where
  pub valid : Bool
  pub count : ℕ

module _ (f : Platform) where
  unfoldable pub init : Act f.World (Unit {0})
  init = ensure_layout f

  unfoldable pub get_info : ℕ → Act f.World SeqSlotInfo
  get_info slot = do
    refuse_if (leb slot_count slot) invalid_arg
    ensure_layout f
    header ← fetch f (slot_addr slot) 2
    (let count = get_or header 1 0 in
        if get_or header 0 0 != 1 then pure (record { valid = false; count = 0 }) else (do
          refuse_if (count == 0 || ltb 64 count) invalid_arg
          pure (record { valid = true; count = count })))

  abbrev validated : f.World × DriverStatus → f.World × Result (Unit {0})
  validated (w, ok) = (w, done tt)
  validated (w, status) = (w, failed invalid_arg)

  unfoldable pub validate : Act f.World (Unit {0})
  validate w = validated (f.validate_competition w)

  unfoldable pub store_instrs : ℕ → Act f.World (Unit {0})
  store_instrs slot w = store f (slot_addr slot) (slot_bytes (f.instrs w)) w

  -- The instructions of the runner go to the slot.
  unfoldable pub save : ℕ → Act f.World (Unit {0})
  save slot = do
    refuse_if (leb slot_count slot) invalid_arg
    ensure_layout f
    validate
    store_instrs slot

  -- From the payload on.
  unfoldable pub decode_slot : ℕ → List ℕ → Act f.World (List Instr)
  decode_slot count buf =
      let payload_len = 2 + count * instr_size in
      do
        refuse_if (read_u32 buf payload_len != crc32 (take payload_len buf)) error
        pure (deserialize_all buf 2 count)

  -- From the two marks of the slot on.
  unfoldable pub read_marked : ℕ → List ℕ → Act f.World (List Instr)
  read_marked slot header = do
    refuse_if (get_or header 0 0 != 1) not_initialized
    refuse_if (get_or header 1 0 == 0 || ltb 64 (get_or header 1 0)) invalid_arg
    buf ← fetch f (slot_addr slot) (2 + get_or header 1 0 * instr_size + 4)
    decode_slot (get_or header 1 0) buf

  -- The part that `Load` and `Read` share.
  unfoldable pub read : ℕ → Act f.World (List Instr)
  read slot = do
    refuse_if (leb slot_count slot) invalid_arg
    ensure_layout f
    header ← fetch f (slot_addr slot) 2
    read_marked slot header

  unfoldable pub add_loaded : Instr → f.World → f.World × DriverStatus
  add_loaded i w =
      if f.is_compare_op i.op
      then (elim (f.decode_condition i) [
        | none ↦ (w, error)
        | some condition ↦ f.add_compare_instr i.op i.param1 condition i.on_success i.on_timeout w
      ])
      else if i.op == act_op_road_nav
      then f.add_road_nav i.condition_value i.param1 i.param2 i.on_success i.on_timeout w
      else if i.op == act_op_dm_position
      then f.add_dm_position (i.until == act_cond_dm_relative) i.param1 i.param2 i.condition_value
          i.on_success i.on_timeout w
      else f.add_instr i.op i.param1 i.param2 i.until i.on_success i.on_timeout w

  -- The loop of `Load`; an instruction that is refused empties the runner.
  unfoldable pub add_all : List Instr → Act f.World (Unit {0})
  add_all [] = pure tt
  add_all (i ∷ instrs) = λ w.
      let (w1, status) = add_loaded i w in
      let rest = add_all instrs w1 in elim status [ ok ↦ rest | _ ↦ ((f.clear w1).0, failed error) ]

  abbrev cleared : f.World × DriverStatus → f.World × Result (Unit {0})
  cleared (w, ok) = (w, done tt)
  cleared (w, status) = (w, failed busy)

  unfoldable pub load : ℕ → Act f.World (Unit {0})
  load slot = do instrs ← read slot; (λ w. cleared (f.clear w)); add_all instrs

  unfoldable pub delete : ℕ → Act f.World (Unit {0})
  delete slot = do
    refuse_if (leb slot_count slot) invalid_arg
    ensure_layout f
    store f (slot_addr slot) (0 ∷ [])

  abbrev info_or_none : Result SeqSlotInfo → SeqSlotInfo
  info_or_none (done info) = info
  info_or_none _ = record { valid = false; count = 0 }

  unfoldable pub is_valid : ℕ → f.World → f.World × Bool
  is_valid slot w = let (w', r) = get_info slot w in (w', (info_or_none r).valid)

  unfoldable pub get_count : ℕ → f.World → f.World × ℕ
  get_count slot w =
      let (w', r) = get_info slot w in
      let info = info_or_none r in (w', if info.valid then info.count else 0)
