-- ===== src/Controller/SeqStore/Layout.antt =====
-- gugaPI/app/seq_store.cpp: the header and the migration of slots of the first version.
use guga_pi.Controller.SeqStore.State.{
  Platform, fram_base, header_size, slot_size, slot_size_v1, slot_count, migration_journal_addr,
  migration_journal_size, migration_magic, migration_stage_addr, instr_size_v1, magic, version,
  version_v1, migration_version,
}
use guga_pi.Controller.SeqStore.Codec.{
  read_u32, write_u32, read_u16, write_u16, crc32, deserialize_all_v1, slot_bytes,
}
use guga_pi.Controller.Action.{
  Act, ◌>>=◌, ◌>>◌, pure, fail, refuse_if, done, failed, unfinished, Result,
}
use guga_pi.Controller.DriverStatus.{DriverStatus, ok, error, invalid_arg, not_initialized}
use guga_pi.Common.{
  ℕ, zero, suc, true, false, u16, List, Array, Bool, ◌++◌, ◌+◌, ◌*◌, list_of, ltb, ◌==◌, ◌∷◌, not,
  get_or, if◌then◌else◌, take, ◌-◌, length, ◌&&◌, ◌!=◌, [], ◌||◌,
}

abbrev pub slot_addr : ℕ → ℕ
slot_addr slot = u16 (fram_base + header_size + slot * slot_size)

abbrev pub slot_addr_v1 : ℕ → ℕ
slot_addr_v1 slot = u16 (fram_base + header_size + slot * slot_size_v1)

abbrev pub buffers_equal : List ℕ → List ℕ → Bool
buffers_equal [] [] = true
buffers_equal (x ∷ xs) (y ∷ ys) = x == y && buffers_equal xs ys
buffers_equal _ _ = false

module _ (f : Platform) where
  -- `if (call != DRIVER_OK) return DRIVER_ERROR;`
  abbrev pub or_error : f.World × DriverStatus → f.World × Result (Unit {0})
  or_error (w, ok) = (w, done tt)
  or_error (w, status) = (w, failed error)

  abbrev pub bytes_read : ℕ → f.World × (DriverStatus × Array) → f.World × Result (List ℕ)
  bytes_read n (w, (ok, buffer)) = (w, done (list_of buffer 0 n))
  bytes_read n (w, (status, buffer)) = (w, failed error)

  -- A read of `n` bytes, in which every failure is DRIVER_ERROR.
  unfoldable pub fetch : ℕ → ℕ → Act f.World (List ℕ)
  fetch address n w = bytes_read n (f.fram_read address n w)

  unfoldable pub store : ℕ → List ℕ → Act f.World (Unit {0})
  store address bytes w = or_error (f.fram_write address bytes w)

  unfoldable pub store_byte : ℕ → ℕ → Act f.World (Unit {0})
  store_byte address value w = or_error (f.fram_write_byte address value w)

  unfoldable pub write_and_verify : ℕ → List ℕ → Act f.World (Unit {0})
  write_and_verify address bytes = do
    store address bytes
    refuse_if (ltb slot_size (length bytes)) error
    verify ← fetch address (length bytes)
    refuse_if (not (buffers_equal bytes verify)) error

  abbrev journal_matches : ℕ → ℕ → List ℕ → Bool
  journal_matches slot expected_crc journal =
      read_u32 journal 0 == migration_magic
      && get_or journal 4 0 == slot
      && read_u32 journal 8 == expected_crc

  -- A journal that cannot be read is no journal.
  unfoldable pub read_migration_journal : ℕ → ℕ → Act f.World Bool
  read_migration_journal slot expected_crc w =
      let (w', r) = fetch migration_journal_addr migration_journal_size w in
      (
        w',
        elim r [
          | done journal ↦ done (journal_matches slot expected_crc journal)
          | failed status ↦ done false
          | unfinished ↦ unfinished
        ],
      )

  unfoldable pub write_migration_journal : ℕ → ℕ → Act f.World (Unit {0})
  write_migration_journal slot crc =
      write_and_verify migration_journal_addr
        (write_u32 migration_magic ++ (slot ∷ 0 ∷ 0 ∷ 0 ∷ write_u32 crc))

  unfoldable pub stage_v1_slot : ℕ → Act f.World (Unit {0})
  stage_v1_slot slot = do
    slot_data ← fetch (slot_addr_v1 slot) slot_size_v1
    (λ w.
        let (w', r) = write_and_verify migration_stage_addr slot_data w in
        (w', elim r [ done u ↦ done u | failed status ↦ failed error | unfinished ↦ unfinished ]))
    write_migration_journal slot (crc32 slot_data)

  -- The result is the slot that is staged.
  unfoldable pub load_staged_v1_slot : ℕ → Act f.World (List ℕ)
  load_staged_v1_slot slot = do
    slot_data ← fetch migration_stage_addr slot_size_v1
    known ← read_migration_journal slot (crc32 slot_data)
    refuse_if (not known) not_initialized
    pure slot_data

  unfoldable pub convert_staged_slot : ℕ → List ℕ → Act f.World (Unit {0})
  convert_staged_slot slot v1 =
      let count = get_or v1 1 0 in
      let old_payload_len = u16 (2 + count * instr_size_v1) in
      if get_or v1 0 0 != 1 then write_and_verify (slot_addr slot) (0 ∷ 0 ∷ []) else (do
        refuse_if (count == 0 || ltb 64 count) invalid_arg
        refuse_if (read_u32 v1 old_payload_len != crc32 (take old_payload_len v1)) error
        write_and_verify (slot_addr slot) (slot_bytes (deserialize_all_v1 v1 2 count)))

  -- The staged slot; a slot that is not staged yet is staged first.
  unfoldable pub staged_slot : ℕ → Act f.World (List ℕ)
  staged_slot slot w =
      let (w1, r) = load_staged_v1_slot slot w in
      elim r [
        | done staged ↦ (w1, done staged)
        | unfinished ↦ (w1, unfinished)
        | failed status ↦ (do stage_v1_slot slot; load_staged_v1_slot slot) w1
      ]

  unfoldable pub migrate_slot : ℕ → Act f.World (Unit {0})
  migrate_slot slot = do
    staged ← staged_slot slot
    convert_staged_slot slot staged
    store_byte (fram_base + 7) (if slot == 0 then 0xFF else slot - 1)

  -- The loop of `ResumeMigration`, `n` slots from the last one down.
  unfoldable pub migrate_slots : ℕ → Act f.World (Unit {0})
  migrate_slots zero = pure tt
  migrate_slots (suc slot) = do migrate_slot slot; migrate_slots slot

  -- The header with the version, the number of slots and the cursor that end every migration.
  abbrev pub current_header : List ℕ → List ℕ
  current_header header = take 4 header ++ (write_u16 version ++ (slot_count ∷ 0 ∷ []))

  unfoldable pub resume_migration : ℕ → Act f.World (Unit {0})
  resume_migration next_slot = do
    migrate_slots (next_slot + 1)
    header ← fetch fram_base header_size
    write_and_verify fram_base (current_header header)

  unfoldable pub start_migration : Act f.World (Unit {0})
  start_migration = do
    store_byte (fram_base + 7) (slot_count - 1)
    store_byte (fram_base + 4) migration_version
    resume_migration (slot_count - 1)

  -- The tests of `EnsureLayout` on the header.
  unfoldable pub check_header : List ℕ → Act f.World (Unit {0})
  check_header header =
      let found = read_u16 header 4 in
      if read_u32 header 0 != magic
      then write_and_verify fram_base (current_header (write_u32 magic))
      else if found == version && get_or header 6 0 == slot_count
      then pure tt
      else if found == version_v1
      then start_migration
      else if found == migration_version && get_or header 7 0 == 0xFF
      then write_and_verify fram_base
          (take 4 header ++ (write_u16 version ++ (get_or header 6 0 ∷ 0 ∷ [])))
      else if found == migration_version && ltb (get_or header 7 0) slot_count
      then resume_migration (get_or header 7 0)
      else fail invalid_arg

  unfoldable pub ensure_layout : Act f.World (Unit {0})
  ensure_layout = do header ← fetch fram_base header_size; check_header header
