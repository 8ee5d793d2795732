-- ===== src/Controller/SeqStore/State.antt =====
-- gugaPI/app/seq_store.cpp: the layout of the FRAM and what the store calls.
use guga_pi.Controller.DriverStatus.{DriverStatus}
use guga_pi.Common.{ℕ, Bool, Array, List, Option, ◌+◌, ◌*◌}

abbrev pub fram_base : ℕ
fram_base = 0x0100

abbrev pub magic : ℕ
magic = 0x53455131

abbrev pub version_v1 : ℕ
version_v1 = 1

abbrev pub version : ℕ
version = 2

abbrev pub migration_version : ℕ
migration_version = 3

abbrev pub instr_size_v1 : ℕ
instr_size_v1 = 10

abbrev pub instr_size : ℕ
instr_size = 14

abbrev pub slot_size : ℕ
slot_size = 2 + 64 * instr_size + 4

abbrev pub slot_size_v1 : ℕ
slot_size_v1 = 2 + 64 * instr_size_v1 + 4

abbrev pub header_size : ℕ
header_size = 8

abbrev pub slot_count : ℕ
slot_count = 8

abbrev pub migration_stage_addr : ℕ
migration_stage_addr = fram_base + header_size + slot_count * slot_size

abbrev pub migration_journal_addr : ℕ
migration_journal_addr = migration_stage_addr + slot_size_v1

abbrev pub migration_magic : ℕ
migration_magic = 0x3247494D

abbrev pub migration_journal_size : ℕ
migration_journal_size = 12

-- `Instr` of gugaPI/app/action.h; an int32_t is its pattern.
pub record Instr : Type 0 where
  pub op : ℕ
  pub param1 : ℕ
  pub param2 : ℕ
  pub until : ℕ
  pub condition_value : ℕ
  pub on_success : ℕ
  pub on_timeout : ℕ

abbrev pub act_op_road_nav : ℕ
act_op_road_nav = 19

abbrev pub act_op_dm_position : ℕ
act_op_dm_position = 20

-- What the store calls: gugaPI/board/board_fram.h and the runner of gugaPI/app/action.h. A read
-- returns its status and the buffer.
pub record Platform : Type 1 where
  pub World : Type 0
  pub fram_read : ℕ → ℕ → World → World × (DriverStatus × Array)
  pub fram_write : ℕ → List ℕ → World → World × DriverStatus
  pub fram_write_byte : ℕ → ℕ → World → World × DriverStatus
  pub instrs : World → List Instr
  pub validate_competition : World → World × DriverStatus
  pub clear : World → World × DriverStatus
  pub Condition : Type 0
  pub is_compare_op : ℕ → Bool
  pub decode_condition : Instr → Option Condition
  pub add_compare_instr : ℕ → ℕ → Condition → ℕ → ℕ → World → World × DriverStatus
  pub add_road_nav : ℕ → ℕ → ℕ → ℕ → ℕ → World → World × DriverStatus
  pub add_dm_position : Bool → ℕ → ℕ → ℕ → ℕ → ℕ → World → World × DriverStatus
  pub add_instr : ℕ → ℕ → ℕ → ℕ → ℕ → ℕ → World → World × DriverStatus
