-- ===== src/Controller/SeqStore/Examples.antt =====
-- gugaPI/app/seq_store.cpp: the theorems on a concrete memory.
use guga_pi.Controller.SeqStore.State.{Platform, Instr, fram_base, header_size, act_op_road_nav}
use guga_pi.Controller.SeqStore.Codec.{read_u16, read_u32}
use guga_pi.Controller.SeqStore.Slots.{save, read}
use guga_pi.Controller.SeqStore.Memory.{IsMemory, IsCurrent}
use guga_pi.Controller.SeqStore.Persistence.{read-save, save-others}
use guga_pi.Controller.Action.{done}
use guga_pi.Controller.DriverStatus.{ok, error}
use guga_pi.Common.{
  ℕ, Array, List, false, none, ◌+◌, list_of, ◌∙◌, fill, ◌∷◌, ◌≡◌, update, suc, ap, [], refl, arith,
  zero,
}
use guga_pi.Controller.SeqStore.RoundTrip.{kept_all, IsTyped}
use guga_pi.Controller.SeqStore.Layout.{slot_addr}

pub record Board : Type 0 where
  fram : Array
  runner : List Instr

abbrev board : Platform
board = record {
  World = Board;
  fram_read = λ address n w. (w, (ok, λ i. w.fram (address + i)));
  fram_write = λ address bytes w. (record w { fram = fill w.fram address bytes }, ok);
  fram_write_byte = λ address value w. (record w { fram = update w.fram address value }, ok);
  instrs = λ w. w.runner;
  validate_competition = λ w. (w, ok);
  clear = λ w. (record w { runner = [] }, ok);
  Condition = ℕ;
  is_compare_op = λ op. false;
  decode_condition = λ i. none;
  add_compare_instr = λ op p c s t w. (w, error);
  add_road_nav = λ c p q s t w. (w, error);
  add_dm_position = λ relative p q c s t w. (w, error);
  add_instr = λ op p q until s t w. (w, error);
}

list_of-shift :
    (a : Array) (address i n : ℕ) → list_of (λ j. a (address + j)) i n ≡ list_of a (address + i) n
list_of-shift a address i zero = refl
list_of-shift a address i (suc n) =
    let e : address + (i + 1) ≡ address + i + 1 = omega arith in
    ap (λ (t : List ℕ). a (address + i) ∷ t)
      (list_of-shift a address (i + 1) n ∙ ap (λ (k : ℕ). list_of a k n) e)

board-IsMemory : IsMemory board
board-IsMemory = record {
  contents = λ w. w.fram;
  verdict = λ xs. ok;
  reads = λ address n w h. (
    refl,
    list_of-shift w.fram address 0 n
        ∙ ap (λ (k : ℕ). list_of w.fram k n) (let e : address + 0 ≡ address = omega arith in e),
    refl,
    refl,
  );
  writes = λ address bytes w h. (refl, refl);
  validates = λ w. (refl, refl, refl);
}

-- The header of the current layout, and nothing else.
abbrev blank : Array
blank = fill (λ i. 0) 0x0100 (0x31 ∷ 0x51 ∷ 0x45 ∷ 0x53 ∷ 2 ∷ 0 ∷ 8 ∷ 0 ∷ [])

abbrev drive : Instr
drive = record {
  op = 1;
  param1 = 300;
  param2 = 70536;
  until = 0;
  condition_value = 0;
  on_success = 255;
  on_timeout = 255;
}

abbrev program : List Instr
program = drive ∷ record drive { op = act_op_road_nav; condition_value = 70000 } ∷ []

abbrev loaded : Board
loaded = record { fram = blank; runner = program }

blank-IsCurrent : IsCurrent (list_of blank fram_base header_size)
unfolding read_u16 read_u32
blank-IsCurrent = record { has_magic = refl; has_version = refl; has_slots = refl }

drive-IsTyped : IsTyped drive
drive-IsTyped = record {
  op_fits = omega arith;
  param1_fits = omega arith;
  param2_fits = omega arith;
  until_fits = omega arith;
  condition_fits = omega arith;
}

nav-IsTyped : IsTyped (record drive { op = act_op_road_nav; condition_value = 70000 })
nav-IsTyped = record {
  op_fits = omega arith;
  param1_fits = omega arith;
  param2_fits = omega arith;
  until_fits = omega arith;
  condition_fits = omega arith;
}

read-save_example :
    let (w', saved) = save board 3 loaded in
    (saved ≡ done tt) × ((read board 3 w').1 ≡ done (kept_all program))
unfolding board-IsMemory
read-save_example =
    read-save board board-IsMemory 3 loaded (omega arith) blank-IsCurrent (omega arith)
      (omega arith) (drive-IsTyped, (nav-IsTyped, tt)) refl

save-others_example :
    let (w', saved) = save board 3 loaded in
    (list_of w'.fram (slot_addr 5) 16 ≡ list_of blank (slot_addr 5) 16)
    × (list_of w'.fram fram_base header_size ≡ list_of blank fram_base header_size)
unfolding board-IsMemory
save-others_example =
    save-others board board-IsMemory 3 5 16 loaded (omega arith) (omega arith) (omega arith)
      (omega arith) blank-IsCurrent (omega arith) refl
