-- ===== src/Controller/SeqStore/Memory.antt =====
-- gugaPI/app/seq_store.cpp: what is saved in a slot is what is read from it.
use guga_pi.Controller.SeqStore.State.{
  Platform, Instr, instr_size, slot_count, fram_base, header_size, magic, version,
}
use guga_pi.Controller.SeqStore.Codec.{read_u16, read_u32, slot_bytes}
use guga_pi.Controller.SeqStore.Layout.{slot_addr, fetch, store, check_header, ensure_layout}
use guga_pi.Controller.SeqStore.Slots.{save, read}
use guga_pi.Controller.SeqStore.RoundTrip.{
  IsStorable, length-slot_bytes, slot_bytes-crc, slot_bytes-marks, slot_bytes-instrs,
}
use guga_pi.Controller.Yields.{Yields, bind-Yields, pure-Yields, refuse_if-Yields}
use guga_pi.Controller.DriverStatus.{DriverStatus, ok, not_initialized}
use guga_pi.Controller.SeqStore.Slots.{validate, store_instrs, read_marked, decode_slot}
use guga_pi.Common.{
  ℕ, false, Array, List, ◌+◌, ◌≡◌, list_of, ◌<◌, ◌≤◌, get_or, arith, length, fill, ◌∙◌, All, refl,
  ◌*◌, ◌∷◌, [], subst, list_of-fill-take, sym, ap, list_of-fill,
}

abbrev fram_size : ℕ
fram_size = 0x2000

-- An FRAM of 8 KB that keeps what is written to it, and a runner whose validation only looks at its
-- instructions.
pub record IsMemory (f : Platform) : Type 0 where
  pub contents : f.World → Array
  pub verdict : List Instr → DriverStatus
  pub reads :
      (address n : ℕ) (w : f.World)
      → address + n ≤ fram_size
      → let (w', (status, buffer)) = f.fram_read address n w in
        (status ≡ ok)
        × (list_of buffer 0 n ≡ list_of (contents w) address n)
        × (contents w' ≡ contents w)
        × (f.instrs w' ≡ f.instrs w)
  pub writes :
      (address : ℕ) (bytes : List ℕ) (w : f.World)
      → address + length bytes ≤ fram_size
      → let (w', status) = f.fram_write address bytes w in
        (status ≡ ok) × (contents w' ≡ fill (contents w) address bytes)
  pub validates :
      (w : f.World)
      → let (w', status) = f.validate_competition w in
        (status ≡ verdict (f.instrs w)) × (contents w' ≡ contents w) × (f.instrs w' ≡ f.instrs w)

-- A header of the current layout.
pub record IsCurrent (header : List ℕ) : Type 0 where
  pub has_magic : read_u32 header 0 ≡ magic
  pub has_version : read_u16 header 4 ≡ version
  pub has_slots : get_or header 6 0 ≡ slot_count

module _ (f : Platform) (m : IsMemory f) where
  -- The contents of the FRAM and the instructions of the runner.
  pub record Keeps (a : Array) (xs : List Instr) (w : f.World) : Type 0 where
    pub contents_are : m.contents w ≡ a
    pub instrs_are : f.instrs w ≡ xs

  fetch-Yields :
      (address n : ℕ) (a : Array) (xs : List Instr) (w : f.World)
      → address + n ≤ fram_size
      → Keeps a xs w
      → Yields (fetch f address n) w (list_of a address n) (Keeps a xs)
  unfolding fetch
  fetch-Yields address n a xs w h v =
      let (status, buffer, same, still) = m.reads address n w h in
      record {
        result = rw (status, buffer, v.contents_are) refl;
        after =
            rw status
              (record { contents_are = same ∙ v.contents_are; instrs_are = still ∙ v.instrs_are });
      }

  check_header-Yields :
      (a : Array) (xs : List Instr) (header : List ℕ) (w : f.World)
      → IsCurrent header
      → Keeps a xs w
      → Yields (check_header f header) w tt (Keeps a xs)
  unfolding check_header
  check_header-Yields a xs header w current v =
      rw (current.has_magic, current.has_version, current.has_slots) (pure-Yields tt w _ v)

  ensure_layout-Yields :
      (a : Array) (xs : List Instr) (w : f.World)
      → IsCurrent (list_of a fram_base header_size)
      → Keeps a xs w
      → Yields (ensure_layout f) w tt (Keeps a xs)
  unfolding ensure_layout
  ensure_layout-Yields a xs w current v =
      bind-Yields _ (fetch-Yields fram_base header_size a xs w (omega arith) v)
        (λ w1 v1. check_header-Yields a xs (list_of a fram_base header_size) w1 current v1)

  -- The bytes of some instructions are in a slot.
  pub record Stores (b : Array) (slot : ℕ) (xs : List Instr) : Type 0 where
    pub marks : list_of b (slot_addr slot) 2 ≡ 1 ∷ length xs ∷ []
    pub whole : list_of b (slot_addr slot) (2 + length xs * instr_size + 4) ≡ slot_bytes xs

  decode_slot-Yields :
      (b : Array) (xs ys : List Instr) (w : f.World)
      → All IsStorable xs
      → Keeps b ys w
      → Yields (decode_slot f (length xs) (slot_bytes xs)) w xs (Keeps b ys)
  unfolding decode_slot
  decode_slot-Yields b xs ys w v held =
      rw (slot_bytes-crc xs, slot_bytes-instrs xs v)
        (bind-Yields _ (refuse_if-Yields _ _ w _ (ground arith) held)
          (λ w1 v1. pure-Yields xs w1 _ v1))

  read_marked-Yields :
      (slot : ℕ) (b : Array) (xs ys : List Instr) (w : f.World)
      → slot < slot_count
      → 0 < length xs
      → length xs ≤ 64
      → All IsStorable xs
      → Stores b slot xs
      → Keeps b ys w
      → Yields (read_marked f slot (1 ∷ length xs ∷ [])) w xs (Keeps b ys)
  unfolding read_marked
  read_marked-Yields slot b xs ys w in_range some_instrs fits v stored held =
      let n = 2 + length xs * instr_size + 4 in
      bind-Yields _ (refuse_if-Yields false not_initialized w _ refl held) (λ w1 v1.
        bind-Yields _ (refuse_if-Yields _ _ w1 _ (ground (arith, some_instrs, fits)) v1) (λ w2 v2.
          bind-Yields _ (fetch-Yields (slot_addr slot) n b ys w2 (omega arith) v2) (λ w3 v3.
            subst (λ (buf : List ℕ). Yields (decode_slot f (length xs) buf) w3 xs (Keeps b ys))
              (sym stored.whole) (decode_slot-Yields b xs ys w3 v v3))))

  -- A slot that holds the bytes of some instructions is read as these.
  pub read-Yields :
      (slot : ℕ) (b : Array) (xs ys : List Instr) (w : f.World)
      → slot < slot_count
      → IsCurrent (list_of b fram_base header_size)
      → 0 < length xs
      → length xs ≤ 64
      → All IsStorable xs
      → Stores b slot xs
      → Keeps b ys w
      → Yields (read f slot) w xs (Keeps b ys)
  unfolding read
  read-Yields slot b xs ys w in_range current some_instrs fits v stored held =
      bind-Yields _ (refuse_if-Yields _ _ w _ (ground arith) held) (λ w1 v1.
        bind-Yields _ (ensure_layout-Yields b ys w1 current v1) (λ w2 v2.
          bind-Yields _ (fetch-Yields (slot_addr slot) 2 b ys w2 (omega arith) v2) (λ w3 v3.
            subst (λ (header : List ℕ). Yields (read_marked f slot header) w3 xs (Keeps b ys))
              (sym stored.marks)
              (read_marked-Yields slot b xs ys w3 in_range some_instrs fits v stored v3))))

  pub slot_bytes-Stores :
      (a : Array) (slot : ℕ) (xs : List Instr)
      → Stores (fill a (slot_addr slot) (slot_bytes xs)) slot xs
  slot_bytes-Stores a slot xs =
      let here = slot_addr slot in
      let bytes = slot_bytes xs in
      let size = length-slot_bytes xs in
      record {
        marks = list_of-fill-take a here bytes 2 (omega (arith, size)) ∙ slot_bytes-marks xs;
        whole = ap (list_of (fill a here bytes) here) (sym size) ∙ list_of-fill a here bytes;
      }

  validate-Yields :
      (a : Array) (xs : List Instr) (w : f.World)
      → m.verdict xs ≡ ok
      → Keeps a xs w
      → Yields (validate f) w tt (Keeps a xs)
  unfolding validate
  validate-Yields a xs w accepted v =
      let (judged, same, still) = m.validates w in
      let passed : (f.validate_competition w).1 ≡ ok =
        judged ∙ ap m.verdict v.instrs_are ∙ accepted in
      record {
        result = rw passed refl;
        after =
            rw passed
              (record { contents_are = same ∙ v.contents_are; instrs_are = still ∙ v.instrs_are });
      }

  store_instrs-Yields :
      (slot : ℕ) (a : Array) (xs : List Instr) (w : f.World)
      → slot < slot_count
      → length xs ≤ 64
      → Keeps a xs w
      → Yields
          (store_instrs f slot)
          w
          tt
          (λ w'. m.contents w' ≡ fill a (slot_addr slot) (slot_bytes xs))
  unfolding store_instrs store
  store_instrs-Yields slot a xs w in_range fits v =
      let (written, contents) =
        m.writes (slot_addr slot) (slot_bytes xs) w (omega (arith, length-slot_bytes xs)) in
      record {
        result = rw (v.instrs_are, written) refl;
        after =
            rw (v.instrs_are, written)
              (rw contents
                (ap (λ (b : Array). fill b (slot_addr slot) (slot_bytes xs)) v.contents_are));
      }

  -- A save writes its slot and no other byte.
  pub save-Yields :
      (slot : ℕ) (a : Array) (xs : List Instr) (w : f.World)
      → slot < slot_count
      → IsCurrent (list_of a fram_base header_size)
      → length xs ≤ 64
      → m.verdict xs ≡ ok
      → Keeps a xs w
      → Yields (save f slot) w tt (λ w'. m.contents w' ≡ fill a (slot_addr slot) (slot_bytes xs))
  unfolding save
  save-Yields slot a xs w in_range current fits accepted v =
      bind-Yields _ (refuse_if-Yields _ _ w _ (ground arith) v) (λ w1 v1.
        bind-Yields _ (ensure_layout-Yields a xs w1 current v1) (λ w2 v2.
          bind-Yields _ (validate-Yields a xs w2 accepted v2)
            (λ w3 v3. store_instrs-Yields slot a xs w3 in_range fits v3)))
