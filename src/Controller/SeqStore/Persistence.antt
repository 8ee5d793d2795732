-- ===== src/Controller/SeqStore/Persistence.antt =====
-- gugaPI/app/seq_store.cpp: a slot keeps what is saved in it, and the other slots keep theirs.
use guga_pi.Controller.SeqStore.State.{Platform, slot_count, slot_size, fram_base, header_size}
use guga_pi.Controller.SeqStore.Codec.{slot_bytes}
use guga_pi.Controller.SeqStore.Layout.{slot_addr}
use guga_pi.Controller.SeqStore.Slots.{save, read}
use guga_pi.Controller.SeqStore.RoundTrip.{
  IsTyped, kept_all, length-slot_bytes, kept_all-IsStorable, length-kept_all, slot_bytes-kept_all,
}
use guga_pi.Controller.SeqStore.Memory.{
  IsMemory, IsCurrent, save-Yields, read-Yields, slot_bytes-Stores,
}
use guga_pi.Controller.Action.{done}
use guga_pi.Controller.DriverStatus.{ok}
use guga_pi.Common.{
  ℕ, Array, ◌<◌, list_of, ◌≢◌, length, ◌≤◌, All, ◌≡◌, fill, ap, list_of-fill-past, ◌∙◌, arith,
  Bool-cases, refl, ltb, inl, inr, list_of-fill-beyond, List, sym,
}

module _ (f : Platform) (m : IsMemory f) where
  -- With a memory that keeps what is written and a validation that only looks at the instructions:
  -- when the layout of the store is the current one, the runner holds 1 to 64 instructions whose
  -- fields are in the ranges of their C types, and the validation accepts them, a save to a slot
  -- succeeds and a read of it then gives the instructions, each with the low sixteen bits of its
  -- second parameter.
  pub read-save :
      (slot : ℕ) (w : f.World)
      → slot < slot_count
      → IsCurrent (list_of (m.contents w) fram_base header_size)
      → 0 < length (f.instrs w)
      → length (f.instrs w) ≤ 64
      → All IsTyped (f.instrs w)
      → m.verdict (f.instrs w) ≡ ok
      → let (w', saved) = save f slot w in
        (saved ≡ done tt) × ((read f slot w').1 ≡ done (kept_all (f.instrs w)))
  read-save slot w in_range current some_instrs fits v accepted =
      let a = m.contents w in
      let xs = f.instrs w in
      let ks = kept_all xs in
      let y =
        save-Yields f m slot a xs w in_range current fits accepted
          (record { contents_are = refl; instrs_are = refl }) in
      let w' = (save f slot w).0 in
      let b = fill a (slot_addr slot) (slot_bytes ks) in
      let after : m.contents w' ≡ b =
        y.after ∙ ap (λ (t : List ℕ). fill a (slot_addr slot) t) (sym (slot_bytes-kept_all xs)) in
      let current' : IsCurrent (list_of b fram_base header_size) =
        rw
          (list_of-fill-past a (slot_addr slot) (slot_bytes ks) fram_base header_size (omega arith))
          current in
      let size = length-kept_all xs in
      let z =
        read-Yields f m slot b ks (f.instrs w') w' in_range current' (rw size some_instrs)
          (rw size fits) (kept_all-IsStorable xs v) (slot_bytes-Stores f m a slot ks)
          (record { contents_are = after; instrs_are = refl }) in
      (y.result, z.result)

  -- A save to one slot of a store whose layout is the current one leaves the bytes of every other slot
  -- (the first `n` of them, for any `n` up to the size of a slot) and those of the header as they were.
  pub save-others :
      (slot other n : ℕ) (w : f.World)
      → slot < slot_count
      → other < slot_count
      → slot ≢ other
      → n ≤ slot_size
      → IsCurrent (list_of (m.contents w) fram_base header_size)
      → length (f.instrs w) ≤ 64
      → m.verdict (f.instrs w) ≡ ok
      → let (w', saved) = save f slot w in
        (list_of (m.contents w') (slot_addr other) n ≡ list_of (m.contents w) (slot_addr other) n)
        × (list_of (m.contents w') fram_base header_size
            ≡ list_of (m.contents w) fram_base header_size)
  save-others slot other n w in_range in_range' different le current fits accepted =
      let a = m.contents w in
      let bytes = slot_bytes (f.instrs w) in
      let size = length-slot_bytes (f.instrs w) in
      let here = slot_addr slot in
      let there = slot_addr other in
      let y =
        save-Yields f m slot a (f.instrs w) w in_range current fits accepted
          (record { contents_are = refl; instrs_are = refl }) in
      (
        ap (λ (b : Array). list_of b there n) y.after ∙ (elim (Bool-cases (ltb other slot)) [
          | inl below ↦ list_of-fill-past a here bytes there n (ground (arith, below))
          | inr above ↦ list_of-fill-beyond a here bytes there n (ground (arith, above, size))
        ]),
        ap (λ (b : Array). list_of b fram_base header_size) y.after
            ∙ list_of-fill-past a here bytes fram_base header_size (omega arith),
      )
