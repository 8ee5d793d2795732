-- ===== src/MotorDriver/UartLink/Refinement.antt =====
-- MotorDriver/drivers/uart_link.cpp: the interrupt and the reader together against a bounded queue.
use guga_pi.MotorDriver.UartLink.Queue.{IsValid, contents, push_lem, read_byte_lem, length-contents}
use guga_pi.MotorDriver.UartLink.{read_byte, UartLinkContext, UartLinkConfig, push_rx_from_isr}
use guga_pi.Common.{
  none, some, [], ◌∷◌, ℕ, Option, List, ◌-◌, if◌then◌else◌, ◌≡◌, ltb, ap, length, refl, ◌++◌, inl,
  inr, Bool-cases, sym, arith,
}

-- A byte comes, or the application reads.
pub data Event : Type 0 where
  arrives : ℕ → Event
  reads : Event

abbrev taken : UartLinkContext → Option (ℕ × UartLinkContext) → UartLinkContext × Option ℕ
taken c none = (c, none)
taken c (some (x, c')) = (c', some x)

unfoldable pub link_step : UartLinkConfig → UartLinkContext → Event → UartLinkContext × Option ℕ
link_step config c (arrives x) = (push_rx_from_isr config c x, none)
link_step config c reads = taken c (read_byte c)

-- The queue that the link stands for: it holds at most `room` bytes and refuses what comes after.
unfoldable pub queue_step : ℕ → List ℕ → Event → List ℕ × Option ℕ
queue_step room q (arrives x) = (if ltb (length q) room then q ++ x ∷ [] else q, none)
queue_step room [] reads = ([], none)
queue_step room (x ∷ q) reads = (q, some x)

-- What the reads give.
unfoldable pub link_reads : UartLinkConfig → UartLinkContext → List Event → List (Option ℕ)
link_reads config c [] = []
link_reads config c (e ∷ es) = let (c', out) = link_step config c e in out ∷ link_reads config c' es

unfoldable pub queue_reads : ℕ → List ℕ → List Event → List (Option ℕ)
queue_reads room q [] = []
queue_reads room q (e ∷ es) = let (q', out) = queue_step room q e in out ∷ queue_reads room q' es

-- The step of the link is the step of the queue of what it holds.
link_step-queue_step :
    (config : UartLinkConfig) (c : UartLinkContext) (e : Event)
    → IsValid config c
    → let (c', out) = link_step config c e in
      IsValid config c'
      × (queue_step (config.rx_buffer_size - 1) (contents config c) e ≡ (contents config c', out))
unfolding link_step queue_step
link_step-queue_step config c (arrives x) v =
    let (valid, joins, drops) = push_lem config c x v in
    let count = length-contents config c in
    let q = contents config c in
    (
      valid,
      elim (Bool-cases (ltb (length q) (config.rx_buffer_size - 1))) [
        | inl e ↦ rw e (ap (λ t. (t, none)) (sym (joins (ground (arith, count))).0))
        | inr e ↦ rw e (ap (λ t. (t, none)) (sym (drops (ground (arith, count))).0))
      ],
    )
link_step-queue_step config c reads v = elim (read_byte_lem config c v) [
  | inl (empty, e) ↦ rw (e, empty) (v, refl)
  | inr (first, e, valid) ↦ rw (e, first) (valid, refl)
]

-- From a valid link on, whatever bytes come and whenever the application reads, the reads give what
-- a first-in first-out queue gives that holds one byte less than the buffer has and refuses the
-- bytes that come when it is full.
pub link_refines_queue :
    (config : UartLinkConfig) (c : UartLinkContext) (es : List Event)
    → IsValid config c
    → link_reads config c es ≡ queue_reads (config.rx_buffer_size - 1) (contents config c) es
unfolding link_reads queue_reads
link_refines_queue config c [] v = refl
link_refines_queue config c (e ∷ es) v =
    let (valid, same) = link_step-queue_step config c e v in
    rw same (
      ap (λ t. (link_step config c e).1 ∷ t)
        (link_refines_queue config (link_step config c e).0 es valid))
