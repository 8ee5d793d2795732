-- ===== src/MotorDriver/UartLink/Queue.antt =====
-- MotorDriver/drivers/uart_link.cpp: the receive buffer is a bounded queue of bytes.
use guga_pi.Common.{
  none, some, true, false, [], ◌∷◌, ◌≡◌, ℕ, List, ◌<◌, if◌then◌else◌, entries, ◌+◌, ◌^◌, leb, ◌++◌,
  ◌-◌, ◌≤◌, u32, arith, ◌==◌, index_after, suc, entries-set_entry, refl, set_entry, ap, ◌∙◌, ◌⊎◌,
  Bool-cases, length, inl, length-entries, inr, sym, ring_next,
}
use guga_pi.MotorDriver.UartLink.{
  UartLinkConfig, push_rx_from_isr, UartLinkContext, next_rx_index, read_byte, rx_available,
}

-- The indices are in the buffer, whose size a uint16_t counts.
pub record IsValid (config : UartLinkConfig) (c : UartLinkContext) : Type 0 where
  pub configured : c.config ≡ some config
  pub ready : c.initialized ≡ true
  pub big : 1 < config.rx_buffer_size
  pub small : config.rx_buffer_size < 2 ^ 16
  pub head_in : c.rx_head < config.rx_buffer_size
  pub tail_in : c.rx_tail < config.rx_buffer_size

-- The number of the bytes that wait.
abbrev pub waiting : UartLinkConfig → UartLinkContext → ℕ
waiting config c =
    if leb c.rx_tail c.rx_head
    then c.rx_head - c.rx_tail
    else config.rx_buffer_size - c.rx_tail + c.rx_head

-- The bytes that wait, the oldest first.
unfoldable pub contents : UartLinkConfig → UartLinkContext → List ℕ
contents config c = entries c.rx_buffer config.rx_buffer_size c.rx_tail (waiting config c)

-- A received byte: as long as fewer bytes wait than the size of the buffer less one, it joins the
-- end of the queue; when the queue is full, it is dropped and counted, and the queue is unchanged.
pub push_lem :
    (config : UartLinkConfig) (c : UartLinkContext) (value : ℕ)
    → IsValid config c
    → let c' = push_rx_from_isr config c value in
      IsValid config c'
      × (waiting config c + 1 < config.rx_buffer_size
          → (contents config c' ≡ contents config c ++ value ∷ [])
            × (c'.rx_dropped_count ≡ c.rx_dropped_count))
      × (config.rx_buffer_size ≤ waiting config c + 1
          → (contents config c' ≡ contents config c)
            × (c'.rx_dropped_count ≡ u32 (c.rx_dropped_count + 1)))
unfolding push_rx_from_isr next_rx_index contents
push_lem config c value v = (valid, joins, drops)
  where
    c' : UartLinkContext
    c' = push_rx_from_isr config c value

    stored : UartLinkContext
    stored = record c {
      rx_buffer = set_entry c.rx_buffer c.rx_head value;
      rx_head = next_rx_index config c.rx_head;
    }

    valid : IsValid config c'
    valid = ground arith

    joins :
        waiting config c + 1 < config.rx_buffer_size
        → (contents config c' ≡ contents config c ++ value ∷ [])
          × (c'.rx_dropped_count ≡ c.rx_dropped_count)
    joins room =
        let space : (next_rx_index config c.rx_head == c.rx_tail) ≡ false = ground arith in
        let at_end : c.rx_head ≡ index_after config.rx_buffer_size c.rx_tail (waiting config c) =
          ground arith in
        let same : c' ≡ stored = rw space refl in
        let more : waiting config stored ≡ suc (waiting config c) = ground arith in
        let added =
          entries-set_entry c.rx_buffer config.rx_buffer_size c.rx_tail (waiting config c) value
            c.rx_head v.tail_in (omega arith) at_end in
        rw same
          (ap (λ n. entries stored.rx_buffer config.rx_buffer_size c.rx_tail n) more ∙ added, refl)

    drops :
        config.rx_buffer_size ≤ waiting config c + 1
        → (contents config c' ≡ contents config c)
          × (c'.rx_dropped_count ≡ u32 (c.rx_dropped_count + 1))
    drops full =
        let none_left : (next_rx_index config c.rx_head == c.rx_tail) ≡ true = ground arith in
        rw none_left (refl, refl)

-- A read takes the oldest byte: either the queue is empty and none comes, or the byte that comes is
-- the first of the queue and the rest of the queue is left.
pub read_byte_lem :
    (config : UartLinkConfig) (c : UartLinkContext)
    → IsValid config c
    → let c' = record c { rx_tail = next_rx_index config c.rx_tail } in
      let x = c.rx_buffer c.rx_tail in
      ((contents config c ≡ []) × (read_byte c ≡ none))
      ⊎ ((contents config c ≡ x ∷ contents config c')
          × (read_byte c ≡ some (x, c'))
          × IsValid config c')
unfolding next_rx_index contents read_byte entries
read_byte_lem config c v = elim (Bool-cases (c.rx_head == c.rx_tail)) [
  | inl e ↦
      let none_wait : waiting config c ≡ 0 = ground arith in inl (rw none_wait refl, ground arith)
  | inr e ↦
      let one_more : waiting config c ≡ suc (waiting config c') = ground arith in
      let next : next_rx_index config c.rx_tail ≡ ring_next config.rx_buffer_size c.rx_tail =
        ground arith in
      inr (
        ap (entries c.rx_buffer config.rx_buffer_size c.rx_tail) one_more ∙ rw next refl,
        ground arith,
        ground arith,
      )
]
  where
    c' : UartLinkContext
    c' = record c { rx_tail = next_rx_index config c.rx_tail }

pub length-contents :
    (config : UartLinkConfig) (c : UartLinkContext) → length (contents config c) ≡ waiting config c
unfolding contents
length-contents config c =
    length-entries c.rx_buffer config.rx_buffer_size c.rx_tail (waiting config c)

-- `UartLink_RxAvailable` is the length of the queue, which is below the size of the buffer.
pub rx_available_lem :
    (config : UartLinkConfig) (c : UartLinkContext)
    → IsValid config c
    → (rx_available c ≡ length (contents config c))
      × (length (contents config c) < config.rx_buffer_size)
unfolding contents rx_available
rx_available_lem config c v =
    let count = length-entries c.rx_buffer config.rx_buffer_size c.rx_tail (waiting config c) in
    let here : rx_available c ≡ waiting config c = ground arith in
    (here ∙ sym count, ground (arith, count))
