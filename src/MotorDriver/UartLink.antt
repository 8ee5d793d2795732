-- ===== src/MotorDriver/UartLink.antt =====
-- MotorDriver/drivers/uart_link.cpp: the interrupt-fed receive buffer and the polled writes of the
-- UART. The vendor's DL_ and NVIC_ functions are the interface `Uart`; `context` and the pointers of
-- the configuration are not null.
pub mod Queue
pub mod Refinement
mod Examples
use guga_pi.Common.{
  zero, suc, none, some, true, false, [], ◌∷◌, Bool, ℕ, Option, List, if◌then◌else◌, Array, ltb,
  u16, ◌==◌, not, ◌&&◌, ◌+◌, u32, ◌||◌, leb, set_entry, ◌-◌,
}

pub data UartLinkStatus : Type 0 where
  ok invalid_argument not_initialized timeout : UartLinkStatus

-- `is_tx_full` and `drain` also give what the call leaves of the peripheral; `drain` gives the bytes
-- that come out until the receive FIFO is empty, `enable` stands for the calls around the interrupt
-- in `UartLink_Init`, `acknowledge` for those in the handler.
pub record Uart : Type 1 where
  pub State : Type 0
  pub is_tx_full : State → Bool × State
  pub transmit : State → ℕ → State
  pub drain : State → List ℕ × State
  pub enable : State → State
  pub acknowledge : State → State

pub record UartLinkConfig : Type 0 where
  pub tx_timeout_iterations : ℕ
  pub rx_buffer_size : ℕ

-- The context, and the buffer that its configuration points to.
pub record UartLinkContext : Type 0 where
  pub config : Option UartLinkConfig
  pub rx_head : ℕ
  pub rx_tail : ℕ
  pub rx_dropped_count : ℕ
  pub initialized : Bool
  pub rx_buffer : Array

unfoldable pub is_config_valid : UartLinkConfig → Bool
is_config_valid config = ltb 1 config.rx_buffer_size && ltb 0 config.tx_timeout_iterations

unfoldable pub next_rx_index : UartLinkConfig → ℕ → ℕ
next_rx_index config index =
    let index1 = u16 (index + 1) in if leb config.rx_buffer_size index1 then 0 else index1

unfoldable pub push_rx_from_isr : UartLinkConfig → UartLinkContext → ℕ → UartLinkContext
push_rx_from_isr config c value =
    let next_head = next_rx_index config c.rx_head in
    if next_head == c.rx_tail
    then record c { rx_dropped_count = u32 (c.rx_dropped_count + 1) }
    else record c { rx_buffer = set_entry c.rx_buffer c.rx_head value; rx_head = next_head }

unfoldable pub push_all : UartLinkConfig → UartLinkContext → List ℕ → UartLinkContext
push_all config c [] = c
push_all config c (x ∷ xs) = push_all config (push_rx_from_isr config c x) xs

unfoldable pub read_byte : UartLinkContext → Option (ℕ × UartLinkContext)
read_byte c = elim c.config [
  | none ↦ none
  | some config ↦
      if not c.initialized || c.rx_head == c.rx_tail
      then none
      else some (c.rx_buffer c.rx_tail, record c { rx_tail = next_rx_index config c.rx_tail })
]

unfoldable pub rx_available : UartLinkContext → ℕ
rx_available c = elim c.config [
  | none ↦ 0
  | some config ↦
      if not c.initialized
      then 0
      else if leb c.rx_tail c.rx_head
      then u16 (c.rx_head - c.rx_tail)
      else u16 (config.rx_buffer_size - c.rx_tail + c.rx_head)
]

unfoldable pub rx_dropped_count_of : UartLinkContext → ℕ
rx_dropped_count_of c = c.rx_dropped_count

module _ (u : Uart) where
  -- `WaitTxSpace`, with the iterations that are left.
  unfoldable pub wait_tx_space : ℕ → u.State → Bool × u.State
  wait_tx_space zero s = let (full, s1) = u.is_tx_full s in (not full, s1)
  wait_tx_space (suc left) s =
      let (full, s1) = u.is_tx_full s in
      elim full [ true ↦ wait_tx_space left s1 | false ↦ (true, s1) ]

  unfoldable pub uart_link_init :
      UartLinkContext → UartLinkConfig → u.State → UartLinkStatus × UartLinkContext × u.State
  uart_link_init c config s = if not (is_config_valid config) then (invalid_argument, c, s) else (
    ok,
    record c {
      config = some config;
      rx_head = 0;
      rx_tail = 0;
      rx_dropped_count = 0;
      initialized = true;
    },
    u.enable s,
  )

  abbrev pub transmitted : ℕ → Bool × u.State → UartLinkStatus × u.State
  transmitted value (space, s) = if space then (ok, u.transmit s value) else (timeout, s)

  unfoldable pub write_byte : UartLinkContext → ℕ → u.State → UartLinkStatus × u.State
  write_byte c value s = elim c.config [
    | none ↦ (not_initialized, s)
    | some config ↦
        if c.initialized
        then transmitted value (wait_tx_space config.tx_timeout_iterations s)
        else (not_initialized, s)
  ]

  -- The loop of `UartLink_Write`, from the bytes that are left.
  unfoldable pub write_bytes : UartLinkContext → List ℕ → u.State → UartLinkStatus × u.State
  write_bytes c [] s = (ok, s)
  write_bytes c (x ∷ xs) s =
      let (status, s1) = write_byte c x s in
      elim status [ ok ↦ write_bytes c xs s1 | failed ↦ (failed, s1) ]

  unfoldable pub write : UartLinkContext → List ℕ → u.State → UartLinkStatus × u.State
  write c bytes s = elim c.config [
    | none ↦ (not_initialized, s)
    | some config ↦ if c.initialized then write_bytes c bytes s else (not_initialized, s)
  ]

  unfoldable pub irq_handler : UartLinkContext → u.State → UartLinkContext × u.State
  irq_handler c s = elim c.config [
    | none ↦ (c, s)
    | some config ↦
        let (bytes, s1) = u.drain s in
        if c.initialized then (push_all config c bytes, u.acknowledge s1) else (c, s)
  ]
