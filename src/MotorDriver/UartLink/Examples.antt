-- ===== src/MotorDriver/UartLink/Examples.antt =====
-- MotorDriver/drivers/uart_link.cpp: the theorems on a buffer of three bytes.
use guga_pi.MotorDriver.UartLink.Refinement.{
  arrives, reads, link_reads, queue_reads, link_refines_queue,
}
use guga_pi.MotorDriver.UartLink.Queue.{IsValid, contents}
use guga_pi.Common.{some, true, [], ◌∷◌, ◌≡◌, arith, refl}
use guga_pi.MotorDriver.UartLink.{UartLinkConfig, UartLinkContext}

abbrev three_bytes : UartLinkConfig
three_bytes = record { tx_timeout_iterations = 5; rx_buffer_size = 3 }

-- One byte waits, at the end of the buffer.
abbrev link : UartLinkContext
link = record {
  config = some three_bytes;
  rx_head = 0;
  rx_tail = 2;
  rx_dropped_count = 0;
  initialized = true;
  rx_buffer = λ i. 7;
}

link-IsValid : IsValid three_bytes link
link-IsValid = record {
  configured = refl;
  ready = refl;
  big = omega arith;
  small = omega arith;
  head_in = omega arith;
  tail_in = omega arith;
}

link_refines_queue_example :
    let es = arrives 1 ∷ arrives 2 ∷ reads ∷ reads ∷ reads ∷ [] in
    link_reads three_bytes link es ≡ queue_reads 2 (contents three_bytes link) es
link_refines_queue_example =
    link_refines_queue three_bytes link (arrives 1 ∷ arrives 2 ∷ reads ∷ reads ∷ reads ∷ [])
      link-IsValid
