-- ===== src/Controller/Lora/Retries.antt =====
-- gugaPI/app/lora_protocol.cpp: a sender does not wait for ever, and a whole exchange.
use guga_pi.Controller.Lora.State.{LoraContext, Radio}
use guga_pi.Controller.Lora.Receive.{write_encoded}
use guga_pi.Controller.Lora.Send.{process_timeouts, retry}
use guga_pi.Controller.DriverStatus.{timeout}
use guga_pi.Common.{
  zero, suc, ℕ, List, ◌≡◌, ◌∷◌, true, [], ◌≤◌, ◌<◌, sub32, ◌+◌, false, arith, length, suc,
}

module _ (r : Radio) where
  -- `LoraProtocol_ProcessTimeouts`, called at one time after another.
  unfoldable pub poll : LoraContext → r.World → List ℕ → LoraContext × r.World
  poll c w [] = (c, w)
  poll c w (now ∷ times) = let o = process_timeouts r c w now in poll o.context o.world times

  -- Each call comes when the timeout since the one before has passed.
  abbrev pub IsExpiring : ℕ → ℕ → List ℕ → Type 0
  IsExpiring timeout_ms since [] = Unit {0}
  IsExpiring timeout_ms since (now ∷ times) =
      (timeout_ms ≤ sub32 now since) × IsExpiring timeout_ms now times

  last_try :
      (c : LoraContext) (w : r.World) (now : ℕ)
      → c.initialized ≡ true
      → c.pending.awaiting_ack ≡ true
      → c.config.acknowledgment_timeout_ms ≤ sub32 now c.pending.since_ms
      → c.config.max_retries ≤ c.pending.retry_count
      → let o = process_timeouts r c w now in
        (o.context.pending.awaiting_ack ≡ false)
        × (o.context.last_tx_status ≡ timeout)
        × (o.world ≡ w)
  unfolding process_timeouts
  last_try c w now on waiting late spent = ground arith

  one_try :
      (c : LoraContext) (w : r.World) (now : ℕ)
      → c.initialized ≡ true
      → c.pending.awaiting_ack ≡ true
      → c.config.acknowledgment_timeout_ms ≤ sub32 now c.pending.since_ms
      → c.pending.retry_count < c.config.max_retries
      → c.config.max_retries < 256
      → let o = process_timeouts r c w now in
        (o.context.initialized ≡ true)
        × (o.context.config ≡ c.config)
        × (o.context.pending.awaiting_ack ≡ true)
        × (o.context.pending.since_ms ≡ now)
        × (o.context.pending.retry_count ≡ c.pending.retry_count + 1)
  unfolding process_timeouts retry write_encoded
  one_try c w now on waiting late left fits = ground arith

  -- A sender that waits for an acknowledgement gives up: after as many expired timeouts as it has
  -- retries left and one more, it waits no longer and reports a timeout, whether the radio takes its
  -- retransmissions or not.
  pub retries_end :
      (left : ℕ) (c : LoraContext) (w : r.World) (times : List ℕ)
      → c.initialized ≡ true
      → c.pending.awaiting_ack ≡ true
      → c.config.max_retries < 256
      → c.config.max_retries ≡ c.pending.retry_count + left
      → length times ≡ suc left
      → IsExpiring c.config.acknowledgment_timeout_ms c.pending.since_ms times
      → let c' = (poll c w times).0 in
        (c'.pending.awaiting_ack ≡ false) × (c'.last_tx_status ≡ timeout)
  unfolding poll
  retries_end left c w [] on waiting fits budget count late = absurd (omega arith)
  retries_end zero c w (now ∷ []) on waiting fits budget count late =
      let (done, status, same) = last_try c w now on waiting late.0 (omega arith) in (done, status)
  retries_end zero c w (now ∷ next ∷ times) on waiting fits budget count late = absurd (omega arith)
  retries_end (suc left) c w (now ∷ times) on waiting fits budget count late =
      let (on', config, waiting', since, tries) =
        one_try c w now on waiting late.0 (omega arith) fits in
      let o = process_timeouts r c w now in
      retries_end left o.context o.world times on' waiting' (rw config fits)
        (rw (config, tries) (omega arith)) (omega arith) (rw (config, since) late.1)
