-- ===== src/RealTime/Irq.antt =====
-- mt3620-uart.c: `Uart_HandleIrq` and `CheckForCompletedTranmission`. What the UART's registers
-- give is an argument; what is written to the transmit register is a result.
use modbus_sphere_library.Base.{
  ℕ, zero, suc, ◌+◌, ◌-◌, ◌%◌, ◌^◌, List, [], ◌∷◌, ◌++◌, Bool, true, false, ◌&&◌, ◌||◌, leb, ◌==◌,
  if◌then◌else◌,
}
use modbus_sphere_library.Outcome.{Outcome, ok, hang, ◌>>=◌}
use modbus_sphere_library.Memory.{read_byte, write_byte}
use modbus_sphere_library.RealTime.Uart.{UartRing, tx_buffer_size, rx_buffer_size}

abbrev pub tx_fifo_depth : ℕ
tx_fifo_depth = 16

-- The fields of `UartInfo` that change after the start, and whether the interrupt on an empty
-- transmit FIFO is enabled.
pub record UartInfo : Type 0 where
  pub tx : UartRing
  pub rx : UartRing
  pub tx_started : Bool
  pub one_byte_left : Bool
  pub tx_interrupt : Bool

-- The loop that fills the transmit FIFO: the bytes written to it, and the counter.
unfoldable pub tx_fill : List ℕ → ℕ → ℕ → ℕ → Outcome (List ℕ × ℕ)
tx_fill buffer dequeued enqueued zero = ok ([], dequeued)
tx_fill buffer dequeued enqueued (suc space) =
    if dequeued == enqueued then ok ([], dequeued) else (do
      x ← read_byte buffer (dequeued % tx_buffer_size)
      (rest, dequeued') ← tx_fill buffer ((dequeued + 1) % 2 ^ 16) enqueued space
      ok (x ∷ rest, dequeued'))

-- The case 0x02; `offset` is TX_OFFSET. The counter is compared before it is updated.
unfoldable pub tx_empty : UartInfo → ℕ → Outcome (List ℕ × UartInfo)
tx_empty unit offset = do
  let sent = unit.tx.enqueued == unit.tx.dequeued
  (bytes, dequeued) ←
      tx_fill unit.tx.buffer unit.tx.dequeued unit.tx.enqueued
        ((tx_fifo_depth + 2 ^ 32 - offset) % 2 ^ 32)
  ok (
    bytes,
    record unit {
      tx = record unit.tx { dequeued = dequeued };
      one_byte_left = sent || unit.one_byte_left;
      tx_interrupt = if sent then false else unit.tx_interrupt;
    },
  )

unfoldable pub rx_avail_space : ℕ → ℕ → ℕ
rx_avail_space enqueued dequeued =
    if leb dequeued enqueued
    then (rx_buffer_size + 2 ^ 16 - (enqueued - dequeued)) % 2 ^ 16
    else (dequeued % rx_buffer_size + 2 ^ 16 - enqueued) % 2 ^ 16

-- The loop that empties the receive FIFO, which holds `fifo`: the buffer, the counter, and the
-- bytes taken.
unfoldable pub rx_store : List ℕ → ℕ → ℕ → List ℕ → Outcome (List ℕ × (ℕ × List ℕ))
rx_store buffer enqueued zero fifo = ok (buffer, (enqueued, []))
rx_store buffer enqueued (suc space) [] = ok (buffer, (enqueued, []))
rx_store buffer enqueued (suc space) (x ∷ fifo) = do
  stored ← write_byte buffer (enqueued % rx_buffer_size) x
  (buffer', (enqueued', taken)) ← rx_store stored ((enqueued + 1) % 2 ^ 16) space fifo
  ok (buffer', (enqueued', x ∷ taken))

-- The cases 0x04 and 0x0C.
unfoldable pub rx_received : UartInfo → List ℕ → Outcome (List ℕ × UartInfo)
rx_received unit fifo = do
  (buffer, (enqueued, taken)) ←
      rx_store unit.rx.buffer unit.rx.enqueued (rx_avail_space unit.rx.enqueued unit.rx.dequeued)
        fifo
  ok (taken, record unit { rx = record unit.rx { buffer = buffer; enqueued = enqueued } })

-- What one round of the loop finds: the interrupt's identification, TX_OFFSET and the receive FIFO.
pub record Registers : Type 0 where
  pub iir_id : ℕ
  pub offset : ℕ
  pub fifo : List ℕ

-- What a call of the handler does: the bytes written to the transmit FIFO, those taken from the
-- receive FIFO, the number of calls of `rxCallback` (the UART has one), and the state.
pub record Handled : Type 0 where
  pub sent : List ℕ
  pub taken : List ℕ
  pub callbacks : ℕ
  pub unit : UartInfo

-- The switch.
unfoldable pub irq_round : UartInfo → Registers → Outcome Handled
irq_round unit r =
    if r.iir_id == 2
    then (do
      (bytes, unit') ← tx_empty unit r.offset
      ok (record { sent = bytes; taken = []; callbacks = 0; unit = unit' }))
    else if r.iir_id == 4 || r.iir_id == 12
    then (do
      (bytes, unit') ← rx_received unit r.fifo
      ok (record { sent = []; taken = bytes; callbacks = 1; unit = unit' }))
    else ok (record { sent = []; taken = []; callbacks = 0; unit = unit })

-- The loop, for what its rounds find; it goes on until no interrupt is pending.
unfoldable pub uart_handle_irq : UartInfo → List Registers → Outcome Handled
uart_handle_irq unit [] = hang
uart_handle_irq unit (r ∷ rounds) = do
  first ← irq_round unit r
  (if r.iir_id == 1 then ok first else (do
    rest ← uart_handle_irq first.unit rounds
    ok (record {
      sent = first.sent ++ rest.sent;
      taken = first.taken ++ rest.taken;
      callbacks = first.callbacks + rest.callbacks;
      unit = rest.unit;
    })))

-- `CheckForCompletedTranmission` for the UART in half duplex; `temt` is the bit of the line status
-- register. Its result, whether the pin goes back to receiving, and the state.
unfoldable pub check_for_completed_transmission : UartInfo → Bool → Bool → Bool × (Bool × UartInfo)
check_for_completed_transmission unit temt half_duplex_enabled =
    if unit.one_byte_left && unit.tx_started
    then (if temt
        then (
          true,
          (half_duplex_enabled, record unit { one_byte_left = false; tx_started = false }),
        )
        else (false, (false, unit)))
    else (true, (false, unit))
