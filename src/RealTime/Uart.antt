-- ===== src/RealTime/Uart.antt =====
-- mt3620-uart.c: the software ring buffers of the driver, which count all bytes ever stored and
-- taken in 16 bits.
use modbus_sphere_library.Base.{
  ℕ, ◌+◌, ◌-◌, ◌%◌, ◌^◌, ◌≤◌, ◌<◌, ◌≡◌, List, [], ◌∷◌, Bool, false, ltb, leb, ◌==◌, if◌then◌else◌,
  arith,
}
use modbus_sphere_library.Outcome.{Outcome, ok, ◌>>=◌}
use modbus_sphere_library.Memory.{read_bytes, write_byte, write_bytes}

abbrev pub tx_buffer_size : ℕ
tx_buffer_size = 256

abbrev pub rx_buffer_size : ℕ
rx_buffer_size = 32

-- A buffer of `UartInfo` with its two counters.
pub record UartRing : Type 0 where
  pub buffer : List ℕ
  pub enqueued : ℕ
  pub dequeued : ℕ

unfoldable pub tx_avail_space : ℕ → ℕ → ℕ
tx_avail_space enqueued dequeued =
    if leb dequeued enqueued
    then (tx_buffer_size + 2 ^ 16 - (enqueued - dequeued)) % 2 ^ 16
    else (dequeued % tx_buffer_size + 2 ^ 16 - enqueued) % 2 ^ 16

-- The loop over the bytes to write.
unfoldable pub tx_store : List ℕ → ℕ → List ℕ → Outcome (List ℕ × ℕ)
tx_store buffer enqueued [] = ok (buffer, enqueued)
tx_store buffer enqueued (x ∷ xs) = do
  stored ← write_byte buffer (enqueued % tx_buffer_size) x
  tx_store stored ((enqueued + 1) % 2 ^ 16) xs

-- `Uart_EnqueueData` without its registers: whether everything was written, and the ring.
unfoldable pub uart_enqueue_data : UartRing → List ℕ → ℕ → Outcome (Bool × UartRing)
uart_enqueue_data ring data_bytes n =
    let space = tx_avail_space ring.enqueued ring.dequeued in
    if space == 0 then ok (false, ring) else (do
      bytes ← read_bytes data_bytes 0 (if leb n space then n else space)
      (buffer, enqueued) ← tx_store ring.buffer ring.enqueued bytes
      ok (leb n space, record ring { buffer = buffer; enqueued = enqueued }))

unfoldable pub rx_avail_data : ℕ → ℕ → ℕ
rx_avail_data enqueued dequeued =
    if leb dequeued enqueued
    then enqueued - dequeued
    else (rx_buffer_size + 2 ^ 16 - (dequeued % rx_buffer_size + 2 ^ 16 - enqueued) % 2 ^ 16)
      % 2 ^ 16

-- `Uart_DequeueData`, which does not use the size of the buffer: the bytes taken, the buffer from
-- its start, and the ring.
unfoldable pub uart_dequeue_data : UartRing → List ℕ → Outcome (ℕ × (List ℕ × UartRing))
uart_dequeue_data ring buffer =
    let available = rx_avail_data ring.enqueued ring.dequeued in
    let to_index = ring.enqueued % rx_buffer_size in
    let from_index = ring.dequeued % rx_buffer_size in
    let taken = record ring { dequeued = (ring.dequeued + available) % 2 ^ 16 } in
    if available == 0
    then ok (0, (buffer, ring))
    else if ltb from_index to_index
    then (do
      bytes ← read_bytes ring.buffer from_index available
      filled ← write_bytes buffer 0 bytes
      ok (available, (filled, taken)))
    else (do
      tail ← read_bytes ring.buffer from_index (rx_buffer_size - from_index)
      half ← write_bytes buffer 0 tail
      head ← read_bytes ring.buffer 0 to_index
      filled ← write_bytes half (rx_buffer_size - from_index) head
      ok (available, (filled, taken)))

-- For 16-bit counters that are at most 256 apart, the free space that the driver computes and the
-- bytes in the ring add up to 256, also after a wraparound of one of them.
pub tx_avail_space_lem :
    (enqueued dequeued : ℕ)
    → enqueued < 2 ^ 16
    → dequeued < 2 ^ 16
    → (enqueued + 2 ^ 16 - dequeued) % 2 ^ 16 ≤ 256
    → tx_avail_space enqueued dequeued + (enqueued + 2 ^ 16 - dequeued) % 2 ^ 16 ≡ 256
unfolding tx_avail_space
tx_avail_space_lem enqueued dequeued h k u = ground arith

-- For 16-bit counters that are at most 32 apart, the available data that the driver computes are
-- the bytes in the ring, also after a wraparound of one of them.
pub rx_avail_data_lem :
    (enqueued dequeued : ℕ)
    → enqueued < 2 ^ 16
    → dequeued < 2 ^ 16
    → (enqueued + 2 ^ 16 - dequeued) % 2 ^ 16 ≤ 32
    → rx_avail_data enqueued dequeued ≡ (enqueued + 2 ^ 16 - dequeued) % 2 ^ 16
unfolding rx_avail_data
rx_avail_data_lem enqueued dequeued h k u = ground arith
