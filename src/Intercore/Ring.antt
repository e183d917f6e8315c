-- ===== src/Intercore/Ring.antt =====
-- `EnqueueData`, `DequeueData` and `GetIntercoreBuffers`.
use modbus_sphere_library.Base.{
  ℕ, ◌+◌, ◌-◌, ◌*◌, ◌/◌, ◌%◌, ◌^◌, List, [], ◌∷◌, Bool, true, false, Option, none, some, ltb, leb,
  ◌==◌, if◌then◌else◌,
}
use modbus_sphere_library.Outcome.{Outcome, ok, hang, ◌>>=◌}
use modbus_sphere_library.Memory.{read_bytes, write_bytes}
use modbus_sphere_library.Intercore.Words.{word_bytes, word_value}

-- `BufferHeader` with the data area that follows it.
pub record BufferHeader : Type 0 where
  pub write_position : ℕ
  pub read_position : ℕ
  pub area : List ℕ

abbrev pub ringbuffer_alignment : ℕ
ringbuffer_alignment = 16

-- The sum without its bits below the alignment, a power of two.
unfoldable pub round_up : ℕ → ℕ → ℕ
round_up value alignment = (value + (alignment - 1)) % 2 ^ 32 / alignment * alignment

-- The position behind the block at `position`.
unfoldable pub advance : ℕ → ℕ → ℕ → ℕ
unfolding round_up
advance position size buf_size =
    let next = round_up ((position + 4 + size) % 2 ^ 32) ringbuffer_alignment in
    if leb buf_size next then next - buf_size else next

unfoldable pub avail_space : ℕ → ℕ → ℕ → ℕ
avail_space remote_read local_write buf_size =
    if leb remote_read local_write
    then (remote_read + 2 ^ 32 - local_write + buf_size) % 2 ^ 32
    else remote_read - local_write

-- From `writeToEnd` on; `to_end` is `dataToEnd`.
unfoldable pub enqueue_block : BufferHeader → ℕ → List ℕ → ℕ → ℕ → Outcome (Bool × BufferHeader)
enqueue_block outbound buf_size src data_size to_end = do
  let position = outbound.write_position
  let block = (4 + data_size) % 2 ^ 32
  let first = ((if ltb to_end block then to_end else block) + 2 ^ 32 - 4) % 2 ^ 32
  sized ← write_bytes outbound.area position (word_bytes data_size)
  front ← read_bytes src 0 first
  filled ← write_bytes sized (position + 4) front
  back ← read_bytes src first ((data_size + 2 ^ 32 - first) % 2 ^ 32)
  wrapped ← write_bytes filled 0 back
  ok (
    true,
    record outbound { area = wrapped; write_position = advance position data_size buf_size },
  )

-- `false` for -1.
unfoldable pub enqueue_data :
    BufferHeader → BufferHeader → ℕ → List ℕ → ℕ → Outcome (Bool × BufferHeader)
enqueue_data inbound outbound buf_size src data_size =
    let remote = inbound.read_position in
    let position = outbound.write_position in
    let to_end = (buf_size + 2 ^ 32 - position) % 2 ^ 32 in
    if leb buf_size remote
    then ok (false, outbound)
    else if ltb (avail_space remote position buf_size)
        ((4 + data_size + ringbuffer_alignment) % 2 ^ 32)
    then ok (false, outbound)
    else if ltb to_end 4
    then ok (false, outbound)
    else enqueue_block outbound buf_size src data_size to_end

-- What `DequeueData` leaves: its result, `dest`, `*dataSize`, and the outbound header.
pub record Dequeued : Type 0 where
  pub result : Bool
  pub dest : List ℕ
  pub data_size : ℕ
  pub outbound : BufferHeader

unfoldable pub avail_data : ℕ → ℕ → ℕ → ℕ
avail_data remote_write local_read buf_size =
    if leb local_read remote_write
    then remote_write - local_read
    else (remote_write + 2 ^ 32 - local_read + buf_size) % 2 ^ 32

-- From the second assignment to `*dataSize` on; `to_end` is `dataToEnd`.
unfoldable pub dequeue_block : BufferHeader → BufferHeader → ℕ → List ℕ → ℕ → ℕ → Outcome Dequeued
dequeue_block outbound inbound buf_size dest block_size to_end = do
  let position = outbound.read_position
  let room = to_end - 4
  let first = if ltb block_size room then block_size else room
  front ← read_bytes inbound.area (position + 4) first
  filled ← write_bytes dest 0 front
  back ← read_bytes inbound.area 0 (block_size - first)
  whole ← write_bytes filled first back
  ok (record {
    result = true;
    dest = whole;
    data_size = block_size;
    outbound = record outbound { read_position = advance position block_size buf_size };
  })

unfoldable pub dequeue_data : BufferHeader → BufferHeader → ℕ → List ℕ → ℕ → Outcome Dequeued
dequeue_data outbound inbound buf_size dest data_size =
    let refused : Dequeued = record {
      result = false;
      dest = dest;
      data_size = data_size;
      outbound = outbound;
    } in
    let available = avail_data inbound.write_position outbound.read_position buf_size in
    let to_end = (buf_size + 2 ^ 32 - outbound.read_position) % 2 ^ 32 in
    if leb buf_size inbound.write_position
    then ok refused
    else if ltb available 4
    then ok refused
    else if ltb to_end 4
    then ok refused
    else (do
      word ← read_bytes inbound.area outbound.read_position 4
      let block_size = word_value word
      (if ltb available ((block_size + 4) % 2 ^ 32)
          then ok refused
          else if ltb data_size block_size
          then ok (record refused { data_size = block_size })
          else dequeue_block outbound inbound buf_size dest block_size to_end))

-- The addresses and the common size of the two buffers.
pub record Buffers : Type 0 where
  pub outbound : ℕ
  pub inbound : ℕ
  pub buf_size : ℕ

abbrev pub size_of_header : ℕ
size_of_header = 64

unfoldable pub get_buffer_size : ℕ → ℕ
get_buffer_size buffer_base = 2 ^ (buffer_base % 2 ^ 5)

unfoldable pub get_buffer_header : ℕ → ℕ
get_buffer_header buffer_base = buffer_base / 2 ^ 5 * 2 ^ 5

-- The tests once the mailbox is set up; `none` for -1.
unfoldable pub check_buffers : ℕ → ℕ → Option Buffers
unfolding get_buffer_size get_buffer_header
check_buffers base_read base_write =
    if get_buffer_size base_read == get_buffer_size base_write
    then (if leb (get_buffer_size base_read) size_of_header
        then none
        else some (record {
          outbound = get_buffer_header base_write;
          inbound = get_buffer_header base_read;
          buf_size = get_buffer_size base_read - size_of_header;
        }))
    else none

-- The loop over the commands and data that the mailbox gives; it waits for ever if they end.
unfoldable pub get_intercore_buffers : List (ℕ × ℕ) → ℕ → ℕ → Outcome (Option Buffers)
get_intercore_buffers [] base_read base_write = hang
get_intercore_buffers ((command, data_word) ∷ mailbox) base_read base_write =
    let after_write = get_intercore_buffers mailbox base_read data_word in
    let after_read = get_intercore_buffers mailbox data_word base_write in
    let after_other = get_intercore_buffers mailbox base_read base_write in
    if command == 0xba5e0001
    then after_write
    else if command == 0xba5e0002
    then after_read
    else if command == 0xba5e0003
    then ok (check_buffers base_read base_write)
    else after_other
