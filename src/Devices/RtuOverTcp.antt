-- ===== src/Devices/RtuOverTcp.antt =====
-- rtuovertcp.c: `RtuOverTcp_ReadModbusData` as it is built, with CHANGE_FILES set.
use modbus_sphere_library.Base.{ℕ, zero, suc, ◌+◌, ◌*◌, ◌%◌, ◌^◌, List, [], ◌∷◌, if◌then◌else◌}
use modbus_sphere_library.Outcome.{Outcome, ok, ◌>>=◌}
use modbus_sphere_library.Memory.{uninit, read_byte}
use modbus_sphere_library.Modbus.Types.{Env, World}
use modbus_sphere_library.Modbus.File.{
  read_file_sub_request_builder, write_file_sub_request_builder, read_file, write_file,
}

abbrev pub record_count : ℕ
record_count = 4

abbrev pub modbus_message_buffer_size : ℕ
modbus_message_buffer_size = 384

-- `FileRecordsTelemetryData` and the counter.
pub record RtuOverTcp : Type 0 where
  pub file_records : List ℕ
  pub counter : ℕ

-- The loop that fills `records`, and the counter.
unfoldable pub next_records : ℕ → ℕ → List ℕ × ℕ
next_records zero counter = ([], counter)
next_records (suc n) counter =
    let next = (counter + 1) % 16 in
    let (records, last) = next_records n next in (next ∷ records, last)

-- The loop over `dataRead`, `n` records from record `i` on.
unfoldable pub file_records_of : ℕ → ℕ → List ℕ → Outcome (List ℕ)
file_records_of zero i data_read = ok []
file_records_of (suc n) i data_read = do
  high ← read_byte data_read (2 * i + 2)
  low ← read_byte data_read (2 * i + 3)
  rest ← file_records_of n (i + 1) data_read
  ok (((high * 2 ^ 8 + low) % 2 ^ 16) ∷ rest)

-- The records of file 4 are written and read back.
unfoldable pub change_files : Env → World → RtuOverTcp → Outcome (World × RtuOverTcp)
unfolding next_records file_records_of
change_files env w t = do
  let (records, counter) = next_records record_count t.counter
  let counted = record t { counter = counter }
  (write_length, message) ←
      write_file_sub_request_builder (uninit env.stack modbus_message_buffer_size) 0 4 0
        record_count records
  written ← write_file env w 1 message write_length (uninit env.stack (record_count * 2)) 5000
  (read_length, asked) ← read_file_sub_request_builder message 0 4 0 record_count
  read ← read_file env written.world 1 asked read_length (uninit env.stack (record_count * 2)) 1000
  (if read.result
      then (do
        values ← file_records_of record_count 0 read.read_array
        ok (read.world, record counted { file_records = values }))
      else ok (read.world, counted))
