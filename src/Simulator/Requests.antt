-- ===== src/Simulator/Requests.antt =====
-- `requestRead`, `requestWrite`, `processIncomingMessage`, and the answer of main.c.
use modbus_sphere_library.Base.{
  ℕ, zero, suc, ◌+◌, ◌*◌, ◌/◌, ◌%◌, ◌^◌, List, true, false, ◌&&◌, Option, none, some, ltb, leb,
  ◌==◌, if◌then◌else◌,
}
use modbus_sphere_library.Outcome.{Outcome, ok, hang, ◌>>=◌}
use modbus_sphere_library.Memory.{read_byte, read_bytes, write_byte}
use modbus_sphere_library.Crc.{add_crc}
use modbus_sphere_library.Simulator.Files.{
  no_error, illegal_function, illegal_data_address, illegal_data_value, file_read, Stored,
  file_write,
}

abbrev pub header_length : ℕ
header_length = 3

abbrev pub subrequest_length : ℕ
subrequest_length = 7

abbrev pub reference_type : ℕ
reference_type = 6

-- Two bytes at `offset`, high byte first.
unfoldable pub read_pair : List ℕ → ℕ → Outcome ℕ
read_pair message offset = do
  high ← read_byte message offset
  low ← read_byte message (offset + 1)
  ok (high * 2 ^ 8 + low)

-- The loop of `requestRead`: sub-requests left, `inPtr` and `outPtr` as offsets, `totalLength`
-- and `ret`.
unfoldable pub request_read_loop :
    List (List ℕ) → List ℕ → ℕ → List ℕ → ℕ → ℕ → ℕ → ℕ → Outcome (ℕ × List ℕ)
request_read_loop file_store message_in zero message_out in_offset out_offset total_length ret = do
  out ← write_byte message_out 2 (total_length % 2 ^ 8)
  ok (ret, out)
request_read_loop file_store message_in (suc left) message_out in_offset out_offset total_length
      ret =
    do
      reference ← read_byte message_in in_offset
      (if reference == reference_type
          then (do
            records ← read_byte message_in (in_offset + 6)
            file_no ← read_pair message_in (in_offset + 1)
            record_no ← read_pair message_in (in_offset + 3)
            (if ltb (record_no + records) 10000
                then (do
                  sized ← write_byte message_out out_offset (records * 2 % 2 ^ 8)
                  typed ← write_byte sized (out_offset + 1) reference_type
                  (code, out) ←
                      file_read file_store typed (out_offset + 2) file_no record_no records
                  request_read_loop file_store message_in left out (in_offset + subrequest_length)
                      (out_offset + (records * 2 + 2)) (total_length + (records * 2 + 2)) code)
                else ok (illegal_data_address, message_out)))
          else ok (illegal_data_value, message_out))

unfoldable pub request_read : List (List ℕ) → List ℕ → List ℕ → Outcome (ℕ × List ℕ)
request_read file_store message_in message_out = do
  count ← read_byte message_in 2
  (if leb 7 count && leb count 0xf5
      then request_read_loop file_store message_in (count / 7) message_out header_length
          header_length 0 0
      else ok (illegal_data_value, message_out))

-- The fields of a sub-request copied to the answer: type, file, record, a zero and the length.
unfoldable pub copy_sub_request : List ℕ → ℕ → List ℕ → ℕ → Outcome (List ℕ)
copy_sub_request message_in in_offset message_out out_offset = do
  file_high ← read_byte message_in (in_offset + 1)
  file_low ← read_byte message_in (in_offset + 2)
  record_high ← read_byte message_in (in_offset + 3)
  record_low ← read_byte message_in (in_offset + 4)
  records ← read_byte message_in (in_offset + 6)
  out ← write_byte message_out out_offset reference_type
  out ← write_byte out (out_offset + 1) file_high
  out ← write_byte out (out_offset + 2) file_low
  out ← write_byte out (out_offset + 3) record_high
  out ← write_byte out (out_offset + 4) record_low
  out ← write_byte out (out_offset + 5) 0
  write_byte out (out_offset + 6) records

-- The loop of `requestWrite` with fuel: `messageIn[2]`, and `dataRead`, by which `inPtr` and
-- `outPtr` have both advanced.
unfoldable pub request_write_loop : ℕ → List (List ℕ) → List ℕ → List ℕ → ℕ → ℕ → ℕ → Outcome Stored
request_write_loop zero file_store message_in message_out count data_read ret = hang
request_write_loop (suc fuel) file_store message_in message_out count data_read ret =
    elim (ltb data_read count) [
      | false ↦ (do
        out ← write_byte message_out 2 (data_read % 2 ^ 8)
        ok (record { code = ret; file_store = file_store; message_out = out }))
      | true ↦ (do
        let offset = header_length + data_read
        reference ← read_byte message_in offset
        (if reference == reference_type
            then (do
              file_no ← read_pair message_in (offset + 1)
              record_no ← read_pair message_in (offset + 3)
              records ← read_byte message_in (offset + 6)
              copied ← copy_sub_request message_in offset message_out offset
              (if ltb (record_no + records) 10000
                  then (do
                    stored ←
                        file_write file_store message_in (offset + 7) copied (offset + 7) file_no
                          record_no records
                    elim (stored.code == no_error) [
                      | false ↦ ok stored
                      | true ↦
                          request_write_loop fuel stored.file_store message_in stored.message_out
                            count (data_read + (records * 2 + 7)) stored.code
                    ])
                  else ok (record {
                    code = illegal_data_address;
                    file_store = file_store;
                    message_out = copied;
                  })))
            else ok (record {
              code = illegal_data_value;
              file_store = file_store;
              message_out = message_out;
            })))
    ]

-- At most 255 bytes in steps of at least 7.
abbrev pub write_rounds : ℕ
write_rounds = 38

unfoldable pub request_write : List (List ℕ) → List ℕ → List ℕ → Outcome Stored
request_write file_store message_in message_out = do
  count ← read_byte message_in 2
  request_write_loop write_rounds file_store message_in message_out count 0 0

unfoldable pub process_incoming_message : List (List ℕ) → List ℕ → List ℕ → Outcome Stored
process_incoming_message file_store message_in message_out = do
  slave ← read_byte message_in 0
  f_code ← read_byte message_in 1
  addressed ← write_byte message_out 0 slave
  headed ← write_byte addressed 1 f_code
  (if f_code == 0x14
      then (do
        (code, out) ← request_read file_store message_in headed
        ok (record { code = code; file_store = file_store; message_out = out }))
      else if f_code == 0x15
      then request_write file_store message_in headed
      else ok (record { code = illegal_function; file_store = file_store; message_out = headed }))

-- One round of the loop in `main` on a received message: the bytes sent, or `none` if the CRC does
-- not fit and the program ends; the files and `messageOut` stay for the next round.
unfoldable pub answer : List (List ℕ) → List ℕ → List ℕ → Outcome (Option (List ℕ) × Stored)
answer file_store message_in message_out = do
  stored ← process_incoming_message file_store message_in message_out
  (if stored.code == 0
      then (do
        count ← read_byte stored.message_out 2
        (added, footed) ← add_crc stored.message_out (count + 3) 256
        (if added
            then (do
              sent ← read_bytes footed 0 (count + 5)
              ok (some sent, record stored { message_out = footed }))
            else ok (none, stored)))
      else (do
        f_code ← read_byte stored.message_out 1
        marked ←
            write_byte stored.message_out 1
              (if f_code / 2 ^ 7 % 2 == 1 then f_code else f_code + 2 ^ 7)
        coded ← write_byte marked 2 stored.code
        (added, footed) ← add_crc coded 3 256
        (if added
            then (do
              sent ← read_bytes footed 0 5
              ok (some sent, record stored { message_out = footed }))
            else ok (none, record stored { message_out = coded }))))
