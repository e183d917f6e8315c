-- ===== src/Simulator/Files.antt =====
-- `fileRead` and `fileWrite`.
use modbus_sphere_library.Base.{
  ℕ, ◌*◌, List, ◌&&◌, none, some, ltb, leb, get_elem?, set, if◌then◌else◌,
}
use modbus_sphere_library.Outcome.{Outcome, ok, fault, ◌>>=◌}
use modbus_sphere_library.Memory.{read_bytes, write_bytes}

abbrev pub no_error : ℕ
no_error = 0

abbrev pub illegal_function : ℕ
illegal_function = 1

abbrev pub illegal_data_address : ℕ
illegal_data_address = 2

abbrev pub illegal_data_value : ℕ
illegal_data_value = 3

-- The row `fileStore[file_no]`; there are as many as the list has.
unfoldable pub file_at : List (List ℕ) → ℕ → Outcome (List ℕ)
file_at file_store file_no = elim (get_elem? file_store file_no) [
  | none ↦ fault
  | some file ↦ ok file
]

-- The returned code and `messageOut`, written from `offset` on.
unfoldable pub file_read : List (List ℕ) → List ℕ → ℕ → ℕ → ℕ → ℕ → Outcome (ℕ × List ℕ)
unfolding file_at
file_read file_store message_out offset file_no record_no records =
    if ltb 0 file_no && leb file_no 6
    then (do
      file ← file_at file_store file_no
      bytes ← read_bytes file (record_no * 2) (records * 2)
      out ← write_bytes message_out offset bytes
      ok (no_error, out))
    else ok (illegal_data_address, message_out)

-- What `fileWrite` leaves: its code, the files, and `messageOut`.
pub record Stored : Type 0 where
  pub code : ℕ
  pub file_store : List (List ℕ)
  pub message_out : List ℕ

-- `messageIn` is read from `in_offset` on and `messageOut` written from `out_offset` on.
unfoldable pub file_write : List (List ℕ) → List ℕ → ℕ → List ℕ → ℕ → ℕ → ℕ → ℕ → Outcome Stored
unfolding file_at
file_write file_store message_in in_offset message_out out_offset file_no record_no records =
    if ltb 0 file_no && leb file_no 6
    then (do
      file ← file_at file_store file_no
      bytes ← read_bytes message_in in_offset (records * 2)
      changed ← write_bytes file (record_no * 2) bytes
      out ← write_bytes message_out out_offset bytes
      ok (record {
        code = no_error;
        file_store = set file_store file_no changed;
        message_out = out;
      }))
    else ok
        (record { code = illegal_data_address; file_store = file_store; message_out = message_out })
