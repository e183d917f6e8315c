-- ===== src/Simulator/Store.antt =====
-- `fileWrite` followed by `fileRead` (modbuscommands.c).
use modbus_sphere_library.Base.{
  ℕ, zero, suc, ◌+◌, ◌*◌, ◌≤◌, ◌<◌, ◌≡◌, ◌≢◌, refl, sym, List, [], ◌∷◌, some, arith, lt→ltb,
  leb-of_le, length, get_elem?, set, take, drop, get_elem?-set_self, get_elem?-set_ne,
}
use modbus_sphere_library.Outcome.{ok}
use modbus_sphere_library.Memory.{
  read_bytes_ok, write_bytes_ok, written, length-slice, read_written,
}
use modbus_sphere_library.Simulator.Files.{no_error, file_at, file_read, Stored, file_write}

pub get_elem?-inside :
    (files : List (List ℕ)) (i : ℕ) (file : List ℕ)
    → get_elem? files i ≡ some file
    → i < length files
get_elem?-inside [] i file h = cc
get_elem?-inside (f ∷ files) zero file h = omega arith
get_elem?-inside (f ∷ files) (suc i) file h = omega (arith, get_elem?-inside files i file h)

pub file_at_found :
    (files : List (List ℕ)) (i : ℕ) (file : List ℕ)
    → get_elem? files i ≡ some file
    → file_at files i ≡ ok file
unfolding file_at
file_at_found files i file h = rw (h, file_at)

module _ (files : List (List ℕ)) (file : List ℕ) (file_no record_no records : ℕ)
    (exists_ : (0 < file_no) × (file_no ≤ 6)) (found : get_elem? files file_no ≡ some file)
    (room : (record_no + records) * 2 ≤ length file) where
  -- For a file with a number from 1 to 6 that the store has and that has room: records that
  -- `fileWrite` has stored from a message that holds them are what `fileRead` then puts into any
  -- answer with room for them, and any other file is as before.
  pub file_read-file_write :
      (message_in : List ℕ) (in_offset : ℕ) (message_out : List ℕ) (out_offset : ℕ) (out : List ℕ)
      (offset other : ℕ)
      → in_offset + records * 2 ≤ length message_in
      → out_offset + records * 2 ≤ length message_out
      → offset + records * 2 ≤ length out
      → file_no ≢ other
      → (stored : Stored) × (file_write files message_in in_offset message_out out_offset file_no
            record_no records
          ≡ ok stored)
        × (stored.code ≡ no_error)
        × (file_read stored.file_store out offset file_no record_no records
            ≡ ok (no_error, written out offset (take (records * 2) (drop in_offset message_in))))
        × (get_elem? stored.file_store other ≡ get_elem? files other)
  unfolding file_read file_write
  file_read-file_write message_in in_offset message_out out_offset out offset other hi ho h ne =
      let bytes = take (records * 2) (drop in_offset message_in) in
      let size : length bytes ≡ records * 2 = length-slice message_in in_offset (records * 2) hi in
      let fits : record_no * 2 + length bytes ≤ length file = omega arith in
      let changed = written file (record_no * 2) bytes in
      (
        record {
          code = no_error;
          file_store = set files file_no changed;
          message_out = written message_out out_offset bytes;
        },
        rw (
          lt→ltb 0 file_no exists_.0,
          leb-of_le file_no 6 exists_.1,
          file_at_found files file_no file found,
          read_bytes_ok message_in in_offset (records * 2) hi,
          write_bytes_ok file (record_no * 2) bytes fits,
          write_bytes_ok message_out out_offset bytes (omega arith),
        ),
        refl,
        rw (
          lt→ltb 0 file_no exists_.0,
          leb-of_le file_no 6 exists_.1,
          file_at_found (set files file_no changed) file_no changed (
              get_elem?-set_self files file_no changed (get_elem?-inside files file_no file found)),
          read_written file (record_no * 2) bytes fits (records * 2) (sym size),
          write_bytes_ok out offset bytes (omega arith),
        ),
        get_elem?-set_ne files changed ne,
      )
