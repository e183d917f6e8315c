-- ===== src/Simulator/RoundTrip.antt =====
-- A request to write records and then one to read them (modbuscommands.c, main.c).
use modbus_sphere_library.Base.{
  ℕ, ◌+◌, ◌*◌, ◌≤◌, ◌<◌, ◌≡◌, refl, ap, sym, ◌∙◌, List, [], ◌∷◌, ◌++◌, some, arith, length,
  get_elem?, get_elem?-set_self,
}
use modbus_sphere_library.Outcome.{◌>>=◌, Returns, Returns->>=}
use modbus_sphere_library.Memory.{written, read_written}
use modbus_sphere_library.Crc.Footer.{crc_low, crc_high}
use modbus_sphere_library.Modbus.File.{sub_request}
use modbus_sphere_library.Simulator.Store.{get_elem?-inside}
use modbus_sphere_library.Simulator.Requests.{process_incoming_message, answer}
use modbus_sphere_library.Simulator.Decoding.{IsWritten, process_incoming_message-sub_request}
use modbus_sphere_library.Simulator.Answering.{read_answer, read_request, records_sent}

five_more :
    (xs : List ℕ)
    → 5 ≤ length xs
    → (a : ℕ) × (b : ℕ) × (c : ℕ) × (d : ℕ) × (e : ℕ) × (r : List ℕ) × (xs ≡ a ∷ b ∷ c ∷ d ∷ e ∷ r)
five_more [] h = absurd (omega arith)
five_more (a ∷ []) h = absurd (omega arith)
five_more (a ∷ b ∷ []) h = absurd (omega arith)
five_more (a ∷ b ∷ c ∷ []) h = absurd (omega arith)
five_more (a ∷ b ∷ c ∷ d ∷ []) h = absurd (omega arith)
five_more (a ∷ b ∷ c ∷ d ∷ e ∷ r) h = (a, b, c, d, e, r, refl)

-- For a file with a number from 1 to 6 that the store has and that has room, and records whose bytes
-- fit in one message: when the simulator has taken a message of `WriteFile` that holds one
-- sub-request with the fields of `WriteFileSubRequestBuilder` and the bytes of the records, with an
-- answer array that has room for 10 bytes and the records, it then answers a message of `ReadFile`
-- with the fields that `ReadFileSubRequestBuilder` gives for the same records with exactly these
-- bytes, in a frame with the slave's address, the lengths and the CRC.
pub answer-process_incoming_message :
    (files : List (List ℕ)) (file : List ℕ) (file_no record_no records slave : ℕ)
    (values rest rest' out : List ℕ)
    → (0 < file_no) × (file_no ≤ 6)
    → get_elem? files file_no ≡ some file
    → (record_no + records) * 2 ≤ length file
    → length values ≡ records * 2
    → record_no + records < 10000
    → records * 2 + 7 < 256
    → 10 + records * 2 ≤ length out
    → Returns
        (λ sent.
          sent.0
          ≡ some (
              read_answer slave records values
              ++ (crc_low (read_answer slave records values)
                  ∷ crc_high (read_answer slave records values)
                  ∷ [])))
        (process_incoming_message files
            (slave
              ∷ 21
              ∷ (records * 2 + 7)
              ∷ (sub_request file_no record_no records ++ (values ++ rest)))
            out
          >>= λ stored.
              answer stored.file_store
                (slave ∷ 20 ∷ 7 ∷ (sub_request file_no record_no records ++ rest'))
                stored.message_out)
unfolding read_request
answer-process_incoming_message files file file_no record_no records slave values rest rest' out
      exists_ found room sized bounded fits room_out =
    Returns->>= (IsWritten files file file_no record_no values (length out)) _
      (process_incoming_message files
        (slave
          ∷ 21
          ∷ (records * 2 + 7)
          ∷ (sub_request file_no record_no records ++ (values ++ rest)))
        out)
      _
      (process_incoming_message-sub_request files file file_no record_no values rest records exists_
        found room sized slave out bounded fits room_out)
      λ stored (code, store, size).
        let changed = written file (record_no * 2) values in
        let (a, b, c, d, e, area, shape) = five_more stored.message_out (omega (arith, size)) in
        let area_size : 5 + length area ≡ length out = omega (arith, size, ap length shape) in
        let found' : get_elem? stored.file_store file_no ≡ some changed =
          ap (λ l. get_elem? l file_no) store
          ∙ get_elem?-set_self files file_no changed (get_elem?-inside files file_no file found) in
        rw shape (
          records_sent stored.file_store changed file_no record_no records values rest' exists_
            found'
            (read_written file (record_no * 2) values (omega (arith, sized)) (records * 2)
              (sym sized))
            sized slave bounded (omega arith) a b c d e area (omega (arith, area_size))
            (omega arith))
