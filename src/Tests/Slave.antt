-- ===== src/Tests/Slave.antt =====
-- A simulator with six files of ten bytes.
use modbus_sphere_library.Base.{ℕ, ◌≡◌, refl, List, [], ◌∷◌, ◌++◌, some, arith, replicate}
use modbus_sphere_library.Outcome.{Ends, Returns, ◌>>=◌}
use modbus_sphere_library.Simulator.Requests.{answer, process_incoming_message}
use modbus_sphere_library.Crc.Footer.{crc_low, crc_high}
use modbus_sphere_library.Simulator.Answering.{read_answer}
use modbus_sphere_library.Simulator.RoundTrip.{answer-process_incoming_message}
use modbus_sphere_library.Modbus.File.{sub_request}
use modbus_sphere_library.Simulator.Termination.{answer-Ends}

abbrev files : List (List ℕ)
files = replicate 6 (replicate 10 0)

-- A request to write two records of the file 3.
abbrev request : List ℕ
request = 1 ∷ 21 ∷ 11 ∷ 6 ∷ 0 ∷ 3 ∷ 0 ∷ 1 ∷ 0 ∷ 2 ∷ 1 ∷ 2 ∷ 3 ∷ 4 ∷ []

answer-process_incoming_message_example :
    Returns
      (λ sent.
        sent.0
        ≡ some (
            read_answer 1 2 (1 ∷ 2 ∷ 3 ∷ 4 ∷ [])
            ++ (crc_low (read_answer 1 2 (1 ∷ 2 ∷ 3 ∷ 4 ∷ []))
                ∷ crc_high (read_answer 1 2 (1 ∷ 2 ∷ 3 ∷ 4 ∷ []))
                ∷ [])))
      (process_incoming_message files request (replicate 256 0) >>= λ stored.
        answer stored.file_store (1 ∷ 20 ∷ 7 ∷ (sub_request 3 1 2 ++ [])) stored.message_out)
unfolding sub_request
answer-process_incoming_message_example =
    answer-process_incoming_message files (replicate 10 0) 3 1 2 1 (1 ∷ 2 ∷ 3 ∷ 4 ∷ []) [] []
      (replicate 256 0) (omega arith, omega arith) refl (omega arith) refl (omega arith)
      (omega arith) (omega arith)

answer-Ends_example : Ends (answer files request (replicate 256 0))
answer-Ends_example = answer-Ends files request (replicate 256 0) (omega arith)
