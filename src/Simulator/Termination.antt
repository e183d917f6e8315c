-- ===== src/Simulator/Termination.antt =====
-- The loops of modbuscommands.c and their fuel.
use modbus_sphere_library.Base.{
  ℕ, zero, suc, ◌+◌, ◌*◌, ◌/◌, ◌%◌, ◌^◌, ◌&&◌, ◌≤◌, ◌<◌, ◌≡◌, List, [], ◌∷◌, Bool, true, false,
  arith, ltb, leb, ◌==◌, inl, inr, Bool-cases, ltb→lt, if◌then◌else◌,
}
use modbus_sphere_library.Outcome.{Outcome, ok, ◌>>=◌, Ends, Ends->>=}
use modbus_sphere_library.Memory.{IsBytes, read_byte, write_byte}
use modbus_sphere_library.Crc.{add_crc, get_crc}
use modbus_sphere_library.Simulator.Files.{no_error, Stored}
use modbus_sphere_library.Simulator.Requests.{
  request_read, request_write_loop, request_write, process_incoming_message, answer,
}
use modbus_sphere_library.Simulator.Steps.{
  read_byte-Ends, choice-Ends, read_bytes-Ends, write_byte-Ends, read_pair-Ends,
  copy_sub_request-Ends, file_write-Ends, request_read_loop-Ends,
}

last_round :
    (files : List (List ℕ)) (out : List ℕ) (read ret : ℕ)
    → Ends {A = Stored} (do
      o ← write_byte out 2 (read % 2 ^ 8)
      ok (record { code = ret; file_store = files; message_out = o }))
last_round files out read ret = Ends->>= _ _ (write_byte-Ends out 2 (read % 2 ^ 8)) λ o _. tt

written-Ends :
    (stored : Stored) (again : Outcome Stored)
    → Ends again
    → (b : Bool) → Ends (elim b [ false ↦ ok stored | true ↦ again ])
written-Ends stored again e true = e
written-Ends stored again e false = tt

-- Each round of the loop of `requestWrite` reads at least seven bytes.
request_write_loop-Ends :
    (fuel : ℕ) (files : List (List ℕ)) (xs out : List ℕ) (count read ret : ℕ)
    → count ≤ read + fuel * 7
    → Ends (request_write_loop (suc fuel) files xs out count read ret)
unfolding request_write_loop
request_write_loop-Ends zero files xs out count read ret h = elim (Bool-cases (ltb read count)) [
  | inr e ↦ rw (e, request_write_loop) (last_round files out read ret)
  | inl e ↦ absurd (omega (arith, ltb→lt read count e))
]
request_write_loop-Ends (suc fuel) files xs out count read ret h =
    elim (Bool-cases (ltb read count)) [
      | inr e ↦ rw (e, request_write_loop) (last_round files out read ret)
      | inl e ↦
          let at = 3 + read in
          rw (e, request_write_loop)
            (Ends->>= _ _ (read_byte-Ends xs at) λ reference _.
              choice-Ends (reference == 6) _ _
                (Ends->>= _ _ (read_pair-Ends xs (at + 1)) λ f _.
                  Ends->>= _ _ (read_pair-Ends xs (at + 3)) λ r _.
                    Ends->>= _ _ (read_byte-Ends xs (at + 6)) λ n _.
                      Ends->>= _ _ (copy_sub_request-Ends xs at out at) λ copied _.
                        choice-Ends (ltb (r + n) 10000) _ _
                          (Ends->>= _ _ (file_write-Ends files xs (at + 7) copied (at + 7) f r n)
                            λ stored _.
                              written-Ends stored _
                                (request_write_loop-Ends fuel stored.file_store xs
                                  stored.message_out count (read + (n * 2 + 7)) stored.code
                                  (omega arith))
                                (stored.code == no_error))
                          tt)
                tt)
    ]

read_byte-lt : (xs : List ℕ) (i x : ℕ) → IsBytes xs → read_byte xs i ≡ ok x → x < 256
unfolding read_byte
read_byte-lt [] i x b e = cc
read_byte-lt (y ∷ xs) zero x b e = let e' : y ≡ x = cc in omega (arith, b.0, e')
read_byte-lt (y ∷ xs) (suc i) x b e = read_byte-lt xs i x b.1 e

request_write-Ends :
    (files : List (List ℕ)) (xs out : List ℕ) → IsBytes xs → Ends (request_write files xs out)
unfolding request_write
request_write-Ends files xs out b =
    Ends->>= (read_byte xs 2) _ (read_byte-Ends xs 2) λ (count : ℕ) (e : read_byte xs 2 ≡ ok count).
      request_write_loop-Ends 37 files xs out count 0 0
        (let small : count < 256 = read_byte-lt xs 2 count b e in omega arith)

request_read-Ends : (files : List (List ℕ)) (xs out : List ℕ) → Ends (request_read files xs out)
unfolding request_read
request_read-Ends files xs out = Ends->>= _ _ (read_byte-Ends xs 2) λ count _.
    choice-Ends (leb 7 count && leb count 0xf5) _ _
      (request_read_loop-Ends files xs (count / 7) out 3 3 0 0) tt

process-Ends :
    (files : List (List ℕ)) (xs out : List ℕ)
    → IsBytes xs
    → Ends (process_incoming_message files xs out)
unfolding process_incoming_message
process-Ends files xs out b = Ends->>= _ _ (read_byte-Ends xs 0) λ slave _.
    Ends->>= _ _ (read_byte-Ends xs 1) λ f_code _. Ends->>= _ _ (write_byte-Ends out 0 slave) λ o _.
      Ends->>= _ _ (write_byte-Ends o 1 f_code) λ o' _.
        choice-Ends (f_code == 0x14) _ _
          (Ends->>= _ _ (request_read-Ends files xs o') λ answered _. tt)
          (choice-Ends (f_code == 0x15) _ _ (request_write-Ends files xs o' b) tt)

add_crc-Ends : (xs : List ℕ) (n max : ℕ) → Ends (add_crc xs n max)
unfolding add_crc get_crc
add_crc-Ends xs n max =
    choice-Ends (leb (n + 2) max) _ _
      (Ends->>= _ _ (Ends->>= _ _ (read_bytes-Ends xs 0 n) λ bytes _. tt) λ crc _.
        Ends->>= _ _ (write_byte-Ends xs n (crc % 2 ^ 8))
          λ low _. Ends->>= _ _ (write_byte-Ends low (n + 1) (crc / 2 ^ 8 % 2 ^ 8)) λ both _. tt)
      tt

-- Whatever bytes the simulator receives, the fuel of its loops is enough: it does not run for ever
-- on a message.
pub answer-Ends :
    (files : List (List ℕ)) (message_in message_out : List ℕ)
    → IsBytes message_in
    → Ends (answer files message_in message_out)
unfolding answer
answer-Ends files message_in message_out b =
    Ends->>= _ _ (process-Ends files message_in message_out b) λ s _.
      choice-Ends (s.code == 0) _ _
        (Ends->>= _ _ (read_byte-Ends s.message_out 2) λ count _.
          Ends->>= _ _ (add_crc-Ends s.message_out (count + 3) 256) λ footed _.
            choice-Ends footed.0 _ _
              (Ends->>= _ _ (read_bytes-Ends footed.1 0 (count + 5)) λ sent _. tt) tt)
        (Ends->>= _ _ (read_byte-Ends s.message_out 1) λ f _.
          Ends->>= _ _
            (write_byte-Ends s.message_out 1 (if f / 2 ^ 7 % 2 == 1 then f else f + 2 ^ 7))
            λ marked _. Ends->>= _ _ (write_byte-Ends marked 2 s.code) λ coded _.
              Ends->>= _ _ (add_crc-Ends coded 3 256) λ footed _.
                choice-Ends footed.0 _ _ (Ends->>= _ _ (read_bytes-Ends footed.1 0 5) λ sent _. tt)
                  tt)
