-- ===== src/Simulator/Decoding.antt =====
-- What the simulator (modbuscommands.c) makes of a request that the builders of modbus.c have made.
use modbus_sphere_library.Base.{
  ℕ, suc, ◌+◌, ◌*◌, ◌/◌, ◌%◌, ◌^◌, ◌≤◌, ◌<◌, ◌≡◌, refl, sym, ◌∙◌, List, [], ◌∷◌, ◌++◌, true, false,
  some, arith, length, get_elem?, set, ltb, ◌==◌, lt→ltb, leb-of_le,
}
use mathlib.Core.Path.{subst}
use modbus_sphere_library.Outcome.{Outcome, ok, ◌>>=◌, Returns, Returns->>=, Returns-imp}
use modbus_sphere_library.Memory.{
  read_byte, write_byte, write_bytes, write_bytes_fit, written, read_bytes_split, write_bytes_ok,
  length-written,
}
use modbus_sphere_library.Modbus.File.{sub_request}
use modbus_sphere_library.Simulator.Files.{Stored, file_write}
use modbus_sphere_library.Simulator.Store.{file_at_found}
use modbus_sphere_library.Simulator.Requests.{
  read_pair, copy_sub_request, request_write_loop, request_write, process_incoming_message,
}

write_byte_fit :
    (xs : List ℕ) (i v k : ℕ)
    → length xs ≡ k
    → i < k
    → Returns (λ ys. length ys ≡ k) (write_byte xs i v)
unfolding write_byte
write_byte_fit xs i v k e h =
    Returns-imp (λ ys. length ys ≡ length xs) (λ ys. length ys ≡ k) (write_bytes xs i (v ∷ []))
      (write_bytes_fit xs i (v ∷ []) (omega (arith, e))) λ ys same. same ∙ e

-- A byte is stored inside a list of `k` bytes.
then_byte :
    {B : Type 0} (Q : B → Type 0) (k : ℕ) (xs : List ℕ) (i v : ℕ) (f : List ℕ → Outcome B)
    → length xs ≡ k
    → i < k
    → ((ys : List ℕ) → length ys ≡ k → Returns Q (f ys))
    → Returns Q (write_byte xs i v >>= f)
then_byte Q k xs i v f e h next =
    Returns->>= (λ ys. length ys ≡ k) Q (write_byte xs i v) f (write_byte_fit xs i v k e h) next

if_no_error :
    {B : Type 0} (Q : B → Type 0) (code : ℕ) (n m : Outcome B)
    → code ≡ 0
    → Returns Q m
    → Returns Q (elim (code == 0) [ false ↦ n | true ↦ m ])
if_no_error Q code n m e h =
    subst (λ c. Returns Q (elim (c == 0) [ false ↦ n | true ↦ m ])) (sym e) h

module _ (slave count file_no record_no records : ℕ) where
  -- Without the records.
  abbrev front : List ℕ
  front =
      slave
      ∷ 21
      ∷ count
      ∷ 6
      ∷ (file_no / 2 ^ 8 % 2 ^ 8)
      ∷ (file_no % 2 ^ 8)
      ∷ (record_no / 2 ^ 8 % 2 ^ 8)
      ∷ (record_no % 2 ^ 8)
      ∷ 0
      ∷ records
      ∷ []

module _ (slave count file_no record_no records : ℕ) (data_bytes : List ℕ) where
  -- The request.
  abbrev request : List ℕ
  request =
      slave
      ∷ 21
      ∷ count
      ∷ 6
      ∷ (file_no / 2 ^ 8 % 2 ^ 8)
      ∷ (file_no % 2 ^ 8)
      ∷ (record_no / 2 ^ 8 % 2 ^ 8)
      ∷ (record_no % 2 ^ 8)
      ∷ 0
      ∷ records
      ∷ data_bytes

  copied_fits :
      (out : List ℕ) (k : ℕ)
      → length out ≡ k
      → 10 ≤ k
      → Returns (λ ys. length ys ≡ k) (copy_sub_request request 3 out 3)
  unfolding copy_sub_request read_byte
  copied_fits out k e h =
      let Q : List ℕ → Type 0 = λ ys. length ys ≡ k in
      then_byte Q k out 3 6 _ e (omega arith) λ o1 e1.
        then_byte Q k o1 4 _ _ e1 (omega arith) λ o2 e2.
          then_byte Q k o2 5 _ _ e2 (omega arith) λ o3 e3.
            then_byte Q k o3 6 _ _ e3 (omega arith) λ o4 e4.
              then_byte Q k o4 7 _ _ e4 (omega arith) λ o5 e5.
                then_byte Q k o5 8 _ _ e5 (omega arith)
                  λ o6 e6. write_byte_fit o6 9 records k e6 (omega arith)

-- What is left after the values have been stored at a record of the file; the answer has `k` bytes.
abbrev pub IsWritten : List (List ℕ) → List ℕ → ℕ → ℕ → List ℕ → ℕ → Stored → Type 0
IsWritten files file file_no record_no values k s =
    (s.code ≡ 0)
    × (s.file_store ≡ set files file_no (written file (record_no * 2) values))
    × (length s.message_out ≡ k)

module _ (files : List (List ℕ)) (file : List ℕ) (file_no record_no : ℕ) (values rest : List ℕ)
    (records : ℕ) (exists_ : (0 < file_no) × (file_no ≤ 6))
    (found : get_elem? files file_no ≡ some file) (room : (record_no + records) * 2 ≤ length file)
    (sized : length values ≡ records * 2) where
  abbrev Written : ℕ → Stored → Type 0
  Written k s = IsWritten files file file_no record_no values k s

  file-Written :
      (pre out : List ℕ) (k : ℕ)
      → length pre ≡ 10
      → length out ≡ k
      → 10 + records * 2 ≤ k
      → Returns
          (Written k)
          (file_write files (pre ++ (values ++ rest)) 10 out 10 file_no record_no records)
  unfolding file_write
  file-Written pre out k ten e h =
      let fits : record_no * 2 + length values ≤ length file = omega arith in
      rw
        (
          lt→ltb 0 file_no exists_.0,
          leb-of_le file_no 6 exists_.1,
          file_at_found files file_no file found,
          read_bytes_split pre values rest 10 (records * 2) (sym ten) (sym sized),
          write_bytes_ok file (record_no * 2) values fits,
          write_bytes_ok out 10 values (omega arith),
        )
        (refl, refl, length-written out 10 values (omega arith) ∙ e)

  module _ (slave : ℕ) (small : file_no < 2 ^ 16) (bounded : record_no + records < 10000)
      (one_byte : records * 2 + 7 < 256) where
    whole_request : List ℕ
    whole_request =
        slave ∷ 21 ∷ (records * 2 + 7) ∷ (sub_request file_no record_no records ++ (values ++ rest))

    -- The only round of the loop, and its end.
    loop-Written :
        (fuel : ℕ) (out : List ℕ) (k : ℕ)
        → length out ≡ k
        → 10 + records * 2 ≤ k
        → Returns
            (Written k)
            (request_write_loop (suc (suc fuel)) files whole_request out (records * 2 + 7) 0 0)
    unfolding request_write_loop whole_request sub_request read_pair read_byte
    loop-Written fuel out k e h =
        let first : ltb 0 (records * 2 + 7) ≡ true = ground arith in
        let last : ltb (0 + (records * 2 + 7)) (records * 2 + 7) ≡ false = ground arith in
        let file_read_ : file_no / 2 ^ 8 % 2 ^ 8 * 2 ^ 8 + file_no % 2 ^ 8 ≡ file_no =
          omega arith in
        let record_read : record_no / 2 ^ 8 % 2 ^ 8 * 2 ^ 8 + record_no % 2 ^ 8 ≡ record_no =
          omega arith in
        let inside : ltb (record_no + records) 10000 ≡ true = ground arith in
        let bytes = values ++ rest in
        rw (first, request_write_loop, file_read_, record_read)
          (Returns->>= (λ ys. length ys ≡ k) (Written k)
            (copy_sub_request (request slave (records * 2 + 7) file_no record_no records bytes) 3
              out 3)
            _
            (copied_fits slave (records * 2 + 7) file_no record_no records bytes out k e
              (omega arith))
            λ copied e'. rw inside (
              Returns->>= (Written k) (Written k)
                (file_write files whole_request 10 copied 10 file_no record_no records) _
                (file-Written (front slave (records * 2 + 7) file_no record_no records) copied k
                  refl e' h)
                λ stored (code, store, size).
                  if_no_error (Written k) stored.code (ok stored) _ code (
                    rw (last, request_write_loop)
                      (then_byte (Written k) k stored.message_out 2 _ _ size (omega arith)
                        λ o e2. (code, store, e2)))))

  -- For a file with a number from 1 to 6 that the store has and that has room, and records that a
  -- request has room for: from a message of `WriteFile` that holds one sub-request with the fields of
  -- `WriteFileSubRequestBuilder` and the records behind them, and with an answer that has room for 10
  -- bytes and the records, `processIncomingMessage` stores exactly these records at their place in
  -- the file, changes no other file, and reports no error.
  pub process_incoming_message-sub_request :
      (slave : ℕ) (out : List ℕ)
      → record_no + records < 10000
      → records * 2 + 7 < 256
      → 10 + records * 2 ≤ length out
      → Returns (IsWritten files file file_no record_no values (length out)) (
          process_incoming_message files
            (slave
              ∷ 21
              ∷ (records * 2 + 7)
              ∷ (sub_request file_no record_no records ++ (values ++ rest)))
            out)
  unfolding process_incoming_message request_write read_byte whole_request sub_request
  process_incoming_message-sub_request slave out bounded one_byte room_out =
      let k = length out in
      then_byte (Written k) k out 0 slave _ refl (omega arith) λ o1 e1.
        then_byte (Written k) k o1 1 21 _ e1 (omega arith)
          λ o2 e2. loop-Written slave (omega arith) bounded one_byte 36 o2 k e2 room_out
