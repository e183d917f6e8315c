-- ===== src/Simulator/Answering.antt =====
-- A request to read records: what the simulator (modbuscommands.c, main.c) sends.
use modbus_sphere_library.Base.{
  ℕ, suc, ◌+◌, ◌*◌, ◌/◌, ◌%◌, ◌^◌, ◌≤◌, ◌<◌, ◌≡◌, refl, ap, sym, ◌∙◌, List, [], ◌∷◌, ◌++◌,
  append_assoc, true, some, arith, length, length-append, length-drop, drop, get_elem?, ltb, lt→ltb,
  leb-of_le,
}
use modbus_sphere_library.Outcome.{ok, Returns}
use modbus_sphere_library.Memory.{
  read_byte, read_bytes, write_bytes, read_bytes_split, write_byte_split, two_more, write_bytes_ok,
}
use modbus_sphere_library.Crc.Footer.{crc_low, crc_high, add_crc_split}
use modbus_sphere_library.Modbus.File.{sub_request}
use modbus_sphere_library.Simulator.Files.{file_read}
use modbus_sphere_library.Simulator.Store.{file_at_found}
use modbus_sphere_library.Simulator.Requests.{
  read_pair, request_read_loop, request_read, process_incoming_message, answer,
}

-- The answer to a request for these bytes.
abbrev pub read_answer : ℕ → ℕ → List ℕ → List ℕ
read_answer slave records values = slave ∷ 20 ∷ (records * 2 + 2) ∷ (records * 2) ∷ 6 ∷ values

module _ (files : List (List ℕ)) (file : List ℕ) (file_no record_no records : ℕ)
    (values rest : List ℕ) (exists_ : (0 < file_no) × (file_no ≤ 6))
    (found : get_elem? files file_no ≡ some file)
    (there : read_bytes file (record_no * 2) (records * 2) ≡ ok values)
    (sized : length values ≡ records * 2) (slave : ℕ) (bounded : record_no + records < 10000)
    (one_byte : records * 2 + 2 < 256) where
  unfoldable pub read_request : List ℕ
  read_request = slave ∷ 20 ∷ 7 ∷ (sub_request file_no record_no records ++ rest)

  -- The values behind the first five bytes.
  placed :
      (c d : ℕ) (area : List ℕ)
      → records * 2 ≤ length area
      → write_bytes (slave ∷ 20 ∷ c ∷ d ∷ 6 ∷ area) 5 values
        ≡ ok (slave ∷ 20 ∷ c ∷ d ∷ 6 ∷ (values ++ drop (records * 2) area))
  placed c d area room =
      let five : 5 + length values ≡ suc (suc (suc (suc (suc (records * 2))))) = omega arith in
      write_bytes_ok (slave ∷ 20 ∷ c ∷ d ∷ 6 ∷ area) 5 values (omega arith)
      ∙ ap (λ k. ok (slave ∷ 20 ∷ c ∷ d ∷ 6 ∷ (values ++ drop k (slave ∷ 20 ∷ c ∷ d ∷ 6 ∷ area))))
          five

  records_read :
      (a b c d e : ℕ) (area : List ℕ)
      → records * 2 ≤ length area
      → process_incoming_message files read_request (a ∷ b ∷ c ∷ d ∷ e ∷ area)
        ≡ ok (record {
          code = 0;
          file_store = files;
          message_out = read_answer slave records values ++ drop (records * 2) area;
        })
  unfolding process_incoming_message request_read request_read_loop read_request sub_request
      read_pair read_byte file_read
  records_read a b c d e area room =
      let file_is : file_no / 2 ^ 8 % 2 ^ 8 * 2 ^ 8 + file_no % 2 ^ 8 ≡ file_no = omega arith in
      let record_is : record_no / 2 ^ 8 % 2 ^ 8 * 2 ^ 8 + record_no % 2 ^ 8 ≡ record_no =
        omega arith in
      let inside : ltb (record_no + records) 10000 ≡ true = ground arith in
      let twice : records * 2 % 2 ^ 8 ≡ records * 2 = omega arith in
      let total : (0 + (records * 2 + 2)) % 2 ^ 8 ≡ records * 2 + 2 = omega arith in
      rw
        (
          write_byte_split [] (b ∷ c ∷ d ∷ e ∷ area) a 0 slave refl,
          write_byte_split (slave ∷ []) (c ∷ d ∷ e ∷ area) b 1 20 refl,
          request_read,
          file_is,
          record_is,
          inside,
          twice,
          write_byte_split (slave ∷ 20 ∷ c ∷ []) (e ∷ area) d 3 (records * 2) refl,
          write_byte_split (slave ∷ 20 ∷ c ∷ records * 2 ∷ []) area e 4 6 refl,
          lt→ltb 0 file_no exists_.0,
          leb-of_le file_no 6 exists_.1,
          file_at_found files file_no file found,
          there,
          placed c (records * 2) area room,
          total,
          write_byte_split (slave ∷ 20 ∷ []) (records * 2 ∷ 6 ∷ (values ++ drop (records * 2) area))
              c 2 (records * 2 + 2) refl,
        )
        refl

  -- The answer goes out whole, with its CRC.
  pub records_sent :
      (a b c d e : ℕ) (area : List ℕ)
      → records * 2 + 2 ≤ length area
      → records * 2 + 7 ≤ 256
      → Returns
          (λ out.
            out.0
            ≡ some (
                read_answer slave records values
                ++ (crc_low (read_answer slave records values)
                    ∷ crc_high (read_answer slave records values)
                    ∷ [])))
          (answer files read_request (a ∷ b ∷ c ∷ d ∷ e ∷ area))
  unfolding answer read_byte
  records_sent a b c d e area room fits =
      let payload = read_answer slave records values in
      let (low, high, more, split) =
        two_more (drop (records * 2) area) (omega (arith, length-drop (records * 2) area)) in
      let size : records * 2 + 2 + 3 ≡ length payload = omega arith in
      let sent : read_bytes (payload ++ (crc_low payload ∷ crc_high payload ∷ more)) 0
            (records * 2 + 2 + 5)
          ≡ ok (payload ++ (crc_low payload ∷ crc_high payload ∷ [])) =
        ap (λ l. read_bytes l 0 (records * 2 + 2 + 5))
          (sym (append_assoc payload (crc_low payload ∷ crc_high payload ∷ []) more))
        ∙ read_bytes_split [] (payload ++ (crc_low payload ∷ crc_high payload ∷ [])) more 0
            (records * 2 + 2 + 5) refl
            (omega (arith, length-append payload (crc_low payload ∷ crc_high payload ∷ []))) in
      rw
        (
          records_read a b c d e area (omega arith),
          split,
          add_crc_split payload more low high (records * 2 + 2 + 3) 256 size (omega arith),
          sent,
        )
        refl
