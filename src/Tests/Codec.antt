-- ===== src/Tests/Codec.antt =====
-- The CRC, the frames and the transaction identifiers on concrete inputs.
use modbus_sphere_library.Base.{ℕ, ◌<◌, ◌≡◌, ◌↔◌, refl, List, [], ◌∷◌, ◌++◌, true, arith}
use modbus_sphere_library.Outcome.{ok}
use modbus_sphere_library.Crc.{crc_table, crc_update, crc_rounds, add_crc, validate_crc}
use modbus_sphere_library.Crc.Bitwise.{crc_bitwise, crc_rounds-eq-crc_bitwise}
use modbus_sphere_library.Crc.Footer.{validate_crc-add_crc}
use modbus_sphere_library.Modbus.Receive.{past, check_transaction_id}
use modbus_sphere_library.Modbus.Receive.Transaction.{
  distance, check_transaction_id-past, check_transaction_id-past_wrapped,
}

-- Ten holding registers of slave 1 from address 0.
abbrev message : List ℕ
message = 1 ∷ 3 ∷ 0 ∷ 0 ∷ 0 ∷ 10 ∷ []

crc_of_message : crc_rounds 0xffff message ≡ 0xcdc5
unfolding crc_rounds crc_update crc_table
crc_of_message = refl

crc_rounds-eq-crc_bitwise_example : crc_rounds 0xffff message ≡ crc_bitwise 0xffff message
crc_rounds-eq-crc_bitwise_example = crc_rounds-eq-crc_bitwise 0xffff message (omega arith)

validate_crc-add_crc_example :
    (sent : List ℕ) × (add_crc (message ++ (0 ∷ 0 ∷ [])) 6 256 ≡ ok (true, sent))
    × (validate_crc sent 8 ≡ ok true)
validate_crc-add_crc_example = validate_crc-add_crc message [] 0 0 256 (omega arith) (omega arith)

-- The response 5 comes while 7 is awaited and 3 was answered last.
check_transaction_id-past_example :
    (check_transaction_id 7 3 5 ≡ past) ↔ ((0 < distance 3 5) × (distance 3 5 < distance 3 7))
check_transaction_id-past_example =
    check_transaction_id-past 7 3 5 (omega arith) (omega arith) (omega arith)

-- The same round the end of the identifiers.
check_transaction_id-past_wrapped_example :
    (check_transaction_id 2 65530 65533 ≡ past) ↔ (distance 65530 65533 < distance 65530 2)
check_transaction_id-past_wrapped_example =
    check_transaction_id-past_wrapped 2 65530 65533 (omega arith) (omega arith) (omega arith)
