-- ===== src/Modbus/Fcode.antt =====
-- `GetFcodeLength` of modbus.c: the length of a response from its function code and third byte.
use modbus_sphere_library.Base.{
  ℕ, ◌+◌, ◌%◌, ◌^◌, ◌≤◌, ◌<◌, ◌≡◌, ◌⊎◌, ltb, leb, ◌==◌, ◌&&◌, if◌then◌else◌, arith,
}
use modbus_sphere_library.Modbus.Types.{
  read_coils_code, read_discrete_inputs_code, read_multiple_holding_registers_code,
  read_input_registers_code, read_file_code, write_single_coil_code,
  write_single_holding_register_code, read_exception_status_code, write_multiple_coils_code,
  write_multiple_holding_registers_code, write_file_code, pdu_header_length, error_code_length,
  fcode_range, fcode_error_offset,
}

unfoldable pub get_fcode_length : ℕ → ℕ → ℕ
get_fcode_length f_code data_length =
    let with_data = (pdu_header_length + data_length) % 2 ^ 16 in
    if ltb fcode_error_offset f_code && leb f_code (fcode_error_offset + fcode_range)
    then error_code_length
    else if f_code == read_coils_code
    then with_data
    else if f_code == read_discrete_inputs_code
    then with_data
    else if f_code == read_multiple_holding_registers_code
    then with_data
    else if f_code == read_input_registers_code
    then with_data
    else if f_code == read_file_code
    then with_data
    else if f_code == write_single_coil_code
    then pdu_header_length + 3
    else if f_code == write_single_holding_register_code
    then pdu_header_length + 3
    else if f_code == read_exception_status_code
    then pdu_header_length
    else if f_code == write_multiple_coils_code
    then pdu_header_length + 3
    else if f_code == write_multiple_holding_registers_code
    then pdu_header_length + 3
    else if f_code == write_file_code
    then with_data
    else 0

-- A length is 0 (unsupported), or covers the header and at most the counted data.
pub get_fcode_length_bounds :
    (f d : ℕ)
    → d < 256
    → (get_fcode_length f d ≡ 0) ⊎ ((3 ≤ get_fcode_length f d) × (get_fcode_length f d ≤ 258))
unfolding get_fcode_length
get_fcode_length_bounds f d h = ground arith
