-- ===== src/Modbus/Read/Tcp.antt =====
-- The read requests over Modbus TCP, from the call to the filled array.
use modbus_sphere_library.Base.{ℕ, ◌*◌, ◌%◌, ◌^◌, ◌≤◌, ◌≡◌, List, ◌++◌, arith, drop, length}
use modbus_sphere_library.Outcome.{Returns}
use modbus_sphere_library.Modbus.Types.{Env, World}
use modbus_sphere_library.Modbus.Receive.Tcp.{Response}
use modbus_sphere_library.Modbus.Request.{
  exchange, modbus_header, copy_data, copy_registers, registers,
}
use modbus_sphere_library.Modbus.Request.Checks.{copy_data_lem, copy_registers_lem}
use modbus_sphere_library.Modbus.Request.Success.{
  Succeeds, Exchanged, when_idle_lem, exchange-copies,
}
use modbus_sphere_library.Modbus.Read.{
  bytes_to_read, read_coils, read_discrete_inputs, read_multiple_holding_registers,
  read_input_registers,
}

module _ (env : Env) (w : World) (slave address count timeout n : ℕ) (r : Response) (p : List ℕ)
    (ps : List (List ℕ)) (read_array : List ℕ) where
  -- `ReadCoils` on an idle, valid TCP handle with an empty buffer, whose request is sent whole and
  -- whose fitting response (the length of its function code, at most 253 bytes with its header, the
  -- request's identifier) comes after at most `timeout` silent sleeps and all within one sleep,
  -- with fuel for the wait, sends exactly its request; if the response has its function code and
  -- the caller's array has room, the array starts with the data of the response and is otherwise as
  -- before, the result is true, and the handle is idle.
  pub read_coils-answered :
      Exchanged env w (modbus_header slave 1 address count) r timeout n p ps
      → r.f_code ≡ 1
      → length r.rest ≤ length read_array
      → Returns
          (Succeeds w
            (modbus_header slave 1 address count)
            (r.rest ++ drop (length r.rest) read_array))
          (read_coils env w slave address count read_array timeout)
  unfolding read_coils modbus_header
  read_coils-answered x same room =
      rw
        (when_idle_lem w read_array
          (exchange env w (modbus_header slave 1 address count) 6 1 read_array timeout
            (copy_data (bytes_to_read count)))
          x.free)
        (exchange-copies env w (modbus_header slave 1 address count) r timeout n p ps x 1 read_array
          (copy_data (bytes_to_read count)) (r.rest ++ drop (length r.rest) read_array) same
          (omega arith)
          λ answered holds.
            copy_data_lem answered r holds (omega (arith, x.answers.short)) (bytes_to_read count)
              read_array room)

  -- `ReadDiscreteInputs` on an idle, valid TCP handle with an empty buffer, whose request is sent
  -- whole and whose fitting response (the length of its function code, at most 253 bytes with its
  -- header, the request's identifier) comes after at most `timeout` silent sleeps and all within
  -- one sleep, with fuel for the wait, sends exactly its request; if the response has its function
  -- code and the caller's array has room, the array starts with the data of the response and is
  -- otherwise as before, the result is true, and the handle is idle.
  read_discrete_inputs-answered :
      Exchanged env w (modbus_header slave 2 address count) r timeout n p ps
      → r.f_code ≡ 2
      → length r.rest ≤ length read_array
      → Returns
          (Succeeds w
            (modbus_header slave 2 address count)
            (r.rest ++ drop (length r.rest) read_array))
          (read_discrete_inputs env w slave address count read_array timeout)
  unfolding read_discrete_inputs modbus_header
  read_discrete_inputs-answered x same room =
      rw
        (when_idle_lem w read_array
          (exchange env w (modbus_header slave 2 address count) 6 2 read_array timeout
            (copy_data (bytes_to_read count)))
          x.free)
        (exchange-copies env w (modbus_header slave 2 address count) r timeout n p ps x 2 read_array
          (copy_data (bytes_to_read count)) (r.rest ++ drop (length r.rest) read_array) same
          (omega arith)
          λ answered holds.
            copy_data_lem answered r holds (omega (arith, x.answers.short)) (bytes_to_read count)
              read_array room)

  -- `ReadMultipleHoldingRegisters` on an idle, valid TCP handle with an empty buffer, whose request
  -- is sent whole and whose fitting response (the length of its function code, at most 253 bytes
  -- with its header, the request's identifier) comes after at most `timeout` silent sleeps and all
  -- within one sleep, with fuel for the wait, sends exactly its request; if the response has its
  -- function code and an even number of data bytes, and the caller's array has room, the array
  -- starts with the registers of the response, high byte first, and is otherwise as before, the
  -- result is true, and the handle is idle.
  pub read_multiple_holding_registers-answered :
      (m : ℕ)
      → Exchanged env w (modbus_header slave 3 address count) r timeout n p ps
      → r.f_code ≡ 3
      → length r.rest ≡ m * 2
      → m ≤ length read_array
      → Returns
          (Succeeds w (modbus_header slave 3 address count) (registers r.rest ++ drop m read_array))
          (read_multiple_holding_registers env w slave address count read_array timeout)
  unfolding read_multiple_holding_registers modbus_header
  read_multiple_holding_registers-answered m x same even room =
      rw
        (when_idle_lem w read_array
          (exchange env w (modbus_header slave 3 address count) 6 3 read_array timeout
            (copy_registers (count * 2 % 2 ^ 16)))
          x.free)
        (exchange-copies env w (modbus_header slave 3 address count) r timeout n p ps x 3 read_array
          (copy_registers (count * 2 % 2 ^ 16)) (registers r.rest ++ drop m read_array) same
          (omega arith)
          λ answered holds.
            copy_registers_lem answered r holds (omega (arith, x.answers.short))
              (count * 2 % 2 ^ 16) read_array m even room)

  -- `ReadInputRegisters` on an idle, valid TCP handle with an empty buffer, whose request is sent
  -- whole and whose fitting response (the length of its function code, at most 253 bytes with its
  -- header, the request's identifier) comes after at most `timeout` silent sleeps and all within
  -- one sleep, with fuel for the wait, sends exactly its request; if the response has its function
  -- code and an even number of data bytes, and the caller's array has room, the array starts with
  -- the registers of the response, high byte first, and is otherwise as before, the result is true,
  -- and the handle is idle.
  read_input_registers-answered :
      (m : ℕ)
      → Exchanged env w (modbus_header slave 4 address count) r timeout n p ps
      → r.f_code ≡ 4
      → length r.rest ≡ m * 2
      → m ≤ length read_array
      → Returns
          (Succeeds w (modbus_header slave 4 address count) (registers r.rest ++ drop m read_array))
          (read_input_registers env w slave address count read_array timeout)
  unfolding read_input_registers modbus_header
  read_input_registers-answered m x same even room =
      rw
        (when_idle_lem w read_array
          (exchange env w (modbus_header slave 4 address count) 6 4 read_array timeout
            (copy_registers (count * 2 % 2 ^ 16)))
          x.free)
        (exchange-copies env w (modbus_header slave 4 address count) r timeout n p ps x 4 read_array
          (copy_registers (count * 2 % 2 ^ 16)) (registers r.rest ++ drop m read_array) same
          (omega arith)
          λ answered holds.
            copy_registers_lem answered r holds (omega (arith, x.answers.short))
              (count * 2 % 2 ^ 16) read_array m even room)
