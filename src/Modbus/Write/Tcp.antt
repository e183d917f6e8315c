-- ===== src/Modbus/Write/Tcp.antt =====
-- The single write requests over Modbus TCP, and the bytes of registers.
use modbus_sphere_library.Base.{
  ℕ, ◌+◌, ◌/◌, ◌^◌, ◌≤◌, ◌<◌, ◌≡◌, refl, ap₂, List, [], ◌∷◌, Bool, arith, drop, length,
  if◌then◌else◌,
}
use modbus_sphere_library.Outcome.{Returns}
use modbus_sphere_library.Modbus.Types.{Env, World}
use modbus_sphere_library.Modbus.Receive.Tcp.{Response}
use modbus_sphere_library.Modbus.Request.{exchange, modbus_header, copy_echo, registers}
use modbus_sphere_library.Modbus.Request.Checks.{copy_echo_lem}
use modbus_sphere_library.Modbus.Request.Success.{
  Succeeds, Exchanged, when_idle_lem, exchange-copies,
}
use modbus_sphere_library.Modbus.Write.{
  coil_byte_count, register_bytes, write_single_coil, write_single_holding_register,
}

module _ (env : Env) (w : World) (slave address timeout n : ℕ) (r : Response) (p : List ℕ)
    (ps : List (List ℕ)) (read_array : List ℕ) where
  -- `WriteSingleCoil` on an idle, valid TCP handle with an empty buffer, whose request is sent
  -- whole and whose fitting response (the length of its function code, at most 253 bytes with its
  -- header, the request's identifier) comes after at most `timeout` silent sleeps and all within
  -- one sleep, with fuel for the wait, sends exactly its request; if the response has its function
  -- code and three more bytes or more, and the caller's array has room for four, the array starts
  -- with the four bytes behind the function code and is otherwise as before, the result is true,
  -- and the handle is idle.
  pub write_single_coil-answered :
      (bit : Bool) (a b c : ℕ) (more : List ℕ)
      → Exchanged env w
          (modbus_header slave 5 address (if bit then 0xff00 else 0x00))
          r
          timeout
          n
          p
          ps
      → r.f_code ≡ 5
      → r.rest ≡ a ∷ b ∷ c ∷ more
      → 4 ≤ length read_array
      → Returns
          (Succeeds w
            (modbus_header slave 5 address (if bit then 0xff00 else 0x00))
            (r.third ∷ a ∷ b ∷ c ∷ drop 4 read_array))
          (write_single_coil env w slave address bit read_array timeout)
  unfolding write_single_coil modbus_header
  write_single_coil-answered bit a b c more x same shape room =
      rw
        (when_idle_lem w read_array
          (exchange env w (modbus_header slave 5 address (if bit then 0xff00 else 0x00)) 6 5
            read_array timeout copy_echo)
          x.free)
        (exchange-copies env w (modbus_header slave 5 address (if bit then 0xff00 else 0x00)) r
          timeout n p ps x 5 read_array copy_echo (r.third ∷ a ∷ b ∷ c ∷ drop 4 read_array) same
          (omega arith)
          λ answered holds. copy_echo_lem answered r holds a b c more read_array shape room)

  -- `WriteSingleHoldingRegister` on an idle, valid TCP handle with an empty buffer, whose request
  -- is sent whole and whose fitting response (the length of its function code, at most 253 bytes
  -- with its header, the request's identifier) comes after at most `timeout` silent sleeps and all
  -- within one sleep, with fuel for the wait, sends exactly its request; if the response has its
  -- function code and three more bytes or more, and the caller's array has room for four, the array
  -- starts with the four bytes behind the function code and is otherwise as before, the result is
  -- true, and the handle is idle.
  write_single_holding_register-answered :
      (mb_register : ℕ) (a b c : ℕ) (more : List ℕ)
      → Exchanged env w (modbus_header slave 6 address mb_register) r timeout n p ps
      → r.f_code ≡ 6
      → r.rest ≡ a ∷ b ∷ c ∷ more
      → 4 ≤ length read_array
      → Returns
          (Succeeds w
            (modbus_header slave 6 address mb_register)
            (r.third ∷ a ∷ b ∷ c ∷ drop 4 read_array))
          (write_single_holding_register env w slave address mb_register read_array timeout)
  unfolding write_single_holding_register modbus_header
  write_single_holding_register-answered mb_register a b c more x same shape room =
      rw
        (when_idle_lem w read_array
          (exchange env w (modbus_header slave 6 address mb_register) 6 6 read_array timeout
            copy_echo)
          x.free)
        (exchange-copies env w (modbus_header slave 6 address mb_register) r timeout n p ps x 6
          read_array copy_echo (r.third ∷ a ∷ b ∷ c ∷ drop 4 read_array) same (omega arith)
          λ answered holds. copy_echo_lem answered r holds a b c more read_array shape room)

abbrev pub AreRegisters : List ℕ → Type 0
AreRegisters [] = Unit {0}
AreRegisters (x ∷ xs) = (x < 2 ^ 16) × AreRegisters xs

-- What `WriteMultipleHoldingRegisters` encodes the read functions decode: 16-bit registers survive
-- the way through their bytes.
registers-register_bytes : (rs : List ℕ) → AreRegisters rs → registers (register_bytes rs) ≡ rs
unfolding registers register_bytes
registers-register_bytes [] h = refl
registers-register_bytes (x ∷ rs) h = ap₂ ◌∷◌ (omega (arith, h.0)) (registers-register_bytes rs h.1)

-- For up to eight coils the byte count is right.
pub coil_byte_count_small : (n : ℕ) → n ≤ 8 → coil_byte_count n ≡ (n + 7) / 8
unfolding coil_byte_count
coil_byte_count_small n h = ground arith
