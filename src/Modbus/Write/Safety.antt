-- ===== src/Modbus/Write/Safety.antt =====
-- The write functions of modbus.c, on every transport and whatever the device sends.
use modbus_sphere_library.Base.{
  ℕ, ◌+◌, ◌*◌, ◌/◌, ◌%◌, ◌^◌, ◌≤◌, ◌<◌, ◌≡◌, refl, List, [], ◌∷◌, Bool, arith, length,
  if◌then◌else◌, take, drop, ◌++◌, sym, ap, ◌∙◌, take-append-drop, length-take,
}
use modbus_sphere_library.Outcome.{ok, ◌>>=◌, Returns}
use modbus_sphere_library.Memory.{
  uninit, length-uninit, write_bytes, write_byte, write_bytes_split, write_byte_split,
  read_bytes_ok,
}
use modbus_sphere_library.Modbus.Types.{
  Env, World, write_single_coil_code, write_single_holding_register_code, write_multiple_coils_code,
  write_multiple_holding_registers_code,
}
use modbus_sphere_library.Modbus.Receive.Buffer.{IsValid}
use modbus_sphere_library.Modbus.Wait.Loop.{AllFit}
use modbus_sphere_library.Modbus.Request.{modbus_header, when_idle, exchange, copy_echo}
use modbus_sphere_library.Modbus.Request.Safety.{
  IsSafe, wire_after, exchange-IsSafe, exchange_front-IsSafe, when_idle-IsSafe,
}
use modbus_sphere_library.Modbus.Write.{
  write_single_coil, write_single_holding_register, coil_byte_count, register_bytes,
  write_multiple_coils, write_multiple_holding_registers,
}

length-register_bytes : (rs : List ℕ) → length (register_bytes rs) ≡ length rs * 2
unfolding register_bytes
length-register_bytes [] = refl
length-register_bytes (r ∷ rs) = omega (arith, length-register_bytes rs)

-- The three writes into the array of a message: the header, the count and the values.
module _ (stack : ℕ → ℕ) (a b c d e f count : ℕ) (values : List ℕ)
    (short : length values ≤ 245) where
  abbrev header : List ℕ
  header = a ∷ b ∷ c ∷ d ∷ e ∷ f ∷ []

  headed : write_bytes (uninit stack 254) 0 header ≡ ok (header ++ uninit stack 248)
  unfolding uninit
  headed = write_bytes_split [] (take 6 (uninit stack 254)) (uninit stack 248) 0 header refl refl

  counted :
      write_byte (header ++ uninit stack 248) 6 count ≡ ok (header ++ (count ∷ uninit stack 247))
  unfolding uninit
  counted = write_byte_split header (uninit stack 247) (stack 247) 6 count refl

  filled :
      write_bytes (header ++ (count ∷ uninit stack 247)) 7 values
      ≡ ok ((header ++ (count ∷ values)) ++ drop (length values) (uninit stack 247))
  filled =
      let n = length values in
      ap (λ l. write_bytes (header ++ (count ∷ l)) 7 values)
        (sym (take-append-drop n (uninit stack 247)))
      ∙ write_bytes_split (header ++ (count ∷ [])) (take n (uninit stack 247))
          (drop n (uninit stack 247)) 7 values refl
          (omega (arith, length-take n (uninit stack 247), length-uninit stack 247))

coil_byte_count_one : (n : ℕ) → coil_byte_count n ≤ 1
unfolding coil_byte_count
coil_byte_count_one n = ground arith

-- What the functions that write one coil or register do.
abbrev pub SinglesAreSafe : Env → World → ℕ → ℕ → List ℕ → ℕ → Bool → ℕ → Type 0
SinglesAreSafe env w slave address read_array timeout bit mb_register =
    Returns
      (IsSafe w read_array (
        wire_after env w
          (modbus_header slave write_single_coil_code address (if bit then 0xff00 else 0x00))))
      (write_single_coil env w slave address bit read_array timeout)
    × Returns
        (IsSafe w read_array (
          wire_after env w
            (modbus_header slave write_single_holding_register_code address mb_register)))
        (write_single_holding_register env w slave address mb_register read_array timeout)

-- What the functions that write several do.
abbrev pub MultiplesAreSafe : Env → World → ℕ → ℕ → List ℕ → ℕ → ℕ → List ℕ → List ℕ → Type 0
MultiplesAreSafe env w slave address read_array timeout num_to_write bit_array register_array =
    Returns
      (IsSafe w read_array (
        wire_after env w (
          modbus_header slave write_multiple_coils_code address num_to_write
          ++ (coil_byte_count num_to_write ∷ take (coil_byte_count num_to_write) bit_array))))
      (write_multiple_coils env w slave address num_to_write bit_array read_array timeout)
    × Returns
        (IsSafe w read_array (
          wire_after env w (
            modbus_header slave write_multiple_holding_registers_code address num_to_write
            ++ ((num_to_write * 2) ∷ register_bytes (take num_to_write register_array)))))
        (write_multiple_holding_registers env w slave address num_to_write register_array read_array
          timeout)

module _ (env : Env) (fit : (k : ℕ) → AllFit (env.polls k)) (timeout : ℕ) (pos : 0 < timeout)
    (big : timeout + 2 < 2 ^ 32) (enough : timeout + 2 ≤ env.fuel) (w : World)
    (valid : IsValid w.hndl) (read_array : List ℕ) (room : 4 ≤ length read_array)
    (slave address : ℕ) where
  pub write_single-IsSafe :
      (bit : Bool) (mb_register : ℕ)
      → SinglesAreSafe env w slave address read_array timeout bit mb_register
  unfolding write_single_coil write_single_holding_register modbus_header
  write_single-IsSafe bit mb_register = (
    when_idle-IsSafe env fit timeout pos big enough w valid read_array room _ _ (
        exchange-IsSafe env fit timeout pos big enough w valid read_array room
          (modbus_header slave write_single_coil_code address (if bit then 0xff00 else 0x00)) 6
          write_single_coil_code (omega arith) (omega arith)),
    when_idle-IsSafe env fit timeout pos big enough w valid read_array room _ _ (
        exchange-IsSafe env fit timeout pos big enough w valid read_array room
          (modbus_header slave write_single_holding_register_code address mb_register) 6
          write_single_holding_register_code (omega arith) (omega arith)),
  )

  array_sent :
      (a b c d e f count n code : ℕ) (values : List ℕ)
      → length values ≤ 245
      → n ≡ 7 + length values
      → Returns
          (IsSafe w read_array
            (wire_after env w ((a ∷ b ∷ c ∷ d ∷ e ∷ f ∷ []) ++ (count ∷ values))))
          (when_idle w read_array (do
            first ← write_bytes (uninit env.stack 254) 0 (a ∷ b ∷ c ∷ d ∷ e ∷ f ∷ [])
            second ← write_byte first 6 count
            message ← write_bytes second 7 values
            exchange env w message n code read_array timeout copy_echo))
  array_sent a b c d e f count n code values short size =
      let rest = drop (length values) (uninit env.stack 247) in
      let message = (a ∷ b ∷ c ∷ d ∷ e ∷ f ∷ []) ++ (count ∷ values) in
      let whole : n ≡ length message = omega (arith, size) in
      when_idle-IsSafe env fit timeout pos big enough w valid read_array room message _ λ free.
        rw
          (
            headed env.stack a b c d e f count values short,
            counted env.stack a b c d e f count values short,
            filled env.stack a b c d e f count values short,
            whole,
          )
          (exchange_front-IsSafe env fit timeout pos big enough w valid read_array room message rest
            code (omega arith) free)

  pub write_multiple_coils-IsSafe :
      (num_to_write : ℕ) (bit_array : List ℕ)
      → 1 ≤ length bit_array
      → Returns
          (IsSafe w read_array (
            wire_after env w (
              modbus_header slave write_multiple_coils_code address num_to_write
              ++ (coil_byte_count num_to_write ∷ take (coil_byte_count num_to_write) bit_array))))
          (write_multiple_coils env w slave address num_to_write bit_array read_array timeout)
  unfolding write_multiple_coils modbus_header
  write_multiple_coils-IsSafe num_to_write bit_array some_coils =
      let bits = coil_byte_count num_to_write in
      let one = coil_byte_count_one num_to_write in
      rw (read_bytes_ok bit_array 0 bits (omega arith)) (
        array_sent slave write_multiple_coils_code _ _ _ _ bits (7 + bits) write_multiple_coils_code
          (take bits bit_array) (omega (arith, length-take bits bit_array))
          (omega (arith, length-take bits bit_array)))

  write_multiple-IsSafe :
      (num_to_write : ℕ) (bit_array register_array : List ℕ)
      → 1 ≤ length bit_array
      → num_to_write ≤ 122
      → num_to_write ≤ length register_array
      → MultiplesAreSafe env w slave address read_array timeout num_to_write bit_array
          register_array
  unfolding write_multiple_holding_registers modbus_header
  write_multiple-IsSafe num_to_write bit_array register_array some_coils most given =
      let words = num_to_write * 2 % 2 ^ 8 in
      let same : words ≡ num_to_write * 2 = omega arith in
      let values = take num_to_write register_array in
      (
        write_multiple_coils-IsSafe num_to_write bit_array some_coils,
        rw
            (
              same,
              (let half : num_to_write * 2 / 2 ≡ num_to_write = omega arith in half),
              read_bytes_ok register_array 0 num_to_write (omega arith),
            )
            (array_sent slave write_multiple_holding_registers_code _ _ _ _ (num_to_write * 2)
              ((7 + num_to_write * 2) % 2 ^ 8) write_multiple_holding_registers_code
              (register_bytes values)
              (omega (arith, length-register_bytes values, length-take num_to_write register_array))
              (omega
                (arith, length-register_bytes values, length-take num_to_write register_array))),
      )

  -- With a timeout `t > 0`, `t + 2 < 2 ^ 32`, fuel for `t + 2` rounds, events that store at most 254
  -- bytes each, a valid handle, an array of at least four bytes for the response, at least one byte
  -- of coils, and at most 122 registers, which the array of registers holds: on every transport,
  -- whatever `send` says and the device sends, `WriteSingleCoil`, `WriteSingleHoldingRegister`,
  -- `WriteMultipleCoils` and `WriteMultipleHoldingRegisters` return without an invalid access. They
  -- leave the handle valid and in the state in which it was, the array for the response of the same
  -- size, and have handed to `send` exactly one frame if the handle was idle, and nothing otherwise:
  -- the frame of the header and, for several values, of the byte count and the values, of the coils
  -- as many bytes as the byte count says.
  pub writes-IsSafe :
      (bit : Bool) (mb_register num_to_write : ℕ) (bit_array register_array : List ℕ)
      → 1 ≤ length bit_array
      → num_to_write ≤ 122
      → num_to_write ≤ length register_array
      → SinglesAreSafe env w slave address read_array timeout bit mb_register
        × MultiplesAreSafe env w slave address read_array timeout num_to_write bit_array
            register_array
  writes-IsSafe bit mb_register num_to_write bit_array register_array some_coils most given = (
    write_single-IsSafe bit mb_register,
    write_multiple-IsSafe num_to_write bit_array register_array some_coils most given,
  )
