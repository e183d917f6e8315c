-- ===== src/Modbus/Write/Coils.antt =====
-- What `WriteMultipleCoils` (modbus.c) sends for more than eight coils.
use modbus_sphere_library.Base.{
  ℕ, ◌+◌, ◌/◌, ◌%◌, ◌^◌, ◌≤◌, ◌<◌, ◌≡◌, refl, ap, ◌∙◌, List, [], ◌∷◌, arith, length, true,
}
use modbus_sphere_library.Outcome.{Returns, Returns-imp}
use modbus_sphere_library.Modbus.Types.{Env, World, idle, is_idle}
use modbus_sphere_library.Modbus.Receive.Buffer.{IsValid}
use modbus_sphere_library.Modbus.Transport.Frames.{frame}
use modbus_sphere_library.Modbus.Wait.Loop.{AllFit}
use modbus_sphere_library.Modbus.Request.{Reply, modbus_header}
use modbus_sphere_library.Modbus.Request.Exchange.{data_mode}
use modbus_sphere_library.Modbus.Write.{coil_byte_count, write_multiple_coils}
use modbus_sphere_library.Modbus.Write.Safety.{write_multiple_coils-IsSafe}

coil_byte_count_one : (n : ℕ) → 8 < n → coil_byte_count n ≡ 1
unfolding coil_byte_count
coil_byte_count_one n many = ground arith

module _ (env : Env) (fit : (k : ℕ) → AllFit (env.polls k)) (timeout : ℕ) (pos : 0 < timeout)
    (big : timeout + 2 < 2 ^ 32) (enough : timeout + 2 ≤ env.fuel) (w : World)
    (valid : IsValid w.hndl) (read_array : List ℕ) (room : 4 ≤ length read_array)
    (slave address : ℕ) where
  -- With a timeout `t > 0`, `t + 2 < 2 ^ 32`, fuel for `t + 2` rounds, events that store at most 254
  -- bytes each, a valid, idle handle, and an array of at least four bytes for the response: for more
  -- than eight coils `WriteMultipleCoils` returns and has handed to `send` one frame, that of the
  -- function code 15, the address, the number of coils, the byte count 1 and only the first byte of
  -- the coils, although the coils take more than one byte.
  pub write_multiple_coils_short :
      (num_to_write bit : ℕ) (bits : List ℕ)
      → w.hndl.state ≡ idle
      → 8 < num_to_write
      → Returns
          (λ r.
            r.world.wire
            ≡ frame env (data_mode w) w.hndl.type (
                slave
                ∷ 15
                ∷ (address / 2 ^ 8 % 2 ^ 8)
                ∷ (address % 2 ^ 8)
                ∷ (num_to_write / 2 ^ 8 % 2 ^ 8)
                ∷ (num_to_write % 2 ^ 8)
                ∷ 1
                ∷ bit
                ∷ [])
              ∷ w.wire)
          (write_multiple_coils env w slave address num_to_write (bit ∷ bits) read_array timeout)
        × (1 < (num_to_write + 7) / 8)
  unfolding modbus_header is_idle
  write_multiple_coils_short num_to_write bit bits free many =
      let one : coil_byte_count num_to_write ≡ 1 = coil_byte_count_one num_to_write many in
      let idle_now : is_idle w.hndl.state ≡ true = ap is_idle free in
      (
        Returns-imp _ _
            (write_multiple_coils env w slave address num_to_write (bit ∷ bits) read_array timeout)
            (write_multiple_coils-IsSafe env fit timeout pos big enough w valid read_array room
              slave address num_to_write (bit ∷ bits) (omega arith))
            λ (r : Reply) safe. safe.sent ∙ rw (idle_now, one) refl,
        omega arith,
      )
