-- ===== src/Tests/Requests.antt =====
-- Requests over Modbus TCP that a device answers.
use modbus_sphere_library.Base.{
  ℕ, ◌/◌, ◌<◌, ◌≡◌, refl, List, [], ◌∷◌, true, false, arith, replicate,
}
use modbus_sphere_library.Outcome.{Returns}
use modbus_sphere_library.Modbus.Types.{idle}
use modbus_sphere_library.Modbus.Fcode.{get_fcode_length}
use modbus_sphere_library.Modbus.Request.{exchange, modbus_header, copy_data, registers}
use modbus_sphere_library.Modbus.Request.Success.{Succeeds, exchange-exception}
use modbus_sphere_library.Modbus.Read.{bytes_to_read, read_coils, read_multiple_holding_registers}
use modbus_sphere_library.Modbus.Read.Tcp.{
  read_coils-answered, read_multiple_holding_registers-answered,
}
use modbus_sphere_library.Modbus.Write.{write_multiple_coils, write_single_coil}
use modbus_sphere_library.Modbus.Transport.{mbap_header}
use modbus_sphere_library.Modbus.Transport.Frames.{frame}
use modbus_sphere_library.Modbus.Write.Coils.{write_multiple_coils_short}
use modbus_sphere_library.Modbus.Write.Tcp.{write_single_coil-answered}
use modbus_sphere_library.Modbus.Write.Safety.{SinglesAreSafe, MultiplesAreSafe, writes-IsSafe}
use modbus_sphere_library.Tests.Data.{
  world, env, silent_env, handle-IsValid, response, piece_1, piece_2, exchanged,
}

abbrev array : List ℕ
array = replicate 4 0

-- Sixteen coils from address 19.
abbrev coils : List ℕ
coils = modbus_header 1 1 19 16

read_coils-answered_example :
    Returns
      (Succeeds world coils (205 ∷ 107 ∷ 0 ∷ 0 ∷ []))
      (read_coils (env (response 1 2 (205 ∷ 107 ∷ []))) world 1 19 16 array 10)
unfolding get_fcode_length modbus_header
read_coils-answered_example =
    read_coils-answered (env (response 1 2 (205 ∷ 107 ∷ []))) world 1 19 16 10 1
      (response 1 2 (205 ∷ 107 ∷ [])) piece_1 (piece_2 (response 1 2 (205 ∷ 107 ∷ [])) ∷ []) array
      (exchanged coils 1 2 (205 ∷ 107 ∷ []) refl (omega arith) (omega arith)) refl (omega arith)

-- Two holding registers from address 107.
abbrev held : List ℕ
held = 2 ∷ 43 ∷ 0 ∷ 100 ∷ []

read_multiple_holding_registers-answered_example :
    Returns
      (Succeeds world (modbus_header 1 3 107 2) (555 ∷ 100 ∷ 0 ∷ 0 ∷ []))
      (read_multiple_holding_registers (env (response 3 4 held)) world 1 107 2 array 10)
unfolding get_fcode_length modbus_header registers
read_multiple_holding_registers-answered_example =
    read_multiple_holding_registers-answered (env (response 3 4 held)) world 1 107 2 10 1
      (response 3 4 held) piece_1 (piece_2 (response 3 4 held) ∷ []) array 2
      (exchanged (modbus_header 1 3 107 2) 3 4 held refl (omega arith) (omega arith)) refl refl
      (omega arith)

-- Coil 172 on.
write_single_coil-answered_example :
    Returns
      (Succeeds world (modbus_header 1 5 172 0xff00) (0 ∷ 172 ∷ 255 ∷ 0 ∷ []))
      (write_single_coil (env (response 5 0 (172 ∷ 255 ∷ 0 ∷ []))) world 1 172 true array 10)
unfolding get_fcode_length modbus_header
write_single_coil-answered_example =
    write_single_coil-answered (env (response 5 0 (172 ∷ 255 ∷ 0 ∷ []))) world 1 172 10 1
      (response 5 0 (172 ∷ 255 ∷ 0 ∷ [])) piece_1 (piece_2 (response 5 0 (172 ∷ 255 ∷ 0 ∷ [])) ∷ [])
      array true 172 255 0 []
      (exchanged (modbus_header 1 5 172 0xff00) 5 0 (172 ∷ 255 ∷ 0 ∷ []) refl (omega arith)
        (omega arith))
      refl refl (omega arith)

-- The device has no such coil.
exchange-exception_example :
    Returns
      (λ reply.
        (reply.result ≡ false)
        × (reply.read_array ≡ 2 ∷ 0 ∷ 0 ∷ 0 ∷ [])
        × (reply.world.hndl.state ≡ idle))
      (exchange (env (response 129 2 [])) world coils 6 1 array 10 (copy_data (bytes_to_read 16)))
unfolding get_fcode_length modbus_header
exchange-exception_example =
    exchange-exception (env (response 129 2 [])) world coils (response 129 2 []) 10 1 piece_1
      (piece_2 (response 129 2 []) ∷ []) (exchanged coils 129 2 [] refl (omega arith) (omega arith))
      1 array (copy_data (bytes_to_read 16)) (omega arith) (omega arith) (omega arith)

-- Ten coils from address 19.
write_multiple_coils_short_example :
    Returns
      (λ r. r.world.wire ≡ (0 ∷ 5 ∷ 0 ∷ 0 ∷ 0 ∷ 8 ∷ 1 ∷ 15 ∷ 0 ∷ 19 ∷ 0 ∷ 10 ∷ 1 ∷ 205 ∷ []) ∷ [])
      (write_multiple_coils silent_env world 1 19 10 (205 ∷ 1 ∷ []) array 10)
    × (1 < 17 / 8)
unfolding frame mbap_header
write_multiple_coils_short_example =
    write_multiple_coils_short silent_env (λ k. tt) 10 (omega arith) (omega arith) (omega arith)
      world handle-IsValid array (omega arith) 1 19 10 205 (1 ∷ []) refl (omega arith)

-- A silent device; three coils in one byte, and two registers.
writes-IsSafe_example :
    SinglesAreSafe silent_env world 1 19 array 10 true 500
    × MultiplesAreSafe silent_env world 1 19 array 10 3 (5 ∷ []) (500 ∷ 600 ∷ 700 ∷ [])
writes-IsSafe_example =
    writes-IsSafe silent_env (λ k. tt) 10 (omega arith) (omega arith) (omega arith) world
      handle-IsValid array (omega arith) 1 19 true 500 3 (5 ∷ []) (500 ∷ 600 ∷ 700 ∷ [])
      (omega arith) (omega arith) (omega arith)
