-- ===== src/Tests/Devices.antt =====
-- The ADAM-4150 when it answers a request.
use modbus_sphere_library.Base.{◌≡◌, refl, [], ◌∷◌, true, arith, set}
use modbus_sphere_library.Outcome.{Returns, Returns->>=}
use modbus_sphere_library.Memory.{uninit}
use modbus_sphere_library.Modbus.Fcode.{get_fcode_length}
use modbus_sphere_library.Modbus.Request.{modbus_header}
use modbus_sphere_library.Modbus.Request.Success.{Exchanged}
use modbus_sphere_library.Modbus.Receive.Tcp.{Response}
use modbus_sphere_library.Modbus.Write.{write_single_coil}
use modbus_sphere_library.Modbus.Write.Tcp.{write_single_coil-answered}
use modbus_sphere_library.Tests.Data.{world, env, response, piece_1, piece_2, exchanged}
use modbus_sphere_library.Devices.Adam4150.{boot, set_output, store_state, set_config}
use modbus_sphere_library.Devices.Adam4150.Run.{Twinned}

-- The device's echo of the request that opens output 3.
abbrev echo : Response
echo = response 5 0 (19 ∷ 255 ∷ 0 ∷ [])

echoed :
    Exchanged (env echo) world (modbus_header 1 5 19 0xff00) echo 500 1 piece_1 (piece_2 echo ∷ [])
unfolding get_fcode_length modbus_header
echoed =
    let x =
      exchanged (modbus_header 1 5 19 0xff00) 5 0 (19 ∷ 255 ∷ 0 ∷ []) refl (omega arith)
        (omega arith) in
    record {
      free = x.free;
      ready = x.ready;
      answers = x.answers;
      arrives = x.arrives;
      in_time = omega arith;
      bounded = omega arith;
      enough = omega arith;
    }

abbrev start : Twinned
start = record { world = world; device = boot; reports = [] }

-- The echo puts the desired state in its place.
opened :
    Returns
      (λ (w, a). a.digital_out_state ≡ set boot.digital_out_state 3 true)
      (set_output (env echo) world (set_config boot true 1) 3 true)
unfolding boot set_output store_state set_config uninit
opened =
    Returns->>= _ _ (write_single_coil (env echo) world 1 19 true (uninit (env echo).stack 4) 500) _
      (write_single_coil-answered (env echo) world 1 19 500 1 echo piece_1 (piece_2 echo ∷ [])
        (uninit (env echo).stack 4) true 19 255 0 [] echoed refl refl (omega arith))
      λ reply s. rw s.returned refl
