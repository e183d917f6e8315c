-- ===== src/Tests/Command.antt =====
-- A request that waits in the ring of the real-time core.
use modbus_sphere_library.Base.{
  ℕ, ◌≡◌, refl, List, [], ◌∷◌, ◌++◌, arith, none, some, false, true, length, replicate,
}
use modbus_sphere_library.Outcome.{ok, Returns}
use modbus_sphere_library.Memory.{read_bytes}
use modbus_sphere_library.Crc.Footer.{crc_low, crc_high}
use modbus_sphere_library.Modbus.Types.{World, SerialSetup, rtu}
use modbus_sphere_library.Modbus.Connect.Serial.{config_frame}
use modbus_sphere_library.Modbus.Transport.{modbus_write, after_send, intercore_header}
use modbus_sphere_library.Modbus.Transport.Frames.{frame, sending}
use modbus_sphere_library.Intercore.Ring.{BufferHeader}
use modbus_sphere_library.Intercore.Words.{word_bytes}
use modbus_sphere_library.Intercore.Queue.{used, block_size}
use modbus_sphere_library.Intercore.Contents.{Holds}
use modbus_sphere_library.RealTime.Config.{serial_config_message}
use modbus_sphere_library.RealTime.Settings.{IsConfigured, receive_command_from_a7-config_frame}
use modbus_sphere_library.RealTime.HalfDuplex.{HalfDuplex}
use modbus_sphere_library.RealTime.Dispatch.{receive_command_from_a7}
use modbus_sphere_library.RealTime.Command.{receive_command_from_a7-modbus_write}
use modbus_sphere_library.Tests.Data.{handle, world, silent_env}

-- Half duplex after start-up.
abbrev before : HalfDuplex
before = record { uart = none; enabled = false; first_time = true; pins = replicate 76 none }

abbrev request : List ℕ
request = 1 ∷ 3 ∷ 0 ∷ 0 ∷ 0 ∷ 10 ∷ []

abbrev serial_world : World
serial_world = record world { hndl = record handle { type = rtu } }

-- 30 bytes: the prefix, the header and the request.
abbrev inbound : BufferHeader
inbound = record {
  write_position = 48;
  read_position = 0;
  area = 30 ∷ 0 ∷ 0 ∷ 0 ∷ (replicate 20 9 ++ (2 ∷ 1 ∷ 4 ∷ 170 ∷ (request ++ replicate 30 0)));
}

abbrev outbound : BufferHeader
outbound = record { write_position = 0; read_position = 0; area = replicate 64 0 }

waits :
    Holds 64 outbound inbound ((replicate 20 9 ++ frame silent_env serial_world rtu request) ∷ [])
unfolding frame intercore_header used block_size read_bytes word_bytes
waits = record {
  read_place = record {
    aligned_size = refl;
    bounded = omega arith;
    aligned = refl;
    inside = omega arith;
  };
  write_place = record {
    aligned_size = refl;
    bounded = omega arith;
    aligned = refl;
    inside = omega arith;
  };
  whole_area = refl;
  room = omega arith;
  meets = refl;
  blocks = (record { size_read = refl; front_read = refl; back_read = refl }, tt);
}

receive_command_from_a7-modbus_write_example :
    (modbus_write silent_env serial_world (request ++ []) 6
      ≡ ok (
          after_send silent_env
            (sending serial_world)
            (frame silent_env serial_world rtu request)
            (length (frame silent_env serial_world rtu request))))
    × Returns
        (λ r.
          (r.msg_prefix ≡ replicate 20 9)
          × (r.to_uart ≡ some (request ++ (crc_low request ∷ crc_high request ∷ [])))
          × Holds 64 r.outbound inbound [])
        (receive_command_from_a7 (λ k. 1044) before [] inbound outbound 64)
receive_command_from_a7-modbus_write_example =
    receive_command_from_a7-modbus_write (λ k. 1044) before silent_env serial_world request []
      (replicate 20 9) [] 64 inbound outbound [] refl refl (omega arith) refl waits (omega arith)
      (omega arith)

abbrev settings : SerialSetup
settings = record {
  baud_rate = 9600;
  duplex_mode = 1;
  parity_state = 1;
  parity_mode = 0;
  stop_bits = 2;
  word_length = 8;
}

-- 31 bytes: the prefix, the header and the settings.
abbrev configuring : BufferHeader
configuring = record {
  write_position = 48;
  read_position = 0;
  area =
      31
      ∷ 0
      ∷ 0
      ∷ 0
      ∷ (replicate 20 9 ++ (1 ∷ 1 ∷ 4 ∷ 170 ∷ 37 ∷ 128 ∷ 1 ∷ 1 ∷ 0 ∷ 2 ∷ 8 ∷ replicate 29 0));
}

settings_wait :
    Holds 64 outbound configuring ((replicate 20 9 ++ config_frame silent_env settings) ∷ [])
unfolding serial_config_message used block_size read_bytes word_bytes
settings_wait = record {
  read_place = waits.read_place;
  write_place = waits.write_place;
  whole_area = refl;
  room = omega arith;
  meets = refl;
  blocks = (record { size_read = refl; front_read = refl; back_read = refl }, tt);
}

no_replies : Holds 64 configuring outbound []
unfolding used
no_replies = record {
  read_place = waits.read_place;
  write_place = waits.read_place;
  whole_area = refl;
  room = omega arith;
  meets = refl;
  blocks = tt;
}

receive_command_from_a7-config_frame_example :
    Returns
      (IsConfigured (λ k. 1044) before (replicate 20 9) settings 64 configuring [] [])
      (receive_command_from_a7 (λ k. 1044) before [] configuring outbound 64)
unfolding used
receive_command_from_a7-config_frame_example =
    receive_command_from_a7-config_frame (λ k. 1044) before silent_env (replicate 20 9) [] settings
      64 configuring outbound [] [] refl (omega arith) (omega arith) (omega arith) settings_wait
      no_replies (omega arith) (omega arith) (omega arith)
