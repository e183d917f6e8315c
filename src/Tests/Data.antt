-- ===== src/Tests/Data.antt =====
-- A connected Modbus TCP handle, a device that answers `ReadCoils`, and what the environment does.
use modbus_sphere_library.Base.{
  ℕ, ◌+◌, ◌≤◌, ◌≡◌, refl, ap, List, [], ◌∷◌, ◌++◌, false, some, append-nil, arith, length, map,
  replicate, ◌==◌, if◌then◌else◌,
}
use modbus_sphere_library.Modbus.Types.{tcp, idle, waiting_for_response, unset, Modbus, Env, World}
use modbus_sphere_library.Modbus.Fcode.{get_fcode_length}
use modbus_sphere_library.Modbus.Receive.Buffer.{IsValid}
use modbus_sphere_library.Modbus.Receive.Tcp.{Buffered, Awaits, Answers, Response, response_pdu}
use modbus_sphere_library.Modbus.Wait.Reassembly.{piece_event}
use modbus_sphere_library.Modbus.Wait.Timing.{Quiet}
use modbus_sphere_library.Modbus.Request.Exchange.{requested}
use modbus_sphere_library.Modbus.Request.Success.{Exchanged}

abbrev pub handle : Modbus
handle = record {
  type = tcp;
  connect_data = unset;
  fd = 7;
  transaction_id = 0;
  last_transaction_id = 0;
  state = idle;
  buffered_message_length = 0;
  pdu_length = 0;
  is_cfg = false;
  buffered_message = replicate 254 0;
  pdu = replicate 254 0;
}

abbrev pub world : World
world = record { hndl = handle; transaction_identifier = 5; wire = []; tick = 0 }

-- A response of the slave 1 to the request 5.
abbrev pub response : ℕ → ℕ → List ℕ → Response
response f_code third rest = record {
  id_high = 0;
  id_low = 5;
  protocol_high = 0;
  protocol_low = 0;
  length_high = 0;
  length_low = 3 + length rest;
  slave = 1;
  f_code = f_code;
  third = third;
  rest = rest;
}

-- The first five bytes come with the second sleep, and the others right behind them.
abbrev pub piece_1 : List ℕ
piece_1 = 0 ∷ 5 ∷ 0 ∷ 0 ∷ 0 ∷ []

abbrev pub piece_2 : Response → List ℕ
piece_2 r = r.length_low ∷ response_pdu r

-- The connection takes every message, and the response comes with the second sleep.
abbrev pub env : Response → Env
env r = record {
  send = λ fd message. some (length message);
  polls = λ k. if k == 1 then map piece_event (piece_1 ∷ piece_2 r ∷ []) else [];
  stack = λ k. 170;
  fuel = 600;
}

-- The same connection to a device that never answers.
abbrev pub silent_env : Env
silent_env = record {
  send = λ fd message. some (length message);
  polls = λ k. [];
  stack = λ k. 170;
  fuel = 50;
}

pub handle-IsValid : IsValid handle
handle-IsValid = record {
  buffer_size = refl;
  buffered = omega arith;
  pdu_size = refl;
  pdu_fits = omega arith;
}

pub empty_buffer : Buffered handle []
empty_buffer = record { junk = replicate 254 0; contents = refl; counted = refl }

-- The handle that waits for the response 5.
abbrev pub waiting_world : World
waiting_world = record world {
  hndl = record handle { state = waiting_for_response; transaction_id = 5 };
}

pub waiting-IsValid : IsValid waiting_world.hndl
waiting-IsValid = record {
  buffer_size = refl;
  buffered = omega arith;
  pdu_size = refl;
  pdu_fits = omega arith;
}

pub waiting-empty : Buffered waiting_world.hndl []
waiting-empty = record { junk = replicate 254 0; contents = refl; counted = refl }

pub waiting-Awaits : Awaits waiting_world.hndl
waiting-Awaits = record { on_tcp = refl; is_awaiting = refl; no_cfg = refl }

pub arrival-silent : (r : Response) → Quiet (env r) waiting_world 1
arrival-silent r k lt = let e : k ≡ 0 = omega arith in ap (λ i. (env r).polls (0 + i)) e

module _ (message : List ℕ) (f_code third : ℕ) (rest : List ℕ)
    (sized : length (response_pdu (response f_code third rest)) ≡ get_fcode_length f_code third)
    (small : length rest ≤ 200) (short : length message ≤ 252) where
  r : Response
  r = response f_code third rest

  pub response-Answers : Answers 5 (response f_code third rest)
  response-Answers = record { sized = sized; short = omega (arith, small); same_id = refl }

  pub exchanged :
      Exchanged
        (env (response f_code third rest))
        world
        message
        (response f_code third rest)
        10
        1
        piece_1
        (piece_2 (response f_code third rest) ∷ [])
  unfolding requested
  exchanged = record {
    free = refl;
    ready = record {
      on_tcp = refl;
      is_valid = handle-IsValid;
      empty = empty_buffer;
      takes = refl;
      short = short;
    };
    answers = response-Answers;
    arrives = record {
      silent = λ k lt. arrival-silent (response f_code third rest) k lt;
      arrive = refl;
      not_empty = (omega arith, tt);
      whole = ap (λ l. piece_1 ++ ((3 + length rest) ∷ 1 ∷ f_code ∷ third ∷ l)) (append-nil rest);
    };
    in_time = omega arith;
    bounded = omega arith;
    enough = omega arith;
  }
