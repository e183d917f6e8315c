-- ===== src/Tests/Serial.antt =====
-- The rings of the UART driver with counters that pass `2 ^ 16`.
use modbus_sphere_library.Base.{ℕ, ◌≡◌, refl, List, [], ◌∷◌, ◌++◌, true, false, arith, replicate}
use modbus_sphere_library.Outcome.{ok, Returns}
use modbus_sphere_library.Memory.{read_byte}
use modbus_sphere_library.RealTime.Uart.{UartRing, uart_enqueue_data, uart_dequeue_data}
use modbus_sphere_library.RealTime.Irq.{UartInfo, Registers, uart_handle_irq}
use modbus_sphere_library.RealTime.Stream.{Streams}
use modbus_sphere_library.RealTime.Serial.{uart_enqueue_data-Streams}
use modbus_sphere_library.RealTime.Text.{negsuc, abs, uart_enqueue_integer_as_string}
use modbus_sphere_library.RealTime.Text.Digits.{Numeral}
use modbus_sphere_library.RealTime.Text.Printing.{sign, uart_enqueue_integer_as_string-Numeral}
use modbus_sphere_library.RealTime.Interrupt.{IsHandled, uart_handle_irq-IsHandled}
use modbus_sphere_library.RealTime.Drain.{uart_dequeue_data-Streams}

abbrev tx_ring : UartRing
tx_ring = record {
  buffer = (9 ∷ []) ++ (replicate 253 0 ++ (7 ∷ 8 ∷ []));
  enqueued = 1;
  dequeued = 65534;
}

abbrev rx_ring : UartRing
rx_ring = record {
  buffer = (9 ∷ []) ++ (replicate 29 0 ++ (7 ∷ 8 ∷ []));
  enqueued = 1;
  dequeued = 65534;
}

tx_streams : Streams 256 tx_ring (7 ∷ 8 ∷ 9 ∷ [])
unfolding read_byte
tx_streams = record {
  whole = refl;
  dequeued_16 = omega arith;
  count = refl;
  small = omega arith;
  held = (refl, (refl, (refl, tt)));
}

rx_streams : Streams 32 rx_ring (7 ∷ 8 ∷ 9 ∷ [])
unfolding read_byte
rx_streams = record {
  whole = refl;
  dequeued_16 = omega arith;
  count = refl;
  small = omega arith;
  held = (refl, (refl, (refl, tt)));
}

uart_enqueue_data-Streams_example :
    (ring' : UartRing) × (uart_enqueue_data tx_ring (1 ∷ 2 ∷ []) 2 ≡ ok (true, ring'))
    × Streams 256 ring' (7 ∷ 8 ∷ 9 ∷ 1 ∷ 2 ∷ [])
uart_enqueue_data-Streams_example =
    uart_enqueue_data-Streams tx_ring (7 ∷ 8 ∷ 9 ∷ []) (1 ∷ 2 ∷ []) 2 tx_streams (omega arith)

-- The least `int`.
uart_enqueue_integer_as_string-Numeral_example :
    (text : List ℕ) × (ring' : UartRing) × (uart_enqueue_integer_as_string
        (λ k. 0)
        tx_ring
        (negsuc 2147483647)
      ≡ ok (true, ring'))
    × Streams 256 ring' ((7 ∷ 8 ∷ 9 ∷ []) ++ (sign (negsuc 2147483647) ++ text))
    × Numeral 10 text (abs (negsuc 2147483647))
unfolding abs
uart_enqueue_integer_as_string-Numeral_example =
    uart_enqueue_integer_as_string-Numeral (λ k. 0) tx_ring (7 ∷ 8 ∷ 9 ∷ []) tx_streams
      (negsuc 2147483647) (omega arith) (omega arith)

uart_dequeue_data-Streams_example :
    (ring' : UartRing) × (uart_dequeue_data rx_ring (replicate 4 5)
      ≡ ok (3, (7 ∷ 8 ∷ 9 ∷ 5 ∷ [], ring')))
    × Streams 32 ring' []
uart_dequeue_data-Streams_example =
    uart_dequeue_data-Streams rx_ring (7 ∷ 8 ∷ 9 ∷ []) rx_streams (replicate 4 5) (omega arith)

abbrev unit : UartInfo
unit = record {
  tx = tx_ring;
  rx = rx_ring;
  tx_started = true;
  one_byte_left = false;
  tx_interrupt = true;
}

-- Room for two bytes to send, then two bytes received.
abbrev rounds : List Registers
rounds =
    record { iir_id = 2; offset = 14; fifo = [] }
    ∷ record { iir_id = 12; offset = 16; fifo = 3 ∷ 4 ∷ [] }
    ∷ []

abbrev quiet : Registers
quiet = record { iir_id = 1; offset = 16; fifo = [] }

uart_handle_irq-IsHandled_example :
    Returns
      (IsHandled unit (7 ∷ 8 ∷ 9 ∷ []) (7 ∷ 8 ∷ 9 ∷ []))
      (uart_handle_irq unit (rounds ++ (quiet ∷ [])))
uart_handle_irq-IsHandled_example =
    uart_handle_irq-IsHandled rounds quiet unit (7 ∷ 8 ∷ 9 ∷ []) (7 ∷ 8 ∷ 9 ∷ []) refl tx_streams
      rx_streams
