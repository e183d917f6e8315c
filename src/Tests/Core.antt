-- ===== src/Tests/Core.antt =====
-- The real-time core on concrete messages.
use modbus_sphere_library.Base.{
  ℕ, ◌≡◌, refl, List, [], ◌∷◌, ◌++◌, some, arith, ◌==◌, replicate, true, false, none, if◌then◌else◌,
  inl, inr, Bool-cases,
}
use modbus_sphere_library.Outcome.{ok, ◌>>=◌, Returns}
use modbus_sphere_library.RealTime.Callbacks.{Callbacks, invoke_callbacks}
use modbus_sphere_library.RealTime.Callbacks.Pending.{mem, IsPending, AllRan}
use modbus_sphere_library.RealTime.Callbacks.Invoke.{invoke_callbacks-AllRan}
use modbus_sphere_library.Crc.Footer.{crc_low, crc_high}
use modbus_sphere_library.RealTime.Handlers.{rt_fcode_length, rx_deferred}
use modbus_sphere_library.RealTime.Response.{response}
use modbus_sphere_library.RealTime.Pieces.{concat, rx_deferred-response}
use modbus_sphere_library.RealTime.Message.{send_a7_message}
use modbus_sphere_library.Intercore.Ring.{BufferHeader}

abbrev message : List ℕ
message = 1 ∷ 3 ∷ 0 ∷ 0 ∷ 0 ∷ 10 ∷ []

-- Node 1 waits; while its callback runs, both nodes are enqueued.
abbrev one_waits : Callbacks
one_waits = record {
  head = some 1;
  node_at = λ k.
      if k == 1
      then record { enqueued = true; next = none }
      else record { enqueued = false; next = none };
}

one_waits-IsPending : IsPending one_waits (1 ∷ [])
unfolding mem
one_waits-IsPending = record {
  chain = (refl, refl, refl);
  marked = λ n. elim (Bool-cases (n == 1)) [ inl e ↦ rw e refl | inr e ↦ rw e refl ];
}

invoke_callbacks-AllRan_example :
    Returns (AllRan (1 ∷ []) ((1 ∷ 0 ∷ []) ∷ [])) (invoke_callbacks 4 one_waits ((1 ∷ 0 ∷ []) ∷ []))
invoke_callbacks-AllRan_example =
    invoke_callbacks-AllRan 4 one_waits (1 ∷ []) ((1 ∷ 0 ∷ []) ∷ []) one_waits-IsPending
      (omega arith)

-- Two registers, of which the slave has sent two bytes before.
abbrev registers_read : List ℕ
registers_read = 1 ∷ 3 ∷ 2 ∷ 0 ∷ 7 ∷ []

-- The slave's bytes come in three pieces; the ring has room for the message.
abbrev ring : BufferHeader
ring = record { write_position = 0; read_position = 0; area = replicate 128 0 }

rx_deferred-response_example :
    (rest : List ℕ) × (rx_deferred
        (λ k. 170)
        (replicate 20 9)
        ring
        ring
        128
        (record { length = 24; data_bytes = replicate 22 0 ++ (4 ∷ 0 ∷ replicate 9 0) })
        ((1 ∷ 3 ∷ [])
          ∷ (2 ∷ [])
          ∷ (0 ∷ 7 ∷ crc_low registers_read ∷ crc_high registers_read ∷ [])
          ∷ [])
      ≡ (send_a7_message ring ring 128 (response (λ k. 170) (replicate 20 9) registers_read)
          >>= λ outbound.
              ok (record { length = 24; data_bytes = replicate 22 0 ++ (4 ∷ 0 ∷ rest) }, outbound)))
unfolding rt_fcode_length concat
rx_deferred-response_example =
    rx_deferred-response (λ k. 170) (replicate 20 9) refl (replicate 22 0) refl 0 1 3 2 (0 ∷ 7 ∷ [])
      refl (omega arith) ring ring 128 ((1 ∷ 3 ∷ []) ∷ (2 ∷ []) ∷ [])
      (0 ∷ 7 ∷ crc_low registers_read ∷ crc_high registers_read ∷ []) (replicate 9 0) (omega arith)
      refl (omega arith)
