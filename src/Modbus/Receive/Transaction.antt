-- ===== src/Modbus/Receive/Transaction.antt =====
-- The tests on transaction identifiers, as a statement about their order round the 16-bit circle.
use modbus_sphere_library.Base.{ℕ, ◌+◌, ◌-◌, ◌%◌, ◌^◌, ◌<◌, ◌≡◌, ◌↔◌, arith}
use modbus_sphere_library.Modbus.Receive.{current, past, check_transaction_id}

-- How far `b` lies behind `a` on the circle of 16-bit identifiers.
pub distance : ℕ → ℕ → ℕ
distance a b = (b + 2 ^ 16 - a) % 2 ^ 16

-- A message answers the current request exactly when it has its identifier.
pub check_transaction_id-current :
    (id last rx : ℕ) → (check_transaction_id id last rx ≡ current) ↔ (id ≡ rx)
unfolding check_transaction_id
check_transaction_id-current id last rx = ground arith

-- For 16-bit identifiers, while the current one is above the last answered one, a message is taken
-- for a late one exactly when its identifier lies strictly between these two on the circle.
pub check_transaction_id-past :
    (id last rx : ℕ)
    → id < 2 ^ 16
    → rx < 2 ^ 16
    → last < id
    → (check_transaction_id id last rx ≡ past)
      ↔ ((0 < distance last rx) × (distance last rx < distance last id))
unfolding check_transaction_id distance
check_transaction_id-past id last rx hi hr hl = ground arith

-- For 16-bit identifiers, when the current one is below the last answered one, a message is taken
-- for a late one exactly when its identifier lies between these two on the circle, the last
-- answered one included and the current one not.
pub check_transaction_id-past_wrapped :
    (id last rx : ℕ)
    → last < 2 ^ 16
    → rx < 2 ^ 16
    → id < last
    → (check_transaction_id id last rx ≡ past) ↔ (distance last rx < distance last id)
unfolding check_transaction_id distance
check_transaction_id-past_wrapped id last rx hl hr h = ground arith
