-- ===== src/Intercore/Queue.antt =====
-- What the two ends of a ring promise: a bounded queue of messages.
use modbus_sphere_library.Base.{
  ℕ, ◌+◌, ◌*◌, ◌/◌, List, [], ◌∷◌, ◌++◌, Bool, true, false, ltb, leb, length, drop, if◌then◌else◌,
}

-- The room that a message of `n` bytes takes: four bytes for its size, up to a multiple of 16.
unfoldable pub block_size : ℕ → ℕ
block_size n = (n + 19) / 16 * 16

unfoldable pub used : List (List ℕ) → ℕ
used [] = 0
used (m ∷ ms) = block_size (length m) + used ms

-- Accepted while 16 bytes stay free.
unfoldable pub put : ℕ → List (List ℕ) → List ℕ → Bool × List (List ℕ)
put buf_size messages m =
    if leb (used messages + length m + 20) buf_size
    then (true, messages ++ (m ∷ []))
    else (false, messages)

-- What the reader is told: whether it has a message, a size, and its buffer.
pub record Answer : Type 0 where
  pub got : Bool
  pub size : ℕ
  pub buffer : List ℕ

-- The oldest message if the buffer has room for it; its size if not.
unfoldable pub get : List (List ℕ) → List ℕ → ℕ → Answer × List (List ℕ)
get [] dest capacity = (record { got = false; size = capacity; buffer = dest }, [])
get (m ∷ ms) dest capacity =
    if ltb capacity (length m)
    then (record { got = false; size = length m; buffer = dest }, m ∷ ms)
    else (record { got = true; size = length m; buffer = m ++ drop (length m) dest }, ms)

pub data Op : Type 0 where
  send : List ℕ → Op
  receive : List ℕ → ℕ → Op

pub data Seen : Type 0 where
  sent : Bool → Seen
  received : Answer → Seen

unfoldable pub run : ℕ → List (List ℕ) → List Op → List Seen
unfolding put get
run buf_size messages [] = []
run buf_size messages (send m ∷ ops) =
    let (accepted, messages') = put buf_size messages m in
    sent accepted ∷ run buf_size messages' ops
run buf_size messages (receive dest capacity ∷ ops) =
    let (answer, messages') = get messages dest capacity in
    received answer ∷ run buf_size messages' ops
