-- ===== src/Memory/Defs.antt =====
-- Byte arrays of a fixed size, with the reads and writes of C.
use modbus_sphere_library.Base.{
  ℕ, zero, suc, ◌+◌, ◌<◌, List, [], ◌∷◌, ◌++◌, none, some, length, get_elem?, take, drop, leb,
  if◌then◌else◌,
}
use modbus_sphere_library.Outcome.{Outcome, ok, fault}

abbrev pub IsBytes : List ℕ → Type 0
IsBytes [] = Unit {0}
IsBytes (x ∷ xs) = (x < 256) × IsBytes xs

-- A local array of `n` bytes that nothing has been stored in: `stack` says what it holds.
unfoldable pub uninit : (ℕ → ℕ) → ℕ → List ℕ
uninit stack zero = []
uninit stack (suc n) = stack n ∷ uninit stack n

unfoldable pub read_byte : List ℕ → ℕ → Outcome ℕ
read_byte xs i = elim (get_elem? xs i) [ none ↦ fault | some x ↦ ok x ]

-- The `n` bytes from offset `off` on.
unfoldable pub read_bytes : List ℕ → ℕ → ℕ → Outcome (List ℕ)
read_bytes xs off n = if leb (off + n) (length xs) then ok (take n (drop off xs)) else fault

-- `ys` stored from offset `off` on.
unfoldable pub write_bytes : List ℕ → ℕ → List ℕ → Outcome (List ℕ)
write_bytes xs off ys =
    if leb (off + length ys) (length xs)
    then ok (take off xs ++ (ys ++ drop (off + length ys) xs))
    else fault

unfoldable pub write_byte : List ℕ → ℕ → ℕ → Outcome (List ℕ)
unfolding write_bytes
write_byte xs i v = write_bytes xs i (v ∷ [])
