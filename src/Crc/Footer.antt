-- ===== src/Crc/Footer.antt =====
-- `AddCRC` against `ValidateCRC`.
use modbus_sphere_library.Base.{
  ℕ, ◌+◌, ◌-◌, ◌*◌, ◌/◌, ◌%◌, ◌^◌, ◌≤◌, ◌<◌, bit_xor, ◌≡◌, refl, sym, ap, ◌∙◌, List, [], ◌∷◌, ◌++◌,
  true, arith, ltb, all_below, all_below_sound, lt→ltb, leb-of_le, ◌==◌, ==_iff, length, get_or,
}
use modbus_sphere_library.Outcome.{ok}
use modbus_sphere_library.Memory.{
  read_bytes_split, read_byte_split, write_byte_split, write_byte_second, read_byte_second,
}
use modbus_sphere_library.Crc.Defs.{
  crc_table, crc_update, crc_rounds, get_crc, validate_crc, add_crc,
}
use modbus_sphere_library.Crc.Xor.{bit_xor-lt}

entries_fit : all_below 256 (λ i. ltb (get_or crc_table i 0) (2 ^ 16)) ≡ true
unfolding all_below crc_table
entries_fit = refl

crc_update-lt : (crc byte : ℕ) → crc < 2 ^ 16 → crc_update crc byte < 2 ^ 16
unfolding crc_update
crc_update-lt crc byte h =
    let index : bit_xor byte crc % 2 ^ 8 < 256 = omega arith in
    bit_xor-lt 16 (crc / 2 ^ 8) (get_or crc_table (bit_xor byte crc % 2 ^ 8) 0) (omega arith)
      (fits (bit_xor byte crc % 2 ^ 8) index)
  where
    fits : (i : ℕ) → i < 256 → get_or crc_table i 0 < 2 ^ 16
    fits i q =
        ground
          (arith, all_below_sound 256 (λ i. ltb (get_or crc_table i 0) (2 ^ 16)) i entries_fit q)

-- The checksum is a 16-bit number.
pub crc_rounds-lt : (crc : ℕ) (bytes : List ℕ) → crc < 2 ^ 16 → crc_rounds crc bytes < 2 ^ 16
unfolding crc_rounds
crc_rounds-lt crc [] h = h
crc_rounds-lt crc (byte ∷ bytes) h =
    crc_rounds-lt (crc_update crc byte) bytes (crc_update-lt crc byte h)

pub crc_low : List ℕ → ℕ
crc_low payload = crc_rounds 0xffff payload % 2 ^ 8

pub crc_high : List ℕ → ℕ
crc_high payload = crc_rounds 0xffff payload / 2 ^ 8 % 2 ^ 8

crc_parts :
    (payload : List ℕ) → crc_high payload * 2 ^ 8 + crc_low payload ≡ crc_rounds 0xffff payload
unfolding crc_low crc_high
crc_parts payload = omega (arith, crc_rounds-lt 0xffff payload (omega arith))

get_crc_split :
    (payload post : List ℕ) (n : ℕ)
    → n ≡ length payload
    → get_crc (payload ++ post) n ≡ ok (crc_rounds 0xffff payload)
unfolding get_crc
get_crc_split payload post n h = rw (read_bytes_split [] payload post 0 n refl h)

-- `AddCRC` stores the checksum of the payload behind it, low byte first, and changes no other byte.
pub add_crc_split :
    (payload rest : List ℕ) (a b n max : ℕ)
    → n ≡ length payload
    → n + 2 ≤ max
    → add_crc (payload ++ (a ∷ b ∷ rest)) n max
      ≡ ok (true, payload ++ (crc_low payload ∷ crc_high payload ∷ rest))
unfolding add_crc crc_low crc_high
add_crc_split payload rest a b n max hn fits = rw (
  leb-of_le (n + 2) max fits,
  get_crc_split payload (a ∷ b ∷ rest) n hn,
  write_byte_split payload (b ∷ rest) a n (crc_rounds 0xffff payload % 2 ^ 8) hn,
  write_byte_second payload rest (crc_rounds 0xffff payload % 2 ^ 8) b (n + 1)
      (crc_rounds 0xffff payload / 2 ^ 8 % 2 ^ 8) (omega arith),
)

-- `ValidateCRC` compares the two bytes behind the payload with its checksum.
pub validate_crc_split :
    (payload rest : List ℕ) (low high n : ℕ)
    → n ≡ length payload + 2
    → 0 < length payload
    → validate_crc (payload ++ (low ∷ high ∷ rest)) n
      ≡ ok (crc_rounds 0xffff payload == high * 2 ^ 8 + low)
unfolding validate_crc
validate_crc_split payload rest low high n hn pos = rw (
  lt→ltb 2 n (omega arith),
  get_crc_split payload (low ∷ high ∷ rest) (n - 2) (omega arith),
  read_byte_second payload rest low high (n - 1) (omega arith),
  read_byte_split payload (high ∷ rest) low (n - 2) (omega arith),
)

-- A message of at least one byte that has room for the footer, in its array and by the given
-- maximum, passes `ValidateCRC` once `AddCRC` has completed it.
pub validate_crc-add_crc :
    (payload rest : List ℕ) (a b max : ℕ)
    → 0 < length payload
    → length payload + 2 ≤ max
    → (message : List ℕ) × (add_crc (payload ++ (a ∷ b ∷ rest)) (length payload) max
        ≡ ok (true, message))
      × (validate_crc message (length payload + 2) ≡ ok true)
validate_crc-add_crc payload rest a b max pos fits = (
  payload ++ (crc_low payload ∷ crc_high payload ∷ rest),
  add_crc_split payload rest a b (length payload) max refl fits,
  validate_crc_split payload rest (crc_low payload) (crc_high payload) (length payload + 2) refl pos
      ∙ ap (λ t. ok t) ((==_iff _ _).1 (sym (crc_parts payload))),
)

-- The same without `AddCRC`.
pub validate_crc_footed :
    (payload rest : List ℕ)
    → 0 < length payload
    → validate_crc (payload ++ (crc_low payload ∷ crc_high payload ∷ rest)) (length payload + 2)
      ≡ ok true
validate_crc_footed payload rest pos =
    validate_crc_split payload rest (crc_low payload) (crc_high payload) (length payload + 2) refl
      pos
    ∙ ap (λ t. ok t) ((==_iff _ _).1 (sym (crc_parts payload)))
