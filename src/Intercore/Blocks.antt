-- ===== src/Intercore/Blocks.antt =====
-- One block in the ring, cut in two parts where it meets the end of the data area.
use modbus_sphere_library.Base.{
  zero, suc, [], ◌∷◌, ap, ℕ, ◌+◌, ◌-◌, ◌%◌, ◌^◌, ◌≤◌, ◌<◌, ◌≡◌, refl, sym, ◌∙◌, List, arith, ltb,
  length, take, drop, length-drop, length-take, if◌then◌else◌,
}
use modbus_sphere_library.Outcome.{Outcome, ok, ◌>>=◌}
use modbus_sphere_library.Memory.{
  read_bytes, write_bytes, read_bytes_ok, write_bytes_ok, written, length-written, read_written,
  read_written_before, read_written_after,
}
use modbus_sphere_library.Intercore.Words.{word_bytes}
use modbus_sphere_library.Intercore.Ring.{round_up, advance}

-- How many bytes of a block of `n` bytes stand before the end of the data area.
abbrev pub first_part : ℕ → ℕ → ℕ → ℕ
first_part buf_size position n =
    if ltb n (buf_size - position - 4) then n else buf_size - position - 4

-- Sizes and positions as the two ends keep them.
pub record IsPlace (buf_size position : ℕ) : Type 0 where
  pub aligned_size : buf_size % 16 ≡ 0
  pub bounded : buf_size < 2 ^ 31
  pub aligned : position % 16 ≡ 0
  pub inside : position < buf_size

-- The parts fit before the end and before the position, if the block fits the ring.
pub record Parts (buf_size position n f : ℕ) : Type 0 where
  pub small : f ≤ n
  pub before_end : position + 4 + f ≤ buf_size
  pub wrapped : n - f ≤ position

pub first_part-Parts :
    (buf_size position n : ℕ)
    → IsPlace buf_size position
    → n + 4 ≤ buf_size
    → Parts buf_size position n (first_part buf_size position n)
first_part-Parts buf_size position n p h = record {
  small = ground arith;
  before_end = ground arith;
  wrapped = ground arith;
}

pub advance-IsPlace :
    (buf_size position n : ℕ)
    → IsPlace buf_size position
    → n + 4 ≤ buf_size
    → IsPlace buf_size (advance position n buf_size)
unfolding advance round_up
advance-IsPlace buf_size position n p h = record {
  aligned_size = p.aligned_size;
  bounded = p.bounded;
  aligned = ground arith;
  inside = ground arith;
}

-- The data area with a block at `position`.
unfoldable pub with_block : List ℕ → ℕ → List ℕ → ℕ → ℕ → List ℕ
with_block area position src n f =
    written (written (written area position (word_bytes n)) (position + 4) (take f src)) 0
      (take (n - f) (drop f src))

module _ (area : List ℕ) (position : ℕ) (src : List ℕ) (n f : ℕ)
    (parts : Parts (length area) position n f) (given : n ≤ length src) where
  front : List ℕ
  front = take f src

  back : List ℕ
  back = take (n - f) (drop f src)

  length-front : length front ≡ f
  unfolding front
  length-front = omega (arith, length-take f src, parts.small)

  length-back : length back ≡ n - f
  unfolding back
  length-back = omega (arith, length-take (n - f) (drop f src), length-drop f src, parts.small)

  word_fits : position + length (word_bytes n) ≤ length area
  unfolding word_bytes
  word_fits = omega (arith, parts.before_end)

  sized : List ℕ
  sized = written area position (word_bytes n)

  length-sized : length sized ≡ length area
  unfolding sized
  length-sized = length-written area position (word_bytes n) word_fits

  front_fits : position + 4 + length front ≤ length sized
  front_fits = omega (arith, length-front, length-sized, parts.before_end)

  filled : List ℕ
  filled = written sized (position + 4) front

  length-filled : length filled ≡ length area
  unfolding filled
  length-filled = length-written sized (position + 4) front front_fits ∙ length-sized

  back_fits : 0 + length back ≤ length filled
  back_fits = omega (arith, length-back, length-filled, parts.wrapped, parts.before_end)

  pub length-with_block : length (with_block area position src n f) ≡ length area
  unfolding with_block sized filled front back
  length-with_block = length-written filled 0 back back_fits ∙ length-filled

  pub read_size : read_bytes (with_block area position src n f) position 4 ≡ ok (word_bytes n)
  unfolding with_block sized filled front back word_bytes
  read_size =
      read_written_after filled 0 back back_fits position 4
        (omega (arith, length-back, parts.wrapped)) (omega (arith, length-filled, parts.before_end))
      ∙ read_written_before sized (position + 4) front front_fits position 4 (omega arith)
      ∙ read_written area position (word_bytes n) word_fits 4 refl

  pub read_front : read_bytes (with_block area position src n f) (position + 4) f ≡ ok (take f src)
  unfolding with_block sized filled front back
  read_front =
      read_written_after filled 0 back back_fits (position + 4) f
        (omega (arith, length-back, parts.wrapped)) (omega (arith, length-filled, parts.before_end))
      ∙ read_written sized (position + 4) front front_fits f (sym length-front)

  pub read_back :
      read_bytes (with_block area position src n f) 0 (n - f) ≡ ok (take (n - f) (drop f src))
  unfolding with_block sized filled front back
  read_back = read_written filled 0 back back_fits (n - f) (sym length-back)

  -- The five accesses of `EnqueueData`.
  pub store_block :
      {B : Type 0} (k : List ℕ → Outcome B)
      → (do
        a ← write_bytes area position (word_bytes n)
        xs ← read_bytes src 0 f
        b ← write_bytes a (position + 4) xs
        ys ← read_bytes src f (n - f)
        c ← write_bytes b 0 ys
        k c)
        ≡ k (with_block area position src n f)
  unfolding with_block sized filled front back
  store_block k = rw (
    write_bytes_ok area position (word_bytes n) word_fits,
    read_bytes_ok src 0 f (omega (arith, parts.small)),
    write_bytes_ok sized (position + 4) front front_fits,
    read_bytes_ok src f (n - f) (omega (arith, parts.small)),
    write_bytes_ok filled 0 back back_fits,
  )

take-take : (f n : ℕ) (xs : List ℕ) → f ≤ n → take f (take n xs) ≡ take f xs
take-take zero n xs h = refl
take-take (suc f) zero xs h = absurd (omega arith)
take-take (suc f) (suc n) [] h = refl
take-take (suc f) (suc n) (x ∷ xs) h = ap (λ l. x ∷ l) (take-take f n xs (omega arith))

take_none : (k : ℕ) → take {A = ℕ} k [] ≡ []
take_none zero = refl
take_none (suc k) = refl

drop-take : (f n : ℕ) (xs : List ℕ) → drop f (take n xs) ≡ take (n - f) (drop f xs)
drop-take zero n xs = ap (λ k. take k xs) (let e : n ≡ n - 0 = omega arith in e)
drop-take (suc f) zero xs =
    ap (λ k. take k (drop (suc f) xs)) (let e : 0 ≡ 0 - suc f = omega arith in e)
drop-take (suc f) (suc n) [] = sym (take_none (suc n - suc f))
drop-take (suc f) (suc n) (x ∷ xs) =
    drop-take f n xs
    ∙ ap (λ k. take k (drop f xs)) (let e : n - f ≡ suc n - suc f = omega arith in e)

-- A block is made of the first `n` bytes of the source alone.
pub with_block-take :
    (area : List ℕ) (position : ℕ) (src : List ℕ) (n f : ℕ)
    → f ≤ n
    → with_block area position (take n src) n f ≡ with_block area position src n f
unfolding with_block
with_block-take area position src n f h =
    rw
      (take-take f n src h, drop-take f n src, take-take (n - f) (n - f) (drop f src) (omega arith))
