-- ===== src/Intercore/Held.antt =====
-- What a block of the ring holds, as `DequeueData` reads it.
use mathlib.Core.Path.{subst}
use modbus_sphere_library.Base.{
  ℕ, ◌+◌, ◌-◌, ◌≤◌, ◌≡◌, ◌⊎◌, sym, ◌∙◌, List, arith, inl, inr, length, take, drop, length-drop,
  length-take,
}
use modbus_sphere_library.Outcome.{ok}
use modbus_sphere_library.Memory.{
  read_bytes, written, read_written_before, read_written_after, length-written,
}
use modbus_sphere_library.Intercore.Words.{word_bytes}
use modbus_sphere_library.Intercore.Blocks.{
  first_part, IsPlace, Parts, first_part-Parts, with_block, read_size, read_front, read_back,
}

-- A message at `position`: its size, its part before the end of the data area, and the rest.
pub record HasBlock (buf_size : ℕ) (area : List ℕ) (position : ℕ) (message : List ℕ) : Type 0 where
  pub size_read : read_bytes area position 4 ≡ ok (word_bytes (length message))
  pub front_read :
      read_bytes area (position + 4) (first_part buf_size position (length message))
      ≡ ok (take (first_part buf_size position (length message)) message)
  pub back_read :
      read_bytes area 0 (length message - first_part buf_size position (length message))
      ≡ ok (
          take
            (length message - first_part buf_size position (length message))
            (drop (first_part buf_size position (length message)) message))

pub with_block-HasBlock :
    (buf_size : ℕ) (area : List ℕ) (position : ℕ) (message : List ℕ)
    → length area ≡ buf_size
    → IsPlace buf_size position
    → length message + 4 ≤ buf_size
    → HasBlock buf_size
        (with_block area position message
          (length message)
          (first_part buf_size position (length message)))
        position
        message
with_block-HasBlock buf_size area position message size place fits =
    let n = length message in
    let f = first_part buf_size position n in
    let parts : Parts (length area) position n f =
      subst (λ b. Parts b position n f) (sym size)
        (first_part-Parts buf_size position n place fits) in
    record {
      size_read = read_size area position message n f parts (omega arith);
      front_read = read_front area position message n f parts (omega arith);
      back_read = read_back area position message n f parts (omega arith);
    }

-- A write leaves the bytes before it and behind it.
read_apart :
    (xs : List ℕ) (off : ℕ) (ys : List ℕ) (k n : ℕ)
    → off + length ys ≤ length xs
    → k + n ≤ length xs
    → (k + n ≤ off) ⊎ (off + length ys ≤ k)
    → read_bytes (written xs off ys) k n ≡ read_bytes xs k n
read_apart xs off ys k n inside here (inl before) = read_written_before xs off ys inside k n before
read_apart xs off ys k n inside here (inr after) =
    read_written_after xs off ys inside k n after here

-- The three writes of a block leave what is apart from each of them.
read_beside :
    (area : List ℕ) (position : ℕ) (src : List ℕ) (n f k c : ℕ)
    → Parts (length area) position n f
    → n ≤ length src
    → k + c ≤ length area
    → (k + c ≤ position) ⊎ (position + 4 ≤ k)
    → (k + c ≤ position + 4) ⊎ (position + 4 + f ≤ k)
    → (k + c ≤ 0) ⊎ (n - f ≤ k)
    → read_bytes (with_block area position src n f) k c ≡ read_bytes area k c
unfolding with_block word_bytes
read_beside area position src n f k c parts given here apart_word apart_front apart_back =
    let lf : length (take f src) ≡ f = omega (arith, length-take f src, parts.small) in
    let lb : length (take (n - f) (drop f src)) ≡ n - f =
      omega (arith, length-take (n - f) (drop f src), length-drop f src, parts.small) in
    let l1 = length-written area position (word_bytes n) (omega (arith, parts.before_end)) in
    let l2 =
      length-written (written area position (word_bytes n)) (position + 4) (take f src)
        (omega (arith, parts.before_end)) in
    read_apart (written (written area position (word_bytes n)) (position + 4) (take f src)) 0
      (take (n - f) (drop f src)) k c (omega (arith, parts.wrapped, parts.before_end)) (omega arith)
      (ground arith)
    ∙ read_apart (written area position (word_bytes n)) (position + 4) (take f src) k c
        (omega (arith, parts.before_end)) (omega arith) (ground arith)
    ∙ read_apart area position (word_bytes n) k c (omega (arith, parts.before_end)) here apart_word

-- Two blocks that do not meet on the circle.
abbrev pub AreApart : ℕ → ℕ → ℕ → ℕ → ℕ → Type 0
AreApart buf_size p m w n =
    ((p + 4 + m ≤ w) × (w + 4 + n ≤ p + buf_size)) ⊎ ((w + 4 + n ≤ p) × (p + 4 + m ≤ w + buf_size))

-- A new block leaves the messages apart from it.
pub HasBlock-with_block :
    (buf_size : ℕ) (area : List ℕ) (position : ℕ) (src : List ℕ) (n p : ℕ) (message : List ℕ)
    → length area ≡ buf_size
    → IsPlace buf_size position
    → IsPlace buf_size p
    → n + 4 ≤ buf_size
    → n ≤ length src
    → length message + 4 ≤ buf_size
    → AreApart buf_size p (length message) position n
    → HasBlock buf_size area p message
    → HasBlock buf_size (with_block area position src n (first_part buf_size position n)) p message
HasBlock-with_block buf_size area position src n p message size place place' fits given fits' apart
      b =
    let m = length message in
    let f = first_part buf_size position n in
    let g = first_part buf_size p m in
    let parts : Parts (length area) position n f =
      subst (λ b. Parts b position n f) (sym size)
        (first_part-Parts buf_size position n place fits) in
    let mine = first_part-Parts buf_size p m place' fits' in
    record {
      size_read =
          read_beside area position src n f p 4 parts given (ground arith) (ground arith)
            (ground arith) (ground arith)
          ∙ b.size_read;
      front_read =
          read_beside area position src n f (p + 4) g parts given (ground arith) (ground arith)
            (ground arith) (ground arith)
          ∙ b.front_read;
      back_read =
          read_beside area position src n f 0 (m - g) parts given (ground arith) (ground arith)
            (ground arith) (ground arith)
          ∙ b.back_read;
    }
