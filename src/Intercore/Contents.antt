-- ===== src/Intercore/Contents.antt =====
-- The messages that lie in a ring from its read position to its write position.
use modbus_sphere_library.Base.{
  ℕ, ◌+◌, ◌-◌, ◌%◌, ◌≤◌, ◌<◌, ◌≡◌, refl, sym, ◌∙◌, List, [], ◌∷◌, ◌++◌, arith, leb, length,
  if◌then◌else◌,
}
use mathlib.Core.Path.{subst}
use modbus_sphere_library.Intercore.Ring.{BufferHeader, round_up, advance, avail_space, avail_data}
use modbus_sphere_library.Intercore.Blocks.{IsPlace, first_part, with_block}
use modbus_sphere_library.Intercore.Held.{HasBlock, HasBlock-with_block, AreApart}
use modbus_sphere_library.Intercore.Queue.{block_size, used}

-- `u` bytes further round the ring.
abbrev pub place_after : ℕ → ℕ → ℕ → ℕ
place_after buf_size p u = if leb buf_size (p + u) then p + u - buf_size else p + u

abbrev pub Blocks : ℕ → List ℕ → ℕ → List (List ℕ) → Type 0
Blocks buf_size area p [] = Unit {0}
Blocks buf_size area p (m ∷ ms) =
    HasBlock buf_size area p m
    × Blocks buf_size area (place_after buf_size p (block_size (length m))) ms

-- A ring that holds exactly `messages`: `reader` is the header with the read position, `writer`
-- that with the write position and the data.
pub record Holds (buf_size : ℕ) (reader writer : BufferHeader) (messages : List (List ℕ))
    : Type 0 where
  pub read_place : IsPlace buf_size reader.read_position
  pub write_place : IsPlace buf_size writer.write_position
  pub whole_area : length writer.area ≡ buf_size
  pub room : used messages + 16 ≤ buf_size
  pub meets : writer.write_position ≡ place_after buf_size reader.read_position (used messages)
  pub blocks : Blocks buf_size writer.area reader.read_position messages

pub block_size-aligned : (n : ℕ) → block_size n % 16 ≡ 0
unfolding block_size
block_size-aligned n = omega arith

pub block_size-bounds : (n : ℕ) → (n + 4 ≤ block_size n) × (block_size n ≤ n + 19)
unfolding block_size
block_size-bounds n = (omega arith, omega arith)

pub used-aligned : (messages : List (List ℕ)) → used messages % 16 ≡ 0
unfolding used
used-aligned [] = refl
used-aligned (m ∷ ms) = omega (arith, block_size-aligned (length m), used-aligned ms)

pub used-append : (ms ns : List (List ℕ)) → used (ms ++ ns) ≡ used ms + used ns
unfolding used
used-append [] ns = omega arith
used-append (m ∷ ms) ns = omega (arith, used-append ms ns)

pub place_after-IsPlace :
    (buf_size p u : ℕ)
    → IsPlace buf_size p
    → u % 16 ≡ 0
    → u ≤ buf_size
    → IsPlace buf_size (place_after buf_size p u)
place_after-IsPlace buf_size p u place h k = record {
  aligned_size = place.aligned_size;
  bounded = place.bounded;
  aligned = ground (arith, place.aligned, place.aligned_size);
  inside = ground (arith, place.inside);
}

-- `advance` goes round the ring by the room of the block.
pub advance_lem :
    (buf_size p n : ℕ)
    → IsPlace buf_size p
    → n + 4 ≤ buf_size
    → advance p n buf_size ≡ place_after buf_size p (block_size n)
unfolding advance round_up block_size
advance_lem buf_size p n place h =
    ground (arith, place.aligned, place.bounded, place.inside, place.aligned_size)

pub place_after-sum :
    (buf_size p u v : ℕ)
    → p < buf_size
    → u + v ≤ buf_size
    → place_after buf_size (place_after buf_size p u) v ≡ place_after buf_size p (u + v)
place_after-sum buf_size p u v h k = ground arith

module _ (buf_size p w u : ℕ) (place : IsPlace buf_size p) (meets : w ≡ place_after buf_size p u)
    (room : u + 16 ≤ buf_size) where
  pub avail_space_lem : avail_space p w buf_size ≡ buf_size - u
  unfolding avail_space
  avail_space_lem = ground (arith, place.inside, place.bounded)

  pub avail_data_lem : avail_data w p buf_size ≡ u
  unfolding avail_data
  avail_data_lem = ground (arith, place.inside, place.bounded)

-- A block behind all messages is apart from each of them.
pub Blocks-kept :
    (buf_size : ℕ) (area : List ℕ) (messages : List (List ℕ)) (p w : ℕ) (src : List ℕ) (n : ℕ)
    → length area ≡ buf_size
    → IsPlace buf_size p
    → IsPlace buf_size w
    → w ≡ place_after buf_size p (used messages)
    → used messages + n + 4 ≤ buf_size
    → n ≤ length src
    → Blocks buf_size area p messages
    → Blocks buf_size (with_block area w src n (first_part buf_size w n)) p messages
unfolding used
Blocks-kept buf_size area [] p w src n size place place' meets room given b = tt
Blocks-kept buf_size area (m ∷ ms) p w src n size place place' meets room given b =
    let (lower, upper) = block_size-bounds (length m) in
    let apart : AreApart buf_size p (length m) w n = ground (arith, place.inside, place'.inside) in
    (
      HasBlock-with_block buf_size area w src n p m size place' place (omega arith) given
          (omega arith) apart b.0,
      Blocks-kept buf_size area ms (place_after buf_size p (block_size (length m))) w src n size
          (place_after-IsPlace buf_size p (block_size (length m)) place
            (block_size-aligned (length m)) (omega arith))
          place'
          (meets
            ∙ sym (
                place_after-sum buf_size p (block_size (length m)) (used ms) place.inside
                  (omega arith)))
          (omega arith) given b.1,
    )

pub Blocks-append :
    (buf_size : ℕ) (area : List ℕ) (messages : List (List ℕ)) (p : ℕ) (m : List ℕ)
    → p < buf_size
    → used messages ≤ buf_size
    → Blocks buf_size area p messages
    → HasBlock buf_size area (place_after buf_size p (used messages)) m
    → Blocks buf_size area p (messages ++ (m ∷ []))
unfolding used
Blocks-append buf_size area [] p m h r b last = (
  subst (λ q. HasBlock buf_size area q m) (let e : place_after buf_size p 0 ≡ p = ground arith in e)
      last,
  tt,
)
Blocks-append buf_size area (x ∷ ms) p m h r b last = (
  b.0,
  Blocks-append buf_size area ms (place_after buf_size p (block_size (length x))) m (ground arith)
      (omega arith) b.1
      (subst (λ q. HasBlock buf_size area q m)
        (sym (place_after-sum buf_size p (block_size (length x)) (used ms) h (omega arith))) last),
)
