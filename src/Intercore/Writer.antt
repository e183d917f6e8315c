-- ===== src/Intercore/Writer.antt =====
-- `EnqueueData` on a ring that holds messages.
use modbus_sphere_library.Base.{
  ℕ, ◌+◌, ◌-◌, ◌%◌, ◌^◌, ◌≤◌, ◌<◌, ◌≡◌, sym, ap, ◌∙◌, List, [], ◌∷◌, ◌++◌, true, false, arith, ltb,
  leb, inl, inr, Bool-cases, length, length-append, take-append, refl,
}
use mathlib.Core.Path.{subst}
use modbus_sphere_library.Outcome.{ok}
use modbus_sphere_library.Intercore.Ring.{BufferHeader, advance, avail_space, enqueue_data}
use modbus_sphere_library.Intercore.Blocks.{
  Parts, first_part, first_part-Parts, advance-IsPlace, with_block, length-with_block,
  with_block-take,
}
use modbus_sphere_library.Intercore.Enqueue.{enqueued, data_enqueued}
use modbus_sphere_library.Intercore.Held.{HasBlock, with_block-HasBlock}
use modbus_sphere_library.Intercore.Queue.{block_size, used, put}
use modbus_sphere_library.Intercore.Contents.{
  place_after, Holds, block_size-bounds, block_size-aligned, place_after-sum, used-append,
  used-aligned, advance_lem, avail_space_lem, Blocks-kept, Blocks-append,
}

used_one : (m : List ℕ) → used (m ∷ []) ≡ block_size (length m)
unfolding used
used_one m = omega arith

module _ (buf_size : ℕ) (reader writer : BufferHeader) (messages : List (List ℕ))
    (holds : Holds buf_size reader writer messages) where
  space : avail_space reader.read_position writer.write_position buf_size ≡ buf_size - used messages
  space =
      avail_space_lem buf_size reader.read_position writer.write_position (used messages)
        holds.read_place holds.meets holds.room

  full :
      (m : List ℕ)
      → length m < 2 ^ 31
      → buf_size < used messages + length m + 20
      → enqueue_data reader writer buf_size m (length m) ≡ ok (false, writer)
  unfolding enqueue_data
  full m short tight =
      let valid : leb buf_size reader.read_position ≡ false =
        ground (arith, holds.read_place.inside) in
      let little : ltb (avail_space reader.read_position writer.write_position buf_size)
            ((4 + length m + 16) % 2 ^ 32)
          ≡ true =
        ground (arith, space, holds.room) in
      rw (valid, little)

  appended :
      (m : List ℕ)
      → used messages + length m + 20 ≤ buf_size
      → Holds buf_size reader (enqueued writer buf_size m (length m)) (messages ++ (m ∷ []))
  appended m fits =
      let n = length m in
      let w = writer.write_position in
      let f = first_part buf_size w n in
      let (lower, upper) = block_size-bounds n in
      let sum : used (messages ++ (m ∷ [])) ≡ used messages + block_size n =
        omega (arith, used-append messages (m ∷ []), used_one m) in
      let here : w ≡ place_after buf_size reader.read_position (used messages) = holds.meets in
      record {
        read_place = holds.read_place;
        write_place = advance-IsPlace buf_size w n holds.write_place (omega arith);
        whole_area =
            length-with_block writer.area w m n f
              (subst (λ b. Parts b w n f) (sym holds.whole_area)
                (first_part-Parts buf_size w n holds.write_place (omega arith)))
              (omega arith)
            ∙ holds.whole_area;
        room = omega (
          arith,
          sum,
          used-aligned messages,
          block_size-aligned n,
          holds.write_place.aligned_size,
        );
        meets =
            advance_lem buf_size w n holds.write_place (omega arith)
            ∙ ap (λ p. place_after buf_size p (block_size n)) here
            ∙ place_after-sum buf_size reader.read_position (used messages) (block_size n)
                holds.read_place.inside
                (omega (
                  arith,
                  used-aligned messages,
                  block_size-aligned n,
                  holds.write_place.aligned_size,
                ))
            ∙ ap (place_after buf_size reader.read_position) (sym sum);
        blocks =
            Blocks-append buf_size (with_block writer.area w m n f) messages reader.read_position m
              holds.read_place.inside (omega arith)
              (Blocks-kept buf_size writer.area messages reader.read_position w m n holds.whole_area
                holds.read_place holds.write_place here (omega arith) (omega arith) holds.blocks)
              (subst (λ q. HasBlock buf_size (with_block writer.area w m n f) q m) here
                (with_block-HasBlock buf_size writer.area w m holds.whole_area holds.write_place
                  (omega arith)));
      }

  -- On a ring that holds `messages`, `EnqueueData` accepts a message of less than `2 ^ 31` bytes
  -- exactly when the queue `put` does, without an invalid access, and the ring then holds the
  -- messages of that queue.
  pub enqueue_data-put :
      (m : List ℕ)
      → length m < 2 ^ 31
      → (writer' : BufferHeader) × (enqueue_data reader writer buf_size m (length m)
          ≡ ok ((put buf_size messages m).0, writer'))
        × Holds buf_size reader writer' (put buf_size messages m).1
  unfolding put
  enqueue_data-put m short = elim (Bool-cases (leb (used messages + length m + 20) buf_size)) [
    | inl e ↦
        let fits : used messages + length m + 20 ≤ buf_size = ground arith in
        rw e (
          enqueued writer buf_size m (length m),
          data_enqueued writer buf_size m (length m) holds.write_place holds.whole_area
              (omega arith) (omega arith) reader holds.read_place.inside (omega (arith, space)),
          appended m fits,
        )
    | inr e ↦ rw e (writer, full m short (ground arith), holds)
  ]

  -- A message with room, which stands in front of other bytes in the source.
  pub front_enqueued :
      (m rest : List ℕ)
      → used messages + length m + 20 ≤ buf_size
      → (writer' : BufferHeader) × (enqueue_data reader writer buf_size (m ++ rest) (length m)
          ≡ ok (true, writer'))
        × (writer'.read_position ≡ writer.read_position)
        × Holds buf_size reader writer' (messages ++ (m ∷ []))
  front_enqueued m rest fits =
      let n = length m in
      let f = first_part buf_size writer.write_position n in
      let split =
        first_part-Parts buf_size writer.write_position n holds.write_place (omega arith) in
      let same : with_block writer.area writer.write_position (m ++ rest) n f
          ≡ with_block writer.area writer.write_position m n f =
        sym (
          with_block-take writer.area writer.write_position (m ++ rest) n f
            (omega (arith, split.small)))
        ∙ ap (λ l. with_block writer.area writer.write_position l n f)
            (take-append n m rest refl) in
      (
        enqueued writer buf_size m n,
        data_enqueued writer buf_size (m ++ rest) n holds.write_place holds.whole_area (omega arith)
              (omega (arith, length-append m rest)) reader holds.read_place.inside
              (omega (arith, space))
            ∙ ap
                (λ area. ok (
                  true,
                  record writer {
                    area = area;
                    write_position = advance writer.write_position n buf_size;
                  },
                ))
                same,
        refl,
        appended m fits,
      )
