-- ===== src/RealTime/Text/Reversal.antt =====
-- How `EnqueueIntegerAsStringWithBase` (mt3620-uart.c) turns its digits round.
use mathlib.Core.List.{reverse, reverse-cons, reverse-append}
use modbus_sphere_library.Base.{
  ℕ, zero, suc, ◌+◌, ◌-◌, ◌<◌, ◌≡◌, refl, sym, ap, ◌∙◌, List, [], ◌∷◌, ◌++◌, true, false, ltb,
  length, length-append, append_assoc, arith, ◌⊎◌, inl, inr,
}
use modbus_sphere_library.Outcome.{ok}
use modbus_sphere_library.Memory.{read_byte, read_byte_split, write_byte, write_byte_split}
use modbus_sphere_library.RealTime.Text.{reverse_loop}

from_both_ends : (x : ℕ) (xs : List ℕ) → (xs ≡ []) ⊎ ((m : List ℕ) × (y : ℕ) × (xs ≡ m ++ (y ∷ [])))
from_both_ends x [] = inl refl
from_both_ends x (z ∷ zs) = elim (from_both_ends z zs) [
  | inl e ↦ inr ([], z, ap (λ l. z ∷ l) e)
  | inr (m, y, e) ↦ inr (z ∷ m, y, ap (λ l. z ∷ l) e)
]

reverse_ends :
    (x y : ℕ) (m post : List ℕ)
    → reverse (x ∷ (m ++ (y ∷ []))) ++ post ≡ y ∷ (reverse m ++ (x ∷ post))
reverse_ends x y m post =
    ap (λ l. l ++ post) (reverse-append (x ∷ m) (y ∷ []) ∙ ap (λ l. y ∷ l) (reverse-cons x m))
    ∙ ap (λ l. y ∷ l) (append_assoc (reverse m) (x ∷ []) post)

swap_step :
    (fuel : ℕ) (pre m post : List ℕ) (x y high : ℕ)
    → high ≡ length pre + 1 + length m
    → reverse_loop (suc fuel) (pre ++ (x ∷ (m ++ (y ∷ post)))) (length pre) high
      ≡ reverse_loop fuel
          ((pre ++ (y ∷ [])) ++ (m ++ (x ∷ post)))
          (length (pre ++ (y ∷ [])))
          (high - 1)
unfolding reverse_loop
swap_step fuel pre m post x y high h =
    let below : ltb (length pre) high ≡ true = ground arith in
    let end : (z : ℕ) → high ≡ length (pre ++ (z ∷ m)) =
      λ z. omega (arith, length-append pre (z ∷ m)) in
    let last : read_byte (pre ++ (x ∷ (m ++ (y ∷ post)))) high ≡ ok y =
      ap (λ l. read_byte l high) (sym (append_assoc pre (x ∷ m) (y ∷ post)))
      ∙ read_byte_split (pre ++ (x ∷ m)) post y high (end x) in
    let swapped : write_byte (pre ++ (y ∷ (m ++ (y ∷ post)))) high x
        ≡ ok (pre ++ (y ∷ (m ++ (x ∷ post)))) =
      ap (λ l. write_byte l high x) (sym (append_assoc pre (y ∷ m) (y ∷ post)))
      ∙ write_byte_split (pre ++ (y ∷ m)) post y high x (end y)
      ∙ ap (λ l. ok l) (append_assoc pre (y ∷ m) (x ∷ post)) in
    rw
      (
        below,
        read_byte_split pre (m ++ (y ∷ post)) x (length pre) refl,
        last,
        write_byte_split pre (m ++ (y ∷ post)) x (length pre) y refl,
        swapped,
        append_assoc pre (y ∷ []) (m ++ (x ∷ post)),
        length-append pre (y ∷ []),
      )
      refl

-- The loop turns round what stands from `low` to `high`.
pub reverse_loop_lem :
    (fuel : ℕ) (pre l post : List ℕ) (high : ℕ)
    → high + 1 ≡ length pre + length l
    → length l < fuel
    → reverse_loop fuel (pre ++ (l ++ post)) (length pre) high ≡ ok (pre ++ (reverse l ++ post))
unfolding reverse_loop
reverse_loop_lem zero pre l post high h enough = absurd (omega arith)
reverse_loop_lem (suc fuel) pre [] post high h enough =
    let done : ltb (length pre) high ≡ false = ground arith in rw done refl
reverse_loop_lem (suc fuel) pre (x ∷ xs) post high h enough = elim (from_both_ends x xs) [
  | inl e ↦
      let done : ltb (length pre) high ≡ false = ground (arith, ap length e) in rw (done, e) refl
  | inr (m, y, e) ↦
      let size : length xs ≡ length m + 1 = omega (arith, ap length e, length-append m (y ∷ [])) in
      let rest =
        reverse_loop_lem fuel (pre ++ (y ∷ [])) m (x ∷ post) (high - 1)
          (omega (arith, length-append pre (y ∷ []))) (omega arith) in
      rw (e, append_assoc m (y ∷ []) post)
        (swap_step fuel pre m post x y high (omega arith)
          ∙ rest
          ∙ ap (λ l. ok l)
              (append_assoc pre (y ∷ []) (reverse m ++ (x ∷ post))
                ∙ ap (λ l. pre ++ l) (sym (reverse_ends x y m post))))
]
