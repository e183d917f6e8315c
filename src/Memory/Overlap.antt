-- ===== src/Memory/Overlap.antt =====
-- What a read sees after a write: the bytes written, or what stood there before.
use modbus_sphere_library.Base.{
  ℕ, zero, suc, ◌+◌, ◌-◌, ◌≤◌, ◌≡◌, refl, sym, ap, ◌∙◌, List, [], ◌∷◌, ◌++◌, arith, length, take,
  drop, length-append, length-take, drop-append, drop-drop, append_assoc,
}
use modbus_sphere_library.Outcome.{ok}
use modbus_sphere_library.Memory.Defs.{read_bytes}
use modbus_sphere_library.Memory.Laws.{read_bytes_ok, read_bytes_split, written, length-written}

take_front :
    (n off : ℕ) (xs zs : List ℕ)
    → n ≤ off
    → off ≤ length xs
    → take n (take off xs ++ zs) ≡ take n xs
take_front zero off xs zs h k = refl
take_front (suc n) zero xs zs h k = absurd (omega arith)
take_front (suc n) (suc off) [] zs h k = absurd (omega arith)
take_front (suc n) (suc off) (x ∷ xs) zs h k =
    ap (λ l. x ∷ l) (take_front n off xs zs (omega arith) (omega arith))

slice_front :
    (k n off : ℕ) (xs zs : List ℕ)
    → k + n ≤ off
    → off ≤ length xs
    → take n (drop k (take off xs ++ zs)) ≡ take n (drop k xs)
slice_front zero n off xs zs h r = take_front n off xs zs (omega arith) r
slice_front (suc k) n zero xs zs h r = absurd (omega arith)
slice_front (suc k) n (suc off) [] zs h r = absurd (omega arith)
slice_front (suc k) n (suc off) (x ∷ xs) zs h r =
    slice_front k n off xs zs (omega arith) (omega arith)

module _ (xs : List ℕ) (off : ℕ) (ys : List ℕ) (inside : off + length ys ≤ length xs) where
  pub read_written : (n : ℕ) → n ≡ length ys → read_bytes (written xs off ys) off n ≡ ok ys
  read_written n h =
      read_bytes_split (take off xs) ys (drop (off + length ys) xs) off n
        (omega (arith, inside, length-take off xs)) h

  pub read_written_before :
      (k n : ℕ) → k + n ≤ off → read_bytes (written xs off ys) k n ≡ read_bytes xs k n
  read_written_before k n h =
      read_bytes_ok (written xs off ys) k n (omega (arith, inside, length-written xs off ys inside))
      ∙ ap (λ l. ok l)
          (slice_front k n off xs (ys ++ drop (off + length ys) xs) h (omega (arith, inside)))
      ∙ sym (read_bytes_ok xs k n (omega (arith, inside)))

  behind : (d : ℕ) → drop (off + length ys + d) (written xs off ys) ≡ drop (off + length ys + d) xs
  behind d =
      sym (drop-drop d (off + length ys) (written xs off ys))
      ∙ ap (drop d) (
          ap (drop (off + length ys))
            (sym (append_assoc (take off xs) ys (drop (off + length ys) xs)))
          ∙ drop-append (off + length ys) (take off xs ++ ys) (drop (off + length ys) xs)
              (omega (arith, inside, length-append (take off xs) ys, length-take off xs)))
      ∙ drop-drop d (off + length ys) xs

  pub read_written_after :
      (k n : ℕ)
      → off + length ys ≤ k
      → k + n ≤ length xs
      → read_bytes (written xs off ys) k n ≡ read_bytes xs k n
  read_written_after k n h r =
      let e : off + length ys + (k - (off + length ys)) ≡ k = omega arith in
      read_bytes_ok (written xs off ys) k n (omega (arith, length-written xs off ys inside))
      ∙ ap (λ l. ok (take n l))
          (ap (λ i. drop i (written xs off ys)) (sym e)
            ∙ behind (k - (off + length ys))
            ∙ ap (λ i. drop i xs) e)
      ∙ sym (read_bytes_ok xs k n r)
