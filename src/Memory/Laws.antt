-- ===== src/Memory/Laws.antt =====
-- When reads and writes stay inside the array, and what they give.
use modbus_sphere_library.Base.{
  ℕ, zero, suc, ◌+◌, ◌≤◌, ◌<◌, ◌≡◌, refl, sym, ap, ap₂, ◌∙◌, List, [], ◌∷◌, ◌++◌, some, arith,
  leb-of_le, length, get_elem?, take, drop, length-append, length-take, length-drop, take-append,
  drop-append, get_elem?-some, get_elem?-append_ge, append_assoc,
}
use modbus_sphere_library.Outcome.{ok, Returns}
use modbus_sphere_library.Memory.Defs.{uninit, read_byte, read_bytes, write_bytes, write_byte}

pub length-uninit : (stack : ℕ → ℕ) (n : ℕ) → length (uninit stack n) ≡ n
unfolding uninit
length-uninit stack zero = refl
length-uninit stack (suc n) = ap suc (length-uninit stack n)

pub read_byte_ok : (xs : List ℕ) (i : ℕ) → i < length xs → (x : ℕ) × (read_byte xs i ≡ ok x)
unfolding read_byte
read_byte_ok xs i h = let (x, e) = get_elem?-some xs i h in (x, rw (e, read_byte))

pub read_bytes_ok :
    (xs : List ℕ) (off n : ℕ)
    → off + n ≤ length xs
    → read_bytes xs off n ≡ ok (take n (drop off xs))
unfolding read_bytes
read_bytes_ok xs off n h = rw (leb-of_le (off + n) (length xs) h)

pub length-slice :
    (xs : List ℕ) (off n : ℕ) → off + n ≤ length xs → length (take n (drop off xs)) ≡ n
length-slice xs off n h = omega (arith, length-take n (drop off xs), length-drop off xs)

-- The array after a write inside it.
abbrev pub written : List ℕ → ℕ → List ℕ → List ℕ
written xs off ys = take off xs ++ (ys ++ drop (off + length ys) xs)

pub write_bytes_ok :
    (xs : List ℕ) (off : ℕ) (ys : List ℕ)
    → off + length ys ≤ length xs
    → write_bytes xs off ys ≡ ok (written xs off ys)
unfolding write_bytes
write_bytes_ok xs off ys h = rw (leb-of_le (off + length ys) (length xs) h)

pub length-written :
    (xs : List ℕ) (off : ℕ) (ys : List ℕ)
    → off + length ys ≤ length xs
    → length (written xs off ys) ≡ length xs
length-written xs off ys h = omega (
  arith,
  length-append (take off xs) (ys ++ drop (off + length ys) xs),
  length-append ys (drop (off + length ys) xs),
  length-take off xs,
  length-drop (off + length ys) xs,
)

-- Reads and writes at the joint of a split array.
pub read_bytes_split :
    (pre mid post : List ℕ) (off n : ℕ)
    → off ≡ length pre
    → n ≡ length mid
    → read_bytes (pre ++ (mid ++ post)) off n ≡ ok mid
read_bytes_split pre mid post off n ho hn =
    read_bytes_ok (pre ++ (mid ++ post)) off n
      (omega (arith, length-append pre (mid ++ post), length-append mid post))
    ∙ ap (λ l. ok (take n l)) (drop-append off pre (mid ++ post) (sym ho))
    ∙ ap (λ l. ok l) (take-append n mid post (sym hn))

pub write_bytes_split :
    (pre old post : List ℕ) (off : ℕ) (ys : List ℕ)
    → off ≡ length pre
    → length ys ≡ length old
    → write_bytes (pre ++ (old ++ post)) off ys ≡ ok (pre ++ (ys ++ post))
write_bytes_split pre old post off ys ho hy =
    write_bytes_ok (pre ++ (old ++ post)) off ys
      (omega (arith, length-append pre (old ++ post), length-append old post))
    ∙ ap₂ (λ l r. ok (l ++ (ys ++ r))) (take-append off pre (old ++ post) (sym ho))
        (rw (← append_assoc pre old post)
          (drop-append (off + length ys) (pre ++ old) post (omega (arith, length-append pre old))))

pub read_byte_split :
    (pre post : List ℕ) (x i : ℕ) → i ≡ length pre → read_byte (pre ++ (x ∷ post)) i ≡ ok x
unfolding read_byte
read_byte_split pre post x i h =
    let at : get_elem? (pre ++ (x ∷ post)) i ≡ some x =
      ap (get_elem? (pre ++ (x ∷ post))) (let e : i ≡ length pre + 0 = omega arith in e)
      ∙ get_elem?-append_ge pre (x ∷ post) 0 in
    rw (at, read_byte)

pub write_byte_split :
    (pre post : List ℕ) (old i v : ℕ)
    → i ≡ length pre
    → write_byte (pre ++ (old ∷ post)) i v ≡ ok (pre ++ (v ∷ post))
unfolding write_byte
write_byte_split pre post old i v h = write_bytes_split pre (old ∷ []) post i (v ∷ []) h refl

pub write_byte_second :
    (pre post : List ℕ) (a old i v : ℕ)
    → i ≡ length pre + 1
    → write_byte (pre ++ (a ∷ old ∷ post)) i v ≡ ok (pre ++ (a ∷ v ∷ post))
write_byte_second pre post a old i v h =
    ap (λ l. write_byte l i v) (sym (append_assoc pre (a ∷ []) (old ∷ post)))
    ∙ write_byte_split (pre ++ (a ∷ [])) post old i v (omega (arith, length-append pre (a ∷ [])))
    ∙ ap (λ l. ok l) (append_assoc pre (a ∷ []) (v ∷ post))

pub read_byte_second :
    (pre post : List ℕ) (a x i : ℕ)
    → i ≡ length pre + 1
    → read_byte (pre ++ (a ∷ x ∷ post)) i ≡ ok x
read_byte_second pre post a x i h =
    ap (λ l. read_byte l i) (sym (append_assoc pre (a ∷ []) (x ∷ post)))
    ∙ read_byte_split (pre ++ (a ∷ [])) post x i (omega (arith, length-append pre (a ∷ [])))

-- A write at the start of an array.
pub write_bytes_front :
    (xs ys : List ℕ) → length ys ≤ length xs → write_bytes xs 0 ys ≡ ok (ys ++ drop (length ys) xs)
write_bytes_front xs ys h =
    write_bytes_ok xs 0 ys (omega arith)
    ∙ ap (λ k. ok (ys ++ drop k xs)) (let e : 0 + length ys ≡ length ys = omega arith in e)

-- Inside the array both return.
pub read_bytes_fit :
    (xs : List ℕ) (off n : ℕ)
    → off + n ≤ length xs
    → Returns (λ ys. length ys ≡ n) (read_bytes xs off n)
read_bytes_fit xs off n h = rw (read_bytes_ok xs off n h) (length-slice xs off n h)

pub write_bytes_fit :
    (xs : List ℕ) (off : ℕ) (ys : List ℕ)
    → off + length ys ≤ length xs
    → Returns (λ zs. length zs ≡ length xs) (write_bytes xs off ys)
write_bytes_fit xs off ys h = rw (write_bytes_ok xs off ys h) (length-written xs off ys h)

pub two_more : (xs : List ℕ) → 2 ≤ length xs → (a : ℕ) × (b : ℕ) × (r : List ℕ) × (xs ≡ a ∷ b ∷ r)
two_more [] h = absurd (omega arith)
two_more (a ∷ []) h = absurd (omega arith)
two_more (a ∷ b ∷ r) h = (a, b, r, refl)
