-- ===== src/RealTime/Text/Digits.antt =====
-- The digits that `EnqueueIntegerAsStringWithBase` (mt3620-uart.c) finds.
use mathlib.Core.List.{reverse, reverse-cons}
use mathlib.Core.Path.{subst}
use modbus_sphere_library.Base.{
  ℕ, zero, suc, ◌+◌, ◌*◌, ◌/◌, ◌%◌, ◌≤◌, ◌<◌, ◌≡◌, refl, sym, ap, ap₂, ◌∙◌, List, [], ◌∷◌, ◌++◌,
  Bool, true, false, ltb, ◌==◌, length, length-append, append_assoc, Option, none, some, all_below,
  all_below_sound, if◌then◌else◌, get_elem?, arith, inl, inr, Bool-cases, drop,
}
use modbus_sphere_library.Outcome.{ok}
use modbus_sphere_library.Memory.{read_byte, write_byte_split}
use modbus_sphere_library.RealTime.Text.{ℤ, pos, negsuc, abs, neg, quot, rem, digits, digit_loop}

-- The character of a digit.
abbrev pub digit_char : ℕ → ℕ
digit_char d = if ltb d 10 then 48 + d else 87 + d

-- A number as it is written in a base: without leading zeros.
pub data Numeral (base : ℕ) : List ℕ → ℕ → Type 0 where
  single : (d : ℕ) → d < base → Numeral base (digit_char d ∷ []) d
  longer :
      (text : List ℕ) (n d : ℕ)
      → Numeral base text n
      → 0 < n
      → d < base
      → Numeral base (text ++ (digit_char d ∷ [])) (n * base + d)

is_char : Option ℕ → ℕ → Bool
is_char none c = false
is_char (some x) c = x == c

is_char-eq : (o : Option ℕ) (c : ℕ) → is_char o c ≡ true → o ≡ some c
unfolding is_char
is_char-eq none c e = absurd (cc)
is_char-eq (some x) c e = ap some (let same : x ≡ c = ground arith in same)

digits_right : all_below 16 (λ d. is_char (get_elem? digits d) (digit_char d)) ≡ true
unfolding all_below is_char
digits_right = refl

digit_read : (d : ℕ) → d < 16 → read_byte digits d ≡ ok (digit_char d)
unfolding read_byte
digit_read d h =
    let right : is_char (get_elem? digits d) (digit_char d) ≡ true =
      all_below_sound 16 (λ d. is_char (get_elem? digits d) (digit_char d)) d digits_right h in
    rw (is_char-eq (get_elem? digits d) (digit_char d) right) refl

abs-neg : (n : ℕ) → abs (neg n) ≡ n
unfolding abs neg
abs-neg zero = refl
abs-neg (suc n) = refl

pub abs-quot : (value : ℤ) (base : ℕ) → abs (quot value base) ≡ abs value / base
unfolding quot abs
abs-quot (pos n) base = refl
abs-quot (negsuc n) base = abs-neg (suc n / base)

pub abs-rem : (value : ℤ) (base : ℕ) → abs (rem value base) ≡ abs value % base
unfolding rem abs
abs-rem (pos n) base = refl
abs-rem (negsuc n) base = abs-neg (suc n % base)

-- At most `suc more` digits, the lowest first.
unfoldable pub lowest_first : ℕ → ℕ → ℕ → List ℕ
lowest_first zero base n = digit_char (n % base) ∷ []
lowest_first (suc more) base n =
    digit_char (n % base) ∷ (if (n / base) == 0 then [] else lowest_first more base (n / base))

-- `base` to the power `suc more`.
abbrev pub power : ℕ → ℕ → ℕ
power base zero = base
power base (suc more) = power base more * base

-- What the proofs use of a base.
pub record IsBase (base : ℕ) : Type 0 where
  pub most : base ≤ 16
  pub split : (n : ℕ) → (n / base) * base + n % base ≡ n
  pub below : (n : ℕ) → n % base < base
  pub less : (n m : ℕ) → n < m * base → n / base < m

pub IsBase-10 : IsBase 10
IsBase-10 = record {
  most = omega arith;
  split = λ n. omega arith;
  below = λ n. omega arith;
  less = λ n m h. omega arith;
}

pub IsBase-16 : IsBase 16
IsBase-16 = record {
  most = omega arith;
  split = λ n. omega arith;
  below = λ n. omega arith;
  less = λ n m h. omega arith;
}

pub length-lowest_first : (more base n : ℕ) → length (lowest_first more base n) ≤ suc more
unfolding lowest_first
length-lowest_first zero base n = omega arith
length-lowest_first (suc more) base n = elim (Bool-cases ((n / base) == 0)) [
  | inl e ↦ rw e (omega arith)
  | inr e ↦ rw e (omega (arith, length-lowest_first more base (n / base)))
]

pub length-lowest_first_pos : (more base n : ℕ) → 0 < length (lowest_first more base n)
unfolding lowest_first
length-lowest_first_pos zero base n = omega arith
length-lowest_first_pos (suc more) base n = omega arith

module _ (base : ℕ) (is_base : IsBase base) where
  one_digit : (n : ℕ) → (n / base ≡ 0) → Numeral base (digit_char (n % base) ∷ []) n
  one_digit n e =
      let same : n % base ≡ n =
        (let sum : 0 * base + n % base ≡ n =
            ap (λ q. q * base + n % base) (sym e) ∙ is_base.split n in
          omega (arith, sum)) in
      subst (Numeral base (digit_char (n % base) ∷ [])) same
        (Numeral.single (n % base) (is_base.below n))

  pub lowest_first-Numeral :
      (more n : ℕ) → n < power base more → Numeral base (reverse (lowest_first more base n)) n
  unfolding lowest_first
  lowest_first-Numeral zero n h =
      one_digit n (let e : n / base ≡ 0 = omega (arith, is_base.less n 1 (omega (arith, h))) in e)
  lowest_first-Numeral (suc more) n h = elim (Bool-cases ((n / base) == 0)) [
    | inl e ↦ rw e (one_digit n (ground arith))
    | inr e ↦
        let rest = lowest_first-Numeral more (n / base) (is_base.less n (power base more) h) in
        rw (e, reverse-cons (digit_char (n % base)) (lowest_first more base (n / base)))
          (subst (Numeral base _) (is_base.split n) (
            Numeral.longer (reverse (lowest_first more base (n / base))) (n / base) (n % base) rest
              (ground arith) (is_base.below n)))
  ]

  digit_step :
      (fuel : ℕ) (pre post : List ℕ) (x : ℕ) (value : ℤ)
      → digit_loop (suc fuel) (pre ++ (x ∷ post)) (length pre) value base ≡ (
          if (abs value / base) == 0
          then ok (pre ++ (digit_char (abs value % base) ∷ post), length pre + 1)
          else digit_loop fuel
              ((pre ++ (digit_char (abs value % base) ∷ [])) ++ post)
              (length (pre ++ (digit_char (abs value % base) ∷ [])))
              (quot value base)
              base)
  unfolding digit_loop
  digit_step fuel pre post x value =
      let d = abs value % base in
      rw
        (
          abs-quot value base,
          abs-rem value base,
          digit_read d (omega (arith, is_base.most, is_base.below (abs value))),
          write_byte_split pre post x (length pre) (digit_char d) refl,
          append_assoc pre (digit_char d ∷ []) post,
          length-append pre (digit_char d ∷ []),
        )
        refl

  -- What the loop stores, when there is fuel and room for the digits.
  pub digit_loop_lem :
      (more fuel : ℕ) (pre post : List ℕ) (value : ℤ)
      → abs value < power base more
      → suc more ≤ length post
      → more < fuel
      → digit_loop fuel (pre ++ post) (length pre) value base
        ≡ ok (
          pre
              ++ (lowest_first more base (abs value)
                  ++ drop (length (lowest_first more base (abs value))) post),
          length pre + length (lowest_first more base (abs value)),
        )
  unfolding lowest_first
  digit_loop_lem more fuel pre [] value h room enough = absurd (omega arith)
  digit_loop_lem more zero pre (x ∷ post) value h room enough = absurd (omega arith)
  digit_loop_lem zero (suc fuel) pre (x ∷ post) value h room enough =
      let last : abs value / base ≡ 0 =
        omega (arith, is_base.less (abs value) 1 (omega (arith, h))) in
      rw (digit_step fuel pre post x value, last) refl
  digit_loop_lem (suc more) (suc fuel) pre (x ∷ post) value h room enough =
      let c = digit_char (abs value % base) in
      elim (Bool-cases ((abs value / base) == 0)) [
        | inl e ↦ rw (digit_step fuel pre post x value, e) refl
        | inr e ↦
            let less : abs (quot value base) < power base more =
              subst (λ k. k < power base more) (sym (abs-quot value base))
                (is_base.less (abs value) (power base more) h) in
            let next =
              digit_loop_lem more fuel (pre ++ (c ∷ [])) post (quot value base) less (omega arith)
                (omega arith) in
            let l = lowest_first more base (abs value / base) in
            let place : length (pre ++ (c ∷ [])) + length l ≡ length pre + suc (length l) =
              omega (arith, length-append pre (c ∷ [])) in
            rw (digit_step fuel pre post x value, e)
              ((rw (abs-quot value base) at next)
                ∙ ap₂ (λ t p. ok (t, p)) (append_assoc pre (c ∷ []) (l ++ drop (length l) post))
                    place)
      ]
