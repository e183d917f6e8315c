-- ===== src/AzureIot/Attempts.antt =====
-- The attempts of azure_iot.c to connect, and the periods of its timer.
use modbus_sphere_library.Base.{
  ℕ, zero, suc, ◌+◌, ◌*◌, ◌^◌, ◌≤◌, min, ◌≡◌, refl, ap, sym, ◌∙◌, List, [], ◌∷◌, ◌++◌, Bool, true,
  false, Option, none, some, arith,
}
use native.Mathlib.Nat.{pow-succ', one-le-pow}
use modbus_sphere_library.AzureIot.Client.{
  Call, create_client, set_timer, is_some, next_poll_period,
}

-- The period, in seconds, after `failures` failed attempts.
unfoldable pub backoff : ℕ → ℕ
backoff zero = 5
backoff (suc failures) = min (60 * 2 ^ failures) 600

unfoldable pub prepend {ℓ} : {A : Type ℓ} → Option A → List A → List A
prepend none xs = xs
prepend (some x) xs = x ∷ xs

unfoldable pub filter_map {ℓ κ} : {A : Type ℓ} {B : Type κ} → (A → Option B) → List A → List B
unfolding prepend
filter_map f [] = []
filter_map f (x ∷ xs) = prepend (f x) (filter_map f xs)

pub prepend-append {ℓ} :
    {A : Type ℓ} (o : Option A) (xs ys : List A) → prepend o (xs ++ ys) ≡ prepend o xs ++ ys
unfolding prepend
prepend-append none xs ys = refl
prepend-append (some x) xs ys = refl

pub filter_map-append {ℓ κ} :
    {A : Type ℓ} {B : Type κ} (f : A → Option B) (xs ys : List A)
    → filter_map f (xs ++ ys) ≡ filter_map f xs ++ filter_map f ys
unfolding filter_map
filter_map-append f [] ys = refl
filter_map-append f (x ∷ xs) ys =
    ap (prepend (f x)) (filter_map-append f xs ys)
    ∙ prepend-append (f x) (filter_map f xs) (filter_map f ys)

-- Whether an attempt to connect succeeded.
unfoldable pub attempt_of : Call → Option Bool
unfolding is_some
attempt_of (create_client created) = some (is_some created)
attempt_of _ = none

-- The period that the timer is set to.
unfoldable pub period_of : Call → Option ℕ
period_of (set_timer period) = some period
period_of _ = none

unfoldable pub attempts : List Call → List Bool
unfolding filter_map attempt_of
attempts calls = filter_map attempt_of calls

unfoldable pub periods : List Call → List ℕ
unfolding filter_map period_of
periods calls = filter_map period_of calls

-- The periods that the attempts ask for: the default after a success; after a failure, what the
-- number of failures so far, this one included, gives.
unfoldable pub expected_periods : ℕ → List Bool → List ℕ
unfolding backoff
expected_periods failures [] = []
expected_periods failures (true ∷ rest) = 5 ∷ expected_periods failures rest
expected_periods failures (false ∷ rest) =
    backoff (suc failures) ∷ expected_periods (suc failures) rest

unfoldable pub failed : List Bool → ℕ
failed [] = 0
failed (true ∷ rest) = failed rest
failed (false ∷ rest) = suc (failed rest)

doubled : (t : ℕ) → 1 ≤ t → next_poll_period (min (60 * t) 600) ≡ min (60 * (2 * t)) 600
unfolding next_poll_period
doubled t h = ground arith

pub next_poll_period-backoff : (n : ℕ) → next_poll_period (backoff n) ≡ backoff (suc n)
unfolding next_poll_period backoff
next_poll_period-backoff zero = refl
next_poll_period-backoff (suc n) =
    doubled (2 ^ n) (one-le-pow n 2 (omega arith))
    ∙ ap (λ t. min (60 * t) 600) (sym (pow-succ' 2 n))

pub expected_periods-append :
    (k : ℕ) (xs ys : List Bool)
    → expected_periods k (xs ++ ys) ≡ expected_periods k xs ++ expected_periods (k + failed xs) ys
unfolding expected_periods failed
expected_periods-append k [] ys = ap (λ n. expected_periods n ys) (omega arith)
expected_periods-append k (true ∷ xs) ys = ap (λ l. 5 ∷ l) (expected_periods-append k xs ys)
expected_periods-append k (false ∷ xs) ys =
    ap (λ l. backoff (suc k) ∷ l) (expected_periods-append (suc k) xs ys)
    ∙ ap (λ n. backoff (suc k) ∷ (expected_periods (suc k) xs ++ expected_periods n ys))
        (omega arith)

pub failed-append : (xs ys : List Bool) → failed (xs ++ ys) ≡ failed xs + failed ys
unfolding failed
failed-append [] ys = omega arith
failed-append (true ∷ xs) ys = failed-append xs ys
failed-append (false ∷ xs) ys = omega (arith, failed-append xs ys)
