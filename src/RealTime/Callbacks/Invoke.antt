-- ===== src/RealTime/Callbacks/Invoke.antt =====
-- The loop of `InvokeCallbacks`.
use modbus_sphere_library.Base.{
  ℕ, zero, suc, ◌+◌, ◌≤◌, ◌<◌, ◌≡◌, refl, ap, ◌∙◌, List, [], ◌∷◌, ◌++◌, Bool, true, false, inl, inr,
  Bool-cases, arith, ◌==◌, if◌then◌else◌, length, length-append,
}
use modbus_sphere_library.Outcome.{ok, Returns, Returns->>=}
use modbus_sphere_library.RealTime.Callbacks.{
  Callbacks, take_callback, enqueue_all, next_arrivals, invoke_callbacks,
}
use modbus_sphere_library.RealTime.Callbacks.Pending.{
  mem, IsPending, pushed, pushed_all, enqueue_all-IsPending, popped, popped-IsPending, AllIn,
  concat, AllRan,
}

mem-AllIn :
    (ran waiting : List ℕ) (n : ℕ) → mem n waiting ≡ true → AllIn ran waiting → mem n ran ≡ true
unfolding mem
mem-AllIn ran [] n h all = absurd (cc h)
mem-AllIn ran (x ∷ xs) n h all = elim (Bool-cases (n == x)) [
  | inl e ↦ let same : n ≡ x = ground arith in ap (λ i. mem i ran) same ∙ all.0
  | inr e ↦ mem-AllIn ran xs n (ground arith) all.1
]

AllIn-pushed :
    (ran waiting : List ℕ) (n : ℕ)
    → AllIn ran (pushed waiting n)
    → (mem n ran ≡ true) × AllIn ran waiting
AllIn-pushed ran waiting n all = go (mem n waiting) refl all
  where
    go :
        (b : Bool)
        → mem n waiting ≡ b
        → AllIn ran (if b then waiting else n ∷ waiting)
        → (mem n ran ≡ true) × AllIn ran waiting
    go true e h = (mem-AllIn ran waiting n e h, h)
    go false e h = h

AllIn-pushed_all :
    (ran ns waiting : List ℕ) → AllIn ran (pushed_all waiting ns) → AllIn ran ns × AllIn ran waiting
AllIn-pushed_all ran [] waiting all = (tt, all)
AllIn-pushed_all ran (n ∷ ns) waiting all =
    let (later, first) = AllIn-pushed_all ran ns (pushed waiting n) all in
    let (this, rest) = AllIn-pushed ran waiting n first in ((this, later), rest)

AllIn-cons : (ran ns : List ℕ) (n : ℕ) → AllIn ran ns → AllIn (n ∷ ran) ns
unfolding mem
AllIn-cons ran [] n all = tt
AllIn-cons ran (x ∷ xs) n all = (ground (arith, all.0), AllIn-cons ran xs n all.1)

AllIn-append : (ran xs ys : List ℕ) → AllIn ran xs → AllIn ran ys → AllIn ran (xs ++ ys)
AllIn-append ran [] ys h k = k
AllIn-append ran (x ∷ xs) ys h k = (h.0, AllIn-append ran xs ys h.1 k)

mem_self : (n : ℕ) (xs : List ℕ) → mem n (n ∷ xs) ≡ true
unfolding mem
mem_self n xs = ground arith

length-pushed_all :
    (ns waiting : List ℕ) → length (pushed_all waiting ns) ≤ length waiting + length ns
length-pushed_all [] waiting = omega arith
length-pushed_all (n ∷ ns) waiting =
    let one : length (pushed waiting n) ≤ length waiting + 1 = ground arith in
    omega (arith, length-pushed_all ns (pushed waiting n), one)

-- The list, which holds `n` and then `waiting`, after the first callback and the interrupts in it.
module _ (n : ℕ) (waiting : List ℕ) (ran : List ℕ) (rest : Callbacks × List (List ℕ)) where
  none_came : AllRan waiting [] (ran, rest) → AllRan (n ∷ waiting) [] (n ∷ ran, rest)
  none_came a = record {
    came = a.came;
    in_order = a.in_order;
    waited_ran = (mem_self n ran, AllIn-cons ran waiting n a.waited_ran);
    came_ran = AllIn-cons ran (concat a.came) n a.came_ran;
    none_waits = a.none_waits;
    bounded = omega (arith, a.bounded);
  }

  some_came :
      (now : List ℕ) (later : List (List ℕ))
      → AllRan (pushed_all waiting now) later (ran, rest)
      → AllRan (n ∷ waiting) (now ∷ later) (n ∷ ran, rest)
  some_came now later a =
      let (new, old) = AllIn-pushed_all ran now waiting a.waited_ran in
      record {
        came = now ∷ a.came;
        in_order = ap (λ l. now ∷ l) a.in_order;
        waited_ran = (mem_self n ran, AllIn-cons ran waiting n old);
        came_ran =
            AllIn-cons ran (now ++ concat a.came) n
              (AllIn-append ran now (concat a.came) new a.came_ran);
        none_waits = a.none_waits;
        bounded =
            omega
              (arith, a.bounded, length-pushed_all now waiting, length-append now (concat a.came));
      }

-- From a list in which exactly the nodes `waiting` are, each of them once, whatever interrupts
-- enqueue nodes while the callbacks run, and with fuel for one round more than there are such nodes
-- and arrivals: `InvokeCallbacks` returns; it has run the callback of every node that waited or was
-- enqueued in between, no more callbacks than that in all, and it leaves the list empty and no node
-- marked.
pub invoke_callbacks-AllRan :
    (fuel : ℕ) (s : Callbacks) (waiting : List ℕ) (arrivals : List (List ℕ))
    → IsPending s waiting
    → length waiting + length (concat arrivals) < fuel
    → Returns (AllRan waiting arrivals) (invoke_callbacks fuel s arrivals)
unfolding invoke_callbacks take_callback next_arrivals enqueue_all
invoke_callbacks-AllRan zero s waiting arrivals p enough = absurd (omega arith)
invoke_callbacks-AllRan (suc fuel) s [] arrivals p enough = rw p.chain (record {
  came = [];
  in_order = refl;
  waited_ran = tt;
  came_ran = tt;
  none_waits = record { chain = refl; marked = p.marked };
  bounded = omega arith;
})
invoke_callbacks-AllRan (suc fuel) s (n ∷ waiting) [] p enough =
    let p' = popped-IsPending s n waiting p in
    rw p.chain.0 (
      Returns->>= (AllRan waiting []) (AllRan (n ∷ waiting) [])
        (invoke_callbacks fuel (popped s n) []) (λ out. ok (n ∷ out.0, out.1))
        (invoke_callbacks-AllRan fuel (popped s n) waiting [] p' (omega arith))
        λ out a. none_came n waiting out.0 out.1 a)
invoke_callbacks-AllRan (suc fuel) s (n ∷ waiting) (now ∷ later) p enough =
    let p' = popped-IsPending s n waiting p in
    rw p.chain.0 (
      Returns->>= (AllRan (pushed_all waiting now) later) (AllRan (n ∷ waiting) (now ∷ later))
        (invoke_callbacks fuel (enqueue_all (popped s n) now) later) (λ out. ok (n ∷ out.0, out.1))
        (invoke_callbacks-AllRan fuel (enqueue_all (popped s n) now) (pushed_all waiting now) later
          (enqueue_all-IsPending now (popped s n) waiting p')
          (omega (arith, length-pushed_all now waiting, length-append now (concat later))))
        λ out a. some_came n waiting out.0 out.1 now later a)
