-- ===== src/RealTime/Callbacks/Pending.antt =====
-- The nodes that wait in the list of callbacks.
use modbus_sphere_library.Base.{
  ℕ, ◌+◌, ◌≤◌, ◌≡◌, refl, sym, ap, ◌∙◌, List, [], ◌∷◌, ◌++◌, Bool, true, false, ◌||◌, Option, none,
  some, inl, inr, Bool-cases, arith, ◌==◌, if◌then◌else◌, length,
}
use modbus_sphere_library.RealTime.Callbacks.{
  CallbackNode, Callbacks, with_node, enqueue_callback, enqueue_all,
}

unfoldable pub mem : ℕ → List ℕ → Bool
mem n [] = false
mem n (x ∷ xs) = (n == x) || mem n xs

-- The list from `head` on: its nodes in order, none of them twice.
abbrev pub Chain : (ℕ → CallbackNode) → Option ℕ → List ℕ → Type 0
Chain node_at head [] = head ≡ none
Chain node_at head (n ∷ ns) =
    (head ≡ some n) × (mem n ns ≡ false) × Chain node_at (node_at n).next ns

-- A state in which exactly the nodes of `waiting` are in the list, and are marked so.
pub record IsPending (s : Callbacks) (waiting : List ℕ) : Type 0 where
  pub chain : Chain s.node_at s.head waiting
  pub marked : (n : ℕ) → (s.node_at n).enqueued ≡ mem n waiting

-- A change of a node that is not in the list.
Chain-with_node :
    (node_at : ℕ → CallbackNode) (head : Option ℕ) (waiting : List ℕ) (n : ℕ) (node : CallbackNode)
    → mem n waiting ≡ false
    → Chain node_at head waiting
    → Chain (with_node node_at n node) head waiting
unfolding mem
Chain-with_node node_at head [] n node h c = c
Chain-with_node node_at head (x ∷ xs) n node h c =
    let other : (x == n) ≡ false = ground arith in
    let not_later : mem n xs ≡ false = ground arith in
    (c.0, c.1, rw other (Chain-with_node node_at (node_at x).next xs n node not_later c.2))

abbrev pub pushed : List ℕ → ℕ → List ℕ
pushed waiting n = if mem n waiting then waiting else n ∷ waiting

pub enqueue_callback-IsPending :
    (s : Callbacks) (waiting : List ℕ) (n : ℕ)
    → IsPending s waiting
    → IsPending (enqueue_callback s n) (pushed waiting n)
unfolding enqueue_callback mem
enqueue_callback-IsPending s waiting n p = elim (Bool-cases (mem n waiting)) [
  | inl e ↦ rw (p.marked n, e) p
  | inr e ↦
      let self : (n == n) ≡ true = ground arith in
      rw (p.marked n, e)
        (record {
          chain = (refl, e, rw self (Chain-with_node s.node_at s.head waiting n _ e p.chain));
          marked =
              λ k. elim (Bool-cases (k == n)) [ inl e' ↦ rw e' refl | inr e' ↦ rw e' (p.marked k) ];
        })
]

-- After the first node has been taken out.
abbrev pub popped : Callbacks → ℕ → Callbacks
popped s n = record {
  head = (s.node_at n).next;
  node_at = with_node s.node_at n (record (s.node_at n) { enqueued = false });
}

pub popped-IsPending :
    (s : Callbacks) (n : ℕ) (waiting : List ℕ)
    → IsPending s (n ∷ waiting)
    → IsPending (popped s n) waiting
unfolding mem
popped-IsPending s n waiting p = record {
  chain = Chain-with_node s.node_at (s.node_at n).next waiting n _ p.chain.1 p.chain.2;
  marked = λ k. elim (Bool-cases (k == n)) [
    | inl e ↦
        let same : k ≡ n = ground arith in rw e (sym (ap (λ i. mem i waiting) same ∙ p.chain.1))
    | inr e ↦
        let here : (s.node_at k).enqueued ≡ mem k waiting =
          p.marked k ∙ ap (λ b. b || mem k waiting) e in
        rw e here
  ];
}

abbrev pub pushed_all : List ℕ → List ℕ → List ℕ
pushed_all waiting [] = waiting
pushed_all waiting (n ∷ ns) = pushed_all (pushed waiting n) ns

pub enqueue_all-IsPending :
    (ns : List ℕ) (s : Callbacks) (waiting : List ℕ)
    → IsPending s waiting
    → IsPending (enqueue_all s ns) (pushed_all waiting ns)
unfolding enqueue_all
enqueue_all-IsPending [] s waiting p = p
enqueue_all-IsPending (n ∷ ns) s waiting p =
    enqueue_all-IsPending ns (enqueue_callback s n) (pushed waiting n)
      (enqueue_callback-IsPending s waiting n p)

-- Each of `ns` is in `waiting`.
abbrev pub AllIn : List ℕ → List ℕ → Type 0
AllIn waiting [] = Unit {0}
AllIn waiting (n ∷ ns) = (mem n waiting ≡ true) × AllIn waiting ns

abbrev pub concat : List (List ℕ) → List ℕ
concat [] = []
concat (now ∷ later) = now ++ concat later

-- All callbacks that waited, and all of the interrupts that came up to the end, have run; none
-- waits any more.
pub record AllRan (waiting : List ℕ) (arrivals : List (List ℕ))
    (out : List ℕ × (Callbacks × List (List ℕ))) : Type 0 where
  pub came : List (List ℕ)
  pub in_order : arrivals ≡ came ++ out.1.1
  pub waited_ran : AllIn out.0 waiting
  pub came_ran : AllIn out.0 (concat came)
  pub none_waits : IsPending out.1.0 []
  pub bounded : length out.0 ≤ length waiting + length (concat came)
