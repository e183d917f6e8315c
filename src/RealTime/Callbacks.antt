-- ===== src/RealTime/Callbacks.antt =====
-- main.c of the real-time core: `EnqueueCallback` and `InvokeCallbacks`. A node stands for its
-- callback.
pub mod Pending
pub mod Invoke
use modbus_sphere_library.Base.{
  ℕ, zero, suc, ◌+◌, List, [], ◌∷◌, Bool, true, false, Option, none, some, ◌==◌, if◌then◌else◌,
}
use modbus_sphere_library.Outcome.{Outcome, ok, hang, ◌>>=◌}

pub record CallbackNode : Type 0 where
  pub enqueued : Bool
  pub next : Option ℕ

-- `callbacks`, and the nodes in memory.
pub record Callbacks : Type 0 where
  pub head : Option ℕ
  pub node_at : ℕ → CallbackNode

abbrev pub with_node : (ℕ → CallbackNode) → ℕ → CallbackNode → ℕ → CallbackNode
with_node node_at n node k = if k == n then node else node_at k

unfoldable pub enqueue_callback : Callbacks → ℕ → Callbacks
enqueue_callback s n = if (s.node_at n).enqueued then s else record {
  head = some n;
  node_at = with_node s.node_at n (record { enqueued = true; next = s.head });
}

-- What happens with the interrupts blocked in each round of the loop.
unfoldable pub take_callback : Callbacks → Option ℕ × Callbacks
take_callback s = elim s.head [
  | none ↦ (none, s)
  | some n ↦ (
    some n,
    record {
      head = (s.node_at n).next;
      node_at = with_node s.node_at n (record (s.node_at n) { enqueued = false });
    },
  )
]

-- The interrupts that come while one callback runs.
unfoldable pub enqueue_all : Callbacks → List ℕ → Callbacks
enqueue_all s [] = s
enqueue_all s (n ∷ ns) = enqueue_all (enqueue_callback s n) ns

-- The head and the tail, both empty for an empty list.
unfoldable pub next_arrivals : List (List ℕ) → List ℕ × List (List ℕ)
next_arrivals [] = ([], [])
next_arrivals (now ∷ later) = (now, later)

-- The loop with fuel. `arrivals` are the nodes enqueued while each callback runs; the results are
-- the nodes whose callbacks ran, the state, and the arrivals that are left.
unfoldable pub invoke_callbacks :
    ℕ → Callbacks → List (List ℕ) → Outcome (List ℕ × (Callbacks × List (List ℕ)))
invoke_callbacks zero s arrivals = hang
invoke_callbacks (suc fuel) s arrivals =
    let (node, s') = take_callback s in
    let (now, later) = next_arrivals arrivals in
    elim node [
      | none ↦ ok ([], (s', arrivals))
      | some n ↦ (do
        (ran, rest) ← invoke_callbacks fuel (enqueue_all s' now) later
        ok (n ∷ ran, rest))
    ]
