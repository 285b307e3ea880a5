-- ===== src/Tq/Chain.antt =====
-- The list of addresses that a queue of src/_cmsis_rtos/_tq.cpp stands for.
use weos.Common.{ℕ, ◌%◌, ◌<◌, ◌≡◌, List, [], ◌∷◌, Absent, Distinct, arith, ◌==◌, Bool, false, ◌||◌}
use weos.Tq.{Node, Queue, update, link_of}

-- Addresses of nodes are multiples of 4, and a waiting node's flags are clear.
abbrev pub IsWaiting : (ℕ → Node) → ℕ → Type 0
IsWaiting node x = (0 < x) × (x % 4 ≡ 0) × ((node x).v % 4 ≡ 0)

-- From the address `a` the links lead through `xs` and end.
abbrev pub Chain : (ℕ → Node) → ℕ → List ℕ → Type 0
Chain node a [] = a ≡ 0
Chain node a (x ∷ xs) = (a ≡ x) × IsWaiting node x × Chain node (link_of (node x).v) xs

-- The threads `xs` wait in the queue, in this order.
pub record IsQueue (q : Queue) (xs : List ℕ) : Type 0 where
  pub chain : Chain q.node q.head xs
  pub distinct : Distinct xs

abbrev pub contains : ℕ → List ℕ → Bool
contains y [] = false
contains y (x ∷ xs) = (x == y) || contains y xs

-- A write to a node elsewhere leaves a chain alone.
pub Chain-update :
    (node : ℕ → Node) (t : ℕ) (n : Node) (a : ℕ) (xs : List ℕ)
    → Absent t xs
    → Chain node a xs
    → Chain (update node t n) a xs
Chain-update node t n a [] d c = c
Chain-update node t n a (x ∷ xs) (d, ds) (e, w, c) =
    let rest = Chain-update node t n (link_of (node x).v) xs ds c in (e, ground arith, ground arith)
