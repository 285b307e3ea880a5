-- ===== src/UniquePtr/Once.antt =====
-- Who is responsible for a pointer of src/_armcc/_memory.hpp.
use weos.Common.{ℕ, ◌+◌, ◌<◌, ◌≡◌, ◌≢◌, refl, ◌∙◌, ap, arith, ◌==◌, if◌then◌else◌, List, [], ◌∷◌}
use weos.UniquePtr.{
  Pointers, reset, release, release_other, move_assign, swap, destroy, Call, give, take, move,
  exchange, call, run, given, IsFresh, nothing,
}

-- The uses of a pointer that are over, and those that last
abbrev total : Pointers → ℕ → ℕ
total w p =
    w.deleted p + w.handed p + ((if w.this == p then 1 else 0) + (if w.other == p then 1 else 0))

total-reset :
    (q : ℕ) (w : Pointers) (p : ℕ)
    → 0 < p
    → w.this ≢ q
    → total (reset q w) p ≡ total w p + (if q == p then 1 else 0)
unfolding reset
total-reset q w p h d = ground arith

total-release : (w : Pointers) (p : ℕ) → 0 < p → total (release w) p ≡ total w p
unfolding release
total-release w p h = ground arith

total-swap : (w : Pointers) (p : ℕ) → total (swap w) p ≡ total w p
unfolding swap
total-swap w p = ground arith

total-move_assign :
    (w : Pointers) (p : ℕ)
    → 0 < p
    → (w.this ≡ w.other → w.this ≡ 0)
    → total (move_assign w) p ≡ total w p
unfolding move_assign reset release_other
total-move_assign w p h d = ground (arith, d)

total-destroy :
    (w : Pointers) (p : ℕ) → 0 < p → (destroy w).deleted p + (destroy w).handed p ≡ total w p
unfolding destroy reset swap
total-destroy w p h = ground arith

-- No pointer belongs to both.
abbrev IsApart : Pointers → Type 0
IsApart w = w.this ≡ w.other → w.this ≡ 0

reset-IsApart : (q : ℕ) (w : Pointers) → w.this ≢ q → (w.other ≡ q → q ≡ 0) → IsApart (reset q w)
unfolding reset
reset-IsApart q w d f = ground (arith, d, f)

move_assign-IsApart : (w : Pointers) → IsApart w → IsApart (move_assign w)
unfolding move_assign reset release_other
move_assign-IsApart w a = ground (arith, a)

release-IsApart : (w : Pointers) → IsApart w → IsApart (release w)
unfolding release
release-IsApart w a = λ e. refl

swap-IsApart : (w : Pointers) → IsApart w → IsApart (swap w)
unfolding swap
swap-IsApart w a = λ e. ground (arith, a, e)

run-total :
    (calls : List Call) (w : Pointers) (p : ℕ)
    → 0 < p
    → IsApart w
    → IsFresh calls w
    → total (run calls w) p ≡ total w p + given calls p
unfolding run call given
run-total [] w p h a f = ground arith
run-total (give q ∷ cs) w p h a (d, e, f) =
    let rest = run-total cs (reset q w) p h (reset-IsApart q w d e) f in
    let first = total-reset q w p h d in rest ∙ ap (λ z. z + given cs p) first ∙ ground arith
run-total (take ∷ cs) w p h a f =
    run-total cs (release w) p h (release-IsApart w a) f
    ∙ ap (λ z. z + given cs p) (total-release w p h)
run-total (move ∷ cs) w p h a f =
    run-total cs (move_assign w) p h (move_assign-IsApart w a) f
    ∙ ap (λ z. z + given cs p) (total-move_assign w p h a)
run-total (exchange ∷ cs) w p h a f =
    run-total cs (swap w) p h (swap-IsApart w a) f ∙ ap (λ z. z + given cs p) (total-swap w p)

-- Two unique_ptrs that start empty, go through any calls of reset with pointers that neither of them has,
-- release, move assignment and swap, and are then destroyed: every pointer has been deleted or released
-- to the caller exactly as often as it was given.
pub run-destroyed :
    (calls : List Call) (p : ℕ)
    → 0 < p
    → IsFresh calls nothing
    → (destroy (run calls nothing)).deleted p + (destroy (run calls nothing)).handed p
      ≡ given calls p
run-destroyed calls p h f =
    total-destroy (run calls nothing) p h ∙ run-total calls nothing p h (λ e. refl) f ∙ ground arith
