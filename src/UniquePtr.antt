-- ===== src/UniquePtr.antt =====
-- unique_ptr of src/_armcc/_memory.hpp: two of them, with a deleter that has no state. The null pointer is 0.
pub mod Once
mod Tests
use weos.Common.{ℕ, ◌+◌, ◌≡◌, ◌≢◌, ◌==◌, Bool, if◌then◌else◌, List, [], ◌∷◌}

-- `deleted` counts the calls of the deleter on a pointer, `handed` those of release that gave it away.
pub record Pointers : Type 0 where
  pub this : ℕ
  pub other : ℕ
  pub deleted : ℕ → ℕ
  pub handed : ℕ → ℕ

abbrev pub tally : (ℕ → ℕ) → ℕ → ℕ → ℕ
tally f p q = if p == q then f q + 1 else f q

-- reset(ptr)
pub reset : ℕ → Pointers → Pointers
reset p w =
    let replaced : Pointers = record w { this = p } in
    let cleaned : Pointers = record replaced { deleted = tally w.deleted w.this } in
    if w.this == p then w else if w.this == 0 then replaced else cleaned

-- release(), on the other pointer
pub release_other : Pointers → ℕ × Pointers
release_other w = (w.other, record w { other = 0 })

-- release(), on *this, by a caller who keeps the pointer
pub release : Pointers → Pointers
release w = record w { this = 0; handed = tally w.handed w.this }

-- operator=(unique_ptr&&), from the other pointer
pub move_assign : Pointers → Pointers
unfolding reset release_other
move_assign w = let (p, emptied) = release_other w in reset p emptied

-- swap
pub swap : Pointers → Pointers
swap w = record w { this = w.other; other = w.this }

-- ~unique_ptr of *this, and of the other one
pub destroy : Pointers → Pointers
unfolding reset swap
destroy w = swap (reset 0 (swap (reset 0 w)))

pub data Call : Type 0 where
  give : ℕ → Call  -- reset(ptr)
  take move exchange : Call  -- release, operator= and swap

pub call : Call → Pointers → Pointers
unfolding reset release move_assign swap
call (give p) w = reset p w
call take w = release w
call move w = move_assign w
call exchange w = swap w

pub run : List Call → Pointers → Pointers
unfolding call
run [] w = w
run (c ∷ cs) w = run cs (call c w)

-- How often a pointer is given to reset
pub given : List Call → ℕ → ℕ
given [] p = 0
given (give q ∷ cs) p = (if q == p then 1 else 0) + given cs p
given (c ∷ cs) p = given cs p

-- No pointer is given that one of the two has.
abbrev pub IsFresh : List Call → Pointers → Type 0
IsFresh [] w = Unit
IsFresh (give p ∷ cs) w = (w.this ≢ p) × (w.other ≡ p → p ≡ 0) × IsFresh cs (call (give p) w)
IsFresh (c ∷ cs) w = IsFresh cs (call c w)

abbrev pub nothing : Pointers
nothing = record { this = 0; other = 0; deleted = λ p. 0; handed = λ p. 0 }
