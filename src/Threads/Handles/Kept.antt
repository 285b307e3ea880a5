-- ===== src/Threads/Handles/Kept.antt =====
-- No thread is lost by the handles in src/_cmsis_rtos/_thread.cpp.
use weos.Common.{
  ℕ, ◌+◌, ◌<◌, ◌≡◌, sym, subst, arith, ◌==◌, true, if◌then◌else◌, Bool-cases, inl, inr, List, [],
  ◌∷◌,
}
use weos.Threads.Handles.{
  Handles, nothing, is_joinable, end_thread, destroy, move_assign, move_construct, create, Call,
  after, run, is_allowed, are_allowed,
}

-- How often a thread is in a list
pub count : ℕ → List ℕ → ℕ
count t [] = 0
count t (x ∷ xs) = (if x == t then 1 else 0) + count t xs

-- How many of the two handles have the thread
abbrev pub held : ℕ → Handles → ℕ
held t w = (if w.this == t then 1 else 0) + (if w.other == t then 1 else 0)

-- A thread that was created is held or has ended, once for each time.
Kept : ℕ → Handles → Type 0
Kept t w = count t w.created ≡ count t w.ended + held t w

after-Kept :
    (t : ℕ) (w : Handles) (c : Call) → 0 < t → is_allowed w c ≡ true → Kept t w → Kept t (after w c)
unfolding Kept after count is_allowed is_joinable create destroy end_thread move_assign
    move_construct
after-Kept t w (Call.starts u) p a k =
    let counted : count t w.created ≡ count t w.ended + held t w = k in ground (arith, counted, p)
after-Kept t w Call.ends p a k =
    let counted : count t w.created ≡ count t w.ended + held t w = k in ground (arith, counted, p)
after-Kept t w Call.dies p a k =
    let counted : count t w.created ≡ count t w.ended + held t w = k in ground (arith, counted, p)
after-Kept t w Call.assigns p a k =
    let counted : count t w.created ≡ count t w.ended + held t w = k in
    ground (arith, counted, p, a)
after-Kept t w Call.constructs p a k =
    let counted : count t w.created ≡ count t w.ended + held t w = k in ground (arith, counted, p)
after-Kept t w Call.turns p a k =
    let counted : count t w.created ≡ count t w.ended + held t w = k in ground (arith, counted)

run-Kept :
    (t : ℕ) (cs : List Call) (w : Handles)
    → 0 < t
    → are_allowed cs w ≡ true
    → Kept t w
    → Kept t (run cs w)
unfolding run are_allowed
run-Kept t [] w p a k = k
run-Kept t (c ∷ cs) w p a k = elim (Bool-cases w.terminated) [
  | inl e ↦ subst (λ b. Kept t (if b then w else run cs (after w c))) (sym e) k
  | inr e ↦
      let first : is_allowed w c ≡ true = ground (arith, a, e) in
      let others : are_allowed cs (after w c) ≡ true = ground (arith, a, e) in
      subst (λ b. Kept t (if b then w else run cs (after w c))) (sym e)
        (run-Kept t cs (after w c) p others (after-Kept t w c p first k))
]

-- In any calls of constructors, join or detach, destructors and move assignments on two handles, where no move assignment is
-- made to a joinable handle, every thread that was created was joined or detached, or is held by a handle, once for
-- each time that it was created.
pub threads-kept :
    (t : ℕ) (cs : List Call)
    → 0 < t
    → are_allowed cs nothing ≡ true
    → count t (run cs nothing).created ≡ count t (run cs nothing).ended + held t (run cs nothing)
unfolding Kept count
threads-kept t cs p a = run-Kept t cs nothing p a (ground (arith, p))
