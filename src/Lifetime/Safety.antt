-- ===== src/Lifetime/Safety.antt =====
-- What holds of every interleaving of weos_threadInvoker with join or detach of
-- src/_cmsis_rtos/_thread.cpp.
use weos.Common.{ℕ, ◌+◌, ◌<◌, ◌≤◌, ◌≡◌, refl, ◌⊎◌, inl, inr, true, some, arith}
use weos.Lifetime.{
  HandlePc, InvokeePc, System, Step, Reach, handle_accesses, invokee_accesses, after_drop,
}
use weos.Lifetime.Invariant.{expected, Reach-Inv}

-- Both threads are through with the shared state.
abbrev pub IsOver : System → Type 0
IsOver s =
    ((s.handle ≡ HandlePc.join_returned) ⊎ (s.handle ≡ HandlePc.detach_returned))
    × ((s.invokee ≡ InvokeePc.ended) ⊎ (s.invokee ≡ InvokeePc.ended_alone))

accesses-Inv :
    (h : HandlePc) (i : InvokeePc) (s : System)
    → expected h i ≡ some s
    → (handle_accesses h ≡ true) ⊎ (invokee_accesses i ≡ true)
    → s.destroyed ≡ 0
unfolding handle_accesses invokee_accesses
accesses-Inv h i s e a = ground arith

-- In no reachable state is the shared state destroyed while the next step of the handle's owner or of
-- the new thread accesses it.
pub no_use_after_destroy :
    {s : System}
    → Reach s
    → (handle_accesses s.handle ≡ true) ⊎ (invokee_accesses s.invokee ≡ true)
    → s.destroyed ≡ 0
no_use_after_destroy {s} r a = accesses-Inv s.handle s.invokee s (Reach-Inv r) a

over-Inv :
    (h : HandlePc) (i : InvokeePc) (s : System)
    → expected h i ≡ some s
    → (s.destroyed ≤ 1)
      × (((h ≡ HandlePc.join_returned) ⊎ (h ≡ HandlePc.detach_returned))
            × ((i ≡ InvokeePc.ended) ⊎ (i ≡ InvokeePc.ended_alone))
          → s.destroyed ≡ 1)
      × (h ≡ HandlePc.join_returned → i ≡ InvokeePc.ended)
over-Inv h i s e = (ground arith, λ o. ground arith, λ o. ground arith)

-- The shared state is destroyed at most once, and exactly once when both threads are through with it.
-- When join has returned, the thread has terminated.
pub destroyed_once :
    {s : System}
    → Reach s
    → (s.destroyed ≤ 1)
      × (IsOver s → s.destroyed ≡ 1)
      × (s.handle ≡ HandlePc.join_returned → s.invokee ≡ InvokeePc.ended)
destroyed_once {s} r = over-Inv s.handle s.invokee s (Reach-Inv r)

-- How many steps the handle's owner, or the new thread, has before it at most.
abbrev handle_left : HandlePc → ℕ
handle_left HandlePc.creating = 5
handle_left HandlePc.owning = 4
handle_left HandlePc.joining = 3
handle_left HandlePc.joined = 2
handle_left HandlePc.join_destroying = 1
handle_left HandlePc.join_returned = 0
handle_left HandlePc.detaching = 3
handle_left HandlePc.awaiting = 2
handle_left HandlePc.detach_destroying = 1
handle_left HandlePc.detach_returned = 0

abbrev invokee_left : InvokeePc → ℕ
invokee_left InvokeePc.running = 5
invokee_left InvokeePc.parked = 4
invokee_left InvokeePc.leaving = 3
invokee_left InvokeePc.last = 2
invokee_left InvokeePc.exiting = 1
invokee_left InvokeePc.signalling = 1
invokee_left InvokeePc.ended = 0
invokee_left InvokeePc.ended_alone = 0

abbrev pub steps_left : System → ℕ
steps_left s = handle_left s.handle + invokee_left s.invokee

-- Every step brings the two threads nearer to their ends.
pub Step-steps_left : {s t : System} → Step s t → steps_left t < steps_left s
unfolding after_drop
Step-steps_left (Step.count h) = ground arith
Step-steps_left (Step.join h) = ground arith
Step-steps_left (Step.join_wait h p) = ground arith
Step-steps_left (Step.join_drop h) = ground arith
Step-steps_left (Step.join_destroy h) = ground arith
Step-steps_left (Step.detach h) = ground arith
Step-steps_left (Step.detach_drop h) = ground arith
Step-steps_left (Step.detach_wait h p) = ground arith
Step-steps_left (Step.detach_destroy h) = ground arith
Step-steps_left (Step.finish h) = ground arith
Step-steps_left (Step.unpark h p) = ground arith
Step-steps_left (Step.drop h) = ground arith
Step-steps_left (Step.destroy h) = ground arith
Step-steps_left (Step.terminate h) = ground arith
Step-steps_left (Step.signal h) = ground arith

abbrev Moves : System → Type 0
Moves s = (t : System) × Step s t

-- The next step of the handle's owner, unless it waits for a token.
handle-Moves :
    (s : System) (h : HandlePc)
    → s.handle ≡ h
    → Moves s
      ⊎ ((h ≡ HandlePc.joining) ⊎ (h ≡ HandlePc.awaiting))
      ⊎ ((h ≡ HandlePc.join_returned) ⊎ (h ≡ HandlePc.detach_returned))
handle-Moves s HandlePc.creating e = inl (_, Step.count e)
handle-Moves s HandlePc.owning e = inl (_, Step.join e)
handle-Moves s HandlePc.joining e = inr (inl (inl refl))
handle-Moves s HandlePc.joined e = inl (_, Step.join_drop e)
handle-Moves s HandlePc.join_destroying e = inl (_, Step.join_destroy e)
handle-Moves s HandlePc.join_returned e = inr (inr (inl refl))
handle-Moves s HandlePc.detaching e = inl (_, Step.detach_drop e)
handle-Moves s HandlePc.awaiting e = inr (inl (inr refl))
handle-Moves s HandlePc.detach_destroying e = inl (_, Step.detach_destroy e)
handle-Moves s HandlePc.detach_returned e = inr (inr (inr refl))

invokee-Moves :
    (s : System) (i : InvokeePc)
    → s.invokee ≡ i
    → Moves s ⊎ (i ≡ InvokeePc.parked) ⊎ ((i ≡ InvokeePc.ended) ⊎ (i ≡ InvokeePc.ended_alone))
invokee-Moves s InvokeePc.running e = inl (_, Step.finish e)
invokee-Moves s InvokeePc.parked e = inr (inl refl)
invokee-Moves s InvokeePc.leaving e = inl (_, Step.drop e)
invokee-Moves s InvokeePc.last e = inl (_, Step.destroy e)
invokee-Moves s InvokeePc.exiting e = inl (_, Step.terminate e)
invokee-Moves s InvokeePc.signalling e = inl (_, Step.signal e)
invokee-Moves s InvokeePc.ended e = inr (inr (inl refl))
invokee-Moves s InvokeePc.ended_alone e = inr (inr (inr refl))

-- The tokens that the waits ask for.
parked-Inv :
    (h : HandlePc) (i : InvokeePc) (s : System)
    → expected h i ≡ some s
    → i ≡ InvokeePc.parked
    → ((h ≡ HandlePc.joining) ⊎ (h ≡ HandlePc.awaiting))
      ⊎ ((h ≡ HandlePc.join_returned) ⊎ (h ≡ HandlePc.detach_returned))
    → 0 < s.joined_or_detached
parked-Inv h i s e p w = ground arith

waiting-Inv :
    (h : HandlePc) (i : InvokeePc) (s : System)
    → expected h i ≡ some s
    → (h ≡ HandlePc.joining) ⊎ (h ≡ HandlePc.awaiting)
    → (i ≡ InvokeePc.ended) ⊎ (i ≡ InvokeePc.ended_alone)
    → 0 < s.finished
waiting-Inv h i s e w o = ground arith

wait-Moves :
    (s : System)
    → (s.handle ≡ HandlePc.joining) ⊎ (s.handle ≡ HandlePc.awaiting)
    → 0 < s.finished
    → Moves s
wait-Moves s (inl h) p = (_, Step.join_wait h p)
wait-Moves s (inr h) p = (_, Step.detach_wait h p)

-- No deadlock: until both threads are through, one of them can take a step.
pub no_deadlock : {s : System} → Reach s → IsOver s ⊎ ((t : System) × Step s t)
no_deadlock {s} r = elim (handle-Moves s s.handle refl) [
  | inl m ↦ inr m
  | inr stuck ↦ elim (invokee-Moves s s.invokee refl) [
    | inl m ↦ inr m
    | inr (inl e) ↦ inr (_, Step.unpark e (parked-Inv s.handle s.invokee s (Reach-Inv r) e stuck))
    | inr (inr o) ↦ elim stuck [
      | inl w ↦ inr (wait-Moves s w (waiting-Inv s.handle s.invokee s (Reach-Inv r) w o))
      | inr d ↦ inl (d, o)
    ]
  ]
]
