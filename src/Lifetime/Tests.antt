-- ===== src/Lifetime/Tests.antt =====
-- Runs of the two threads to their ends, and instances of the theorems.
use weos.Common.{◌≤◌, ◌≡◌, refl, inl, arith}
use weos.Lifetime.{HandlePc, InvokeePc, System, Step, Reach, after_drop, handle_accesses}
use weos.Lifetime.Reach.{start, next}
use weos.Lifetime.Safety.{IsOver, no_use_after_destroy, destroyed_once}

-- The creator has called detach and posted, and the new thread has dropped its reference.
abbrev overtaken : System
overtaken = record {
  reference_count = 1;
  joined_or_detached = 0;
  finished = 0;
  destroyed = 0;
  handle = HandlePc.detaching;
  invokee = InvokeePc.signalling;
}

overtaken-Reach : Reach overtaken
unfolding after_drop
overtaken-Reach =
    next
      (next (next (next (next start (Step.count refl)) (Step.detach refl)) (Step.finish refl))
        (Step.unpark refl (omega arith)))
      (Step.drop refl)

no_use_after_destroy_example : overtaken.destroyed ≡ 0
unfolding handle_accesses
no_use_after_destroy_example = no_use_after_destroy overtaken-Reach (inl refl)

destroyed_once_example :
    (overtaken.destroyed ≤ 1)
    × (IsOver overtaken → overtaken.destroyed ≡ 1)
    × (overtaken.handle ≡ HandlePc.join_returned → overtaken.invokee ≡ InvokeePc.ended)
destroyed_once_example = destroyed_once overtaken-Reach
