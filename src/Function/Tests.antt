-- ===== src/Function/Tests.antt =====
-- The theorems on std::function, applied to a function with its callable in a block and one in place.
use weos.Common.{ℕ, refl, arith, none, some, ◌==◌, if◌then◌else◌}
use weos.Function.{Invoker, Heap, Function, copy_assign, owns, IsFunction}
use weos.Function.Assign.{Assigned, Apart, copy_assign-Assigned}

abbrev blocks : Heap ℕ
blocks a = if a == 16 then some 5 else none

abbrev large : Function ℕ
large = record { storage = none; invoker = Invoker.block 16 }

abbrev small : Function ℕ
small = record { storage = some 7; invoker = Invoker.inplace }

large-IsFunction : IsFunction ℕ blocks large
large-IsFunction = (refl, 5, refl)

small-IsFunction : IsFunction ℕ blocks small
small-IsFunction = (7, refl)

Apart-small : Apart ℕ small large
unfolding owns
Apart-small b o = refl

Apart-large : Apart ℕ large small
unfolding owns
Apart-large b o = absurd (ground arith)

copy_assign-Assigned_example :
    Assigned ℕ 32 blocks
      (copy_assign ℕ 32 blocks small large).0
      small
      large
      (copy_assign ℕ 32 blocks small large).1
copy_assign-Assigned_example =
    copy_assign-Assigned ℕ 32 blocks small large small-IsFunction large-IsFunction Apart-small refl
