-- ===== src/Function.antt =====
-- std::function of src/_armcc/_functional.hpp: a callable that fits lies in the storage of the function, and a larger
-- one in a block of the heap. A copy of a callable equals it, and copying does not throw. The allocator
-- gives a block that is not in use, which is an argument.
pub mod Swap
pub mod Assign
pub mod Move
mod Tests
use weos.Common.{ℕ, ◌≡◌, ◌≢◌, ◌==◌, Bool, true, false, if◌then◌else◌, Option, none, some}

-- m_invoker: null, a pointer to m_storage, or the address of a block
pub data Invoker : Type 0 where
  null inplace : Invoker
  block : ℕ → Invoker

module _ (C : Type 0) where
  -- The blocks in use
  abbrev pub Heap : Type 0
  Heap = ℕ → Option C

  pub record Function : Type 0 where
    pub storage : Option C
    pub invoker : Invoker

  abbrev pub put : Heap → ℕ → Option C → Heap
  put heap a c b = if a == b then c else heap b

  -- function()
  abbrev pub empty : Function
  empty = record { storage = none; invoker = Invoker.null }

  -- function(TCallable), where `fits` tells whether the callable lies in place.
  pub construct : Bool → ℕ → Heap → C → Heap × Function
  construct fits a heap c =
      if fits
      then (heap, record { storage = some c; invoker = Invoker.inplace })
      else (put heap a (some c), record { storage = none; invoker = Invoker.block a })

  -- function(const function&)
  pub copy : ℕ → Heap → Function → Heap × Function
  copy a heap other = elim other.invoker [
    | null ↦ (heap, empty)
    | inplace ↦ (heap, record { storage = other.storage; invoker = Invoker.inplace })
    | block b ↦ (put heap a (heap b), record { storage = none; invoker = Invoker.block a })
  ]

  -- function(function&&): the new function, and the one that is moved from.
  pub move : Function → Function × Function
  move other = elim other.invoker [
    | null ↦ (empty, other)
    | inplace ↦ (record { storage = other.storage; invoker = Invoker.inplace }, other)
    | block b ↦ (
      record { storage = none; invoker = Invoker.block b },
      record other { invoker = Invoker.null },
    )
  ]

  -- release() and ~function
  pub release : Heap → Function → Heap × Function
  release heap f = elim f.invoker [
    | null ↦ (heap, record f { invoker = Invoker.null })
    | inplace ↦ (heap, empty)
    | block b ↦ (put heap b none, record f { invoker = Invoker.null })
  ]

  -- swap of *this and another function
  pub swap : Function → Function → Function × Function
  swap f g = elim f.invoker [
    | inplace ↦ elim g.invoker [
      | inplace ↦ (record f { storage = g.storage }, record g { storage = f.storage })
      | _ ↦ (
        record { storage = none; invoker = g.invoker },
        record { storage = f.storage; invoker = Invoker.inplace },
      )
    ]
    | _ ↦ elim g.invoker [
      | inplace ↦ (
        record { storage = g.storage; invoker = Invoker.inplace },
        record { storage = none; invoker = f.invoker },
      )
      | _ ↦ (record f { invoker = g.invoker }, record g { invoker = f.invoker })
    ]
  ]

  -- operator=(const function&): function(other).swap(*this)
  pub copy_assign : ℕ → Heap → Function → Function → Heap × Function
  unfolding copy swap release
  copy_assign a heap f other =
      let (copied, temporary) = copy a heap other in
      let (old, f') = swap temporary f in let (left, gone) = release copied old in (left, f')

  -- operator=(function&&) from another function
  pub move_assign : Heap → Function → Function → Heap × (Function × Function)
  unfolding move release
  move_assign heap f other =
      let (left, gone) = release heap f in
      elim other.invoker [
        | inplace ↦ (left, (record { storage = other.storage; invoker = Invoker.inplace }, other))
        | _ ↦ (
          left,
          (record gone { invoker = other.invoker }, record other { invoker = Invoker.null }),
        )
      ]

  -- The callable that operator() calls; without one it throws bad_function_call.
  pub target : Heap → Function → Option C
  target heap f = elim f.invoker [ null ↦ none | inplace ↦ f.storage | block b ↦ heap b ]

  -- Is the block that of the function?
  pub owns : Function → ℕ → Bool
  owns f b = elim f.invoker [ null ↦ false | inplace ↦ false | block a ↦ a == b ]

  -- The function has its callable where m_invoker points, and no other.
  abbrev pub IsFunction : Heap → Function → Type 0
  IsFunction heap f = elim f.invoker [
    | null ↦ f.storage ≡ none
    | inplace ↦ (c : C) × (f.storage ≡ some c)
    | block b ↦ (f.storage ≡ none) × (c : C) × (heap b ≡ some c)
  ]
