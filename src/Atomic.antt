-- ===== src/Atomic.antt =====
-- src/_armcc/_atomic.hpp: the operations of an atomic unsigned integer, as the values that they take and give.
-- `size` is the number of values of the type. Memory orders are not modelled.
pub mod Monitor
pub mod Word
pub mod Linear
pub mod Locked
pub mod Flag
pub mod Operators
mod Tests
use weos.Common.{
  ℕ, ◌+◌, ◌-◌, ◌%◌, ◌<◌, ◌≡◌, bit_and, bit_or, bit_xor, Bool, true, false, not, ◌==◌, if◌then◌else◌,
  List, [], ◌∷◌,
}

-- The operators that WEOS_ATOMIC_MODIFY and WEOS_LOCKED_MODIFY are used with
pub data Arith : Type 0 where
  add sub conjunction disjunction exclusive : Arith

-- The operations. A word that is stored is the one at the address of the argument: the argument has its
-- low bits, and what lies behind it in memory the others.
pub data Op : Type 0 where
  load : Op
  store exchange : ℕ → Op
  compare_exchange : ℕ → ℕ → Op
  modify : Arith → ℕ → Op

-- What an operation gives: nothing, the old value, true, or false and the value for `expected`.
pub data Outcome : Type 0 where
  done : Outcome
  returned : ℕ → Outcome
  exchanged : Outcome
  refused : ℕ → Outcome

pub record Event : Type 0 where
  pub thread : ℕ
  pub op : Op
  pub outcome : Outcome

-- The value of `old op arg`, where arithmetic is that of numbers below `size`.
pub modified : ℕ → Arith → ℕ → ℕ → ℕ
modified size Arith.add old arg = (old + arg) % size
modified size Arith.sub old arg = (old + size - arg) % size
modified size Arith.conjunction old arg = bit_and old arg % size
modified size Arith.disjunction old arg = bit_or old arg % size
modified size Arith.exclusive old arg = bit_xor old arg % size

-- Does a compare_exchange refuse the value?
abbrev pub refuses : Op → ℕ → Bool
refuses (Op.compare_exchange expected w) old = not (old == expected)
refuses _ old = false

-- The operations, without interruption, on a value: the abstract specification.
pub outcome : Op → ℕ → Outcome
outcome Op.load old = Outcome.returned old
outcome (Op.store w) old = Outcome.done
outcome (Op.exchange w) old = Outcome.returned old
outcome (Op.compare_exchange expected w) old =
    if old == expected then Outcome.exchanged else Outcome.refused old
outcome (Op.modify a arg) old = Outcome.returned old

pub next_value : ℕ → Op → ℕ → ℕ
unfolding modified
next_value size Op.load old = old
next_value size (Op.store w) old = w % size
next_value size (Op.exchange w) old = w % size
next_value size (Op.compare_exchange expected w) old = if old == expected then w % size else old
next_value size (Op.modify a arg) old = modified size a old arg

-- The events, the newest first, are operations without interruption, one after the other, from the
-- value `first` to the value `last`.
abbrev pub Executes : ℕ → ℕ → List Event → ℕ → Type 0
Executes size first [] last = first ≡ last
Executes size first (e ∷ es) last =
    (value : ℕ) × Executes size first es value
    × (outcome e.op value ≡ e.outcome)
    × (next_value size e.op value ≡ last)

-- The operands of an operator are values of the type.
abbrev pub IsOp : ℕ → Op → Type 0
IsOp size (Op.modify a arg) = arg < size
IsOp size _ = Unit
