-- ===== src/Atomic/Word.antt =====
-- atomic_base<T, true> and atomic_flag of src/_armcc/_atomic.hpp: threads that load and store one word of 32 bits
-- exclusively.
use weos.Common.{
  ℕ, ◌+◌, ◌-◌, ◌%◌, ◌^◌, ◌≡◌, ◌≢◌, bit_and, bit_or, bit_xor, true, false, ◌==◌, if◌then◌else◌, List,
  [], ◌∷◌,
}
use weos.Atomic.{Arith, Op, Event, refuses, outcome, IsOp}
use weos.Atomic.Monitor.{Monitors}

-- (int)(old op arg)
unfoldable pub word_modified : Arith → ℕ → ℕ → ℕ
word_modified Arith.add old arg = (old + arg) % 2 ^ 32
word_modified Arith.sub old arg = (old + 2 ^ 32 - arg) % 2 ^ 32
word_modified Arith.conjunction old arg = bit_and old arg % 2 ^ 32
word_modified Arith.disjunction old arg = bit_or old arg % 2 ^ 32
word_modified Arith.exclusive old arg = bit_xor old arg % 2 ^ 32

-- The operand of __strex, where `old` is the word that __ldrex has given
unfoldable pub stored : ℕ → Op → ℕ → ℕ
unfolding word_modified
stored size Op.load old = old
stored size (Op.store w) old = w
stored size (Op.exchange w) old = w
stored size (Op.compare_exchange expected w) old = w
stored size (Op.modify a arg) old = word_modified a (old % size) arg

-- Where a thread stands.
pub data Pc : Type 0 where
  idle : Pc
  looping : Op → Pc  -- before __ldrex
  loaded : Op → ℕ → Pc  -- before __strex, with the loaded word
  refusing : Pc  -- before __clrex

module _ (monitors : Monitors) (size : ℕ) where
  open monitors use {M, Loads, Stores, Clears}

  -- `log` has an event for each operation that has taken effect.
  pub record System : Type 0 where
    pub word : ℕ
    pub monitor : M
    pub pc : ℕ → Pc
    pub log : List Event

  abbrev pub at : (ℕ → Pc) → ℕ → Pc → ℕ → Pc
  at pc t new = λ u. if t == u then new else pc u

  abbrev pub event : ℕ → Op → ℕ → Event
  event t op word = record { thread = t; op = op; outcome = outcome op (word % size) }

  abbrev pub init : ℕ → M → System
  init word m = record { word = word; monitor = m; pc = λ t. Pc.idle; log = [] }

  pub data Step (s : System) : System → Type 0 where
    read : (t : ℕ) → s.pc t ≡ Pc.idle → Step s (record s { log = event t Op.load s.word ∷ s.log })
    call :
        (t : ℕ) (op : Op)
        → s.pc t ≡ Pc.idle
        → op ≢ Op.load
        → IsOp size op
        → Step s (record s { pc = at s.pc t (Pc.looping op) })
    load_exclusive :
        (t : ℕ) (op : Op) (m : M)
        → s.pc t ≡ Pc.looping op
        → refuses op (s.word % size) ≡ false
        → Loads s.monitor t m
        → Step s (record s { monitor = m; pc = at s.pc t (Pc.loaded op s.word) })
    load_refused :
        (t : ℕ) (op : Op) (m : M)
        → s.pc t ≡ Pc.looping op
        → refuses op (s.word % size) ≡ true
        → Loads s.monitor t m
        → Step s
            (record s { monitor = m; pc = at s.pc t Pc.refusing; log = event t op s.word ∷ s.log })
    store_exclusive :
        (t : ℕ) (op : Op) (old : ℕ) (m : M)
        → s.pc t ≡ Pc.loaded op old
        → Stores s.monitor t m
        → Step s (record {
          word = stored size op old;
          monitor = m;
          pc = at s.pc t Pc.idle;
          log = event t op old ∷ s.log;
        })
    store_failed :
        (t : ℕ) (op : Op) (old : ℕ) (m : M)
        → s.pc t ≡ Pc.loaded op old
        → Clears s.monitor t m
        → Step s (record s { monitor = m; pc = at s.pc t (Pc.looping op) })
    clear_exclusive :
        (t : ℕ) (m : M)
        → s.pc t ≡ Pc.refusing
        → Clears s.monitor t m
        → Step s (record s { monitor = m; pc = at s.pc t Pc.idle })

  pub data Reach (word : ℕ) (m : M) : System → Type 0 where
    start : Reach word m (init word m)
    next : {s t : System} → Reach word m s → Step s t → Reach word m t
