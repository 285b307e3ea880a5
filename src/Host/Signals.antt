-- ===== src/Host/Signals.antt =====
-- The signals of a thread in src/_cxx11/_thread.cpp and _thread.hpp. A signal_set is the function that tells which of the
-- bits of its std::uint16_t are set. Every access to m_signalFlags holds m_mutex, so each critical section is
-- one step; only the thread itself waits for its signals.
pub mod Delivered
pub mod Awake
pub mod Selected
mod Tests
use weos.Common.{
  ℕ, zero, suc, ◌+◌, ◌≡◌, Bool, true, false, not, ◌&&◌, ◌||◌, if◌then◌else◌, Option, none, some,
}

abbrev pub SignalSet : Type 0
SignalSet = ℕ → Bool

abbrev pub no_signals : SignalSet
no_signals i = false

-- flags != 0, for the bits below the number
pub is_any : ℕ → SignalSet → Bool
is_any zero flags = false
is_any (suc n) flags = flags n || is_any n flags

-- (flags & selected) == selected, for the bits below the number
pub has_all : ℕ → SignalSet → SignalSet → Bool
has_all zero selected flags = true
has_all (suc n) selected flags = (not (selected n) || flags n) && has_all n selected flags

-- flags | selected
abbrev pub united : SignalSet → SignalSet → SignalSet
united selected flags i = flags i || selected i

-- flags & ~selected
abbrev pub without : SignalSet → SignalSet → SignalSet
without selected flags i = flags i && not (selected i)

-- What a thread waits for.
pub data Wait : Type 0 where
  any : Wait
  all : SignalSet → Wait

-- The predicate of the wait.
pub is_ready : Wait → SignalSet → Bool
is_ready Wait.any flags = is_any 16 flags
is_ready (Wait.all selected) flags = has_all 16 selected flags

-- The signals that a wait takes, and m_signalFlags after it.
pub taken : Wait → SignalSet → SignalSet
taken Wait.any flags = flags
taken (Wait.all selected) flags = selected

pub left : Wait → SignalSet → SignalSet
left Wait.any flags = no_signals
left (Wait.all selected) flags = without selected flags

-- try_wait_for_any_signal: the result, and m_signalFlags
pub try_wait_for_any_signal : SignalSet → SignalSet × SignalSet
try_wait_for_any_signal flags = (flags, no_signals)

-- temp of try_wait_for_all_signals
pub granted : SignalSet → SignalSet → SignalSet
granted selected flags = if has_all 16 selected flags then selected else no_signals

-- try_wait_for_all_signals
pub try_wait_for_all_signals : SignalSet → SignalSet → Bool × SignalSet
try_wait_for_all_signals selected flags =
    (is_any 16 (granted selected flags), without (granted selected flags) flags)

-- Where the thread stands: elsewhere, before a test of the predicate, or in the wait of the condition variable. A timed
-- wait may end without its signals.
pub data Pc : Type 0 where
  running : Pc
  testing asleep : Bool → Wait → Pc

-- notify_one
pub notified : Pc → Pc
notified (Pc.asleep timed w) = Pc.testing timed w
notified p = p

-- How often each bit was raised by set_signals, was given to the thread, and was reset by clear_signals.
pub record System : Type 0 where
  pub flags : SignalSet
  pub pc : Pc
  pub raised : ℕ → ℕ
  pub given : ℕ → ℕ
  pub cleared : ℕ → ℕ

abbrev pub init : System
init = record {
  flags = no_signals;
  pc = Pc.running;
  raised = λ i. 0;
  given = λ i. 0;
  cleared = λ i. 0;
}

-- One more for the bits of the set
abbrev pub counted : SignalSet → (ℕ → ℕ) → ℕ → ℕ
counted signals counts i = if signals i then suc (counts i) else counts i

abbrev pub both : SignalSet → SignalSet → SignalSet
both a b i = a i && b i

pub data Step (s : System) : System → Type 0 where
  set_signals :
      (selected : SignalSet)
      → Step s (record s {
        flags = united selected s.flags;
        pc = notified s.pc;
        raised = counted (without s.flags selected) s.raised;
      })
  clear_signals :
      (selected : SignalSet)
      → Step s (record s {
        flags = without selected s.flags;
        pc = notified s.pc;
        cleared = counted (both selected s.flags) s.cleared;
      })
  begin :
      (timed : Bool) (w : Wait) → s.pc ≡ Pc.running → Step s (record s { pc = Pc.testing timed w })
  pass :
      (timed : Bool) (w : Wait)
      → s.pc ≡ Pc.testing timed w
      → is_ready w s.flags ≡ true
      → Step s (record s {
        flags = left w s.flags;
        pc = Pc.running;
        given = counted (both (taken w s.flags) s.flags) s.given;
      })
  sleep :
      (timed : Bool) (w : Wait)
      → s.pc ≡ Pc.testing timed w
      → is_ready w s.flags ≡ false
      → Step s (record s { pc = Pc.asleep timed w })
  wake :
      (timed : Bool) (w : Wait)
      → s.pc ≡ Pc.asleep timed w
      → Step s (record s { pc = Pc.testing timed w })
  timeout :
      (w : Wait)
      → s.pc ≡ Pc.testing true w
      → is_ready w s.flags ≡ false
      → Step s (record s { pc = Pc.running })
  try_any :
      s.pc ≡ Pc.running
      → Step s (record s {
        flags = (try_wait_for_any_signal s.flags).1;
        given = counted (both (try_wait_for_any_signal s.flags).0 s.flags) s.given;
      })
  try_all :
      (selected : SignalSet)
      → s.pc ≡ Pc.running
      → Step s (record s {
        flags = (try_wait_for_all_signals selected s.flags).1;
        given = counted (both (granted selected s.flags) s.flags) s.given;
      })

pub data Reach : System → Type 0 where
  start : Reach init
  next : {s t : System} → Reach s → Step s t → Reach t
