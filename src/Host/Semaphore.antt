-- ===== src/Host/Semaphore.antt =====
-- src/_cxx11/_semaphore.hpp and .cpp: any number of threads that use one semaphore. A step is one access to the mutex or
-- to the value.
pub mod Tokens
pub mod Stuck
mod Tests
use weos.Common.{
  ℕ, suc, ◌+◌, ◌-◌, ◌%◌, ◌^◌, ◌<◌, ◌≡◌, ◌==◌, Bool, true, false, if◌then◌else◌, Option, none, some,
  moved,
}

-- What a thread does while it holds the mutex: wait, try_wait, try_wait_for with the result of the wait for the
-- condition variable, or value().
pub data Use : Type 0 where
  wait try_wait timed_wait query : Use

-- Where a thread stands.
pub data Pc : Type 0 where
  idle : Pc
  post_guard : Pc  -- post: before the constructor of lock_guard
  post_lock : Pc  -- before m_mutex.lock()
  post_count : Pc  -- before ++m_value
  post_unlock : Pc  -- before m_mutex.unlock()
  post_leave : Pc  -- before notify_one and the destructor of lock_guard
  locking : Use → Pc  -- before the constructor of unique_lock
  testing : Use → Pc  -- before m_value is compared
  asleep : Use → Pc  -- in the wait of the condition variable
  taking : Pc  -- before --m_value
  leaving : Pc  -- before the destructor of unique_lock

-- The function blocks if there is no token.
abbrev pub blocks : Use → Bool
blocks Use.wait = true
blocks Use.timed_wait = true
blocks Use.try_wait = false
blocks Use.query = false

-- The function takes a token if there is one.
abbrev pub takes : Use → Bool
takes Use.query = false
takes _ = true

-- `tokens` is m_value, `owner` the thread that has m_mutex, `taken` the number of tokens that were taken.
pub record System : Type 0 where
  pub tokens : ℕ
  pub owner : Option ℕ
  pub taken : ℕ
  pub pc : ℕ → Pc

abbrev pub init : ℕ → System
init value = record { tokens = value; owner = none; taken = 0; pc = λ t. Pc.idle }

pub data Step (s : System) : System → Type 0 where
  post : (t : ℕ) → s.pc t ≡ Pc.idle → Step s (record s { pc = moved s.pc t Pc.post_guard })
  guard :
      (t : ℕ)
      → s.pc t ≡ Pc.post_guard
      → s.owner ≡ none
      → Step s (record s { owner = some t; pc = moved s.pc t Pc.post_lock })
  lock_again :
      (t : ℕ)
      → s.pc t ≡ Pc.post_lock
      → s.owner ≡ none
      → Step s (record s { owner = some t; pc = moved s.pc t Pc.post_count })
  count :
      (t : ℕ)
      → s.pc t ≡ Pc.post_count
      → Step s (record s { tokens = (s.tokens + 1) % 2 ^ 16; pc = moved s.pc t Pc.post_unlock })
  unlock_again :
      (t : ℕ)
      → s.pc t ≡ Pc.post_unlock
      → Step s (record s { owner = none; pc = moved s.pc t Pc.post_leave })
  leave_post :
      (t : ℕ)
      → s.pc t ≡ Pc.post_leave
      → Step s (record s { owner = none; pc = moved s.pc t Pc.idle })
  call :
      (t : ℕ) (u : Use) → s.pc t ≡ Pc.idle → Step s (record s { pc = moved s.pc t (Pc.locking u) })
  lock :
      (t : ℕ) (u : Use)
      → s.pc t ≡ Pc.locking u
      → s.owner ≡ none
      → Step s (record s { owner = some t; pc = moved s.pc t (Pc.testing u) })
  test_some :
      (t : ℕ) (u : Use)
      → s.pc t ≡ Pc.testing u
      → takes u ≡ true
      → 0 < s.tokens
      → Step s (record s { pc = moved s.pc t Pc.taking })
  test_block :
      (t : ℕ) (u : Use)
      → s.pc t ≡ Pc.testing u
      → blocks u ≡ true
      → s.tokens ≡ 0
      → Step s (record s { owner = none; pc = moved s.pc t (Pc.asleep u) })
  test_fail :
      (t : ℕ)
      → s.pc t ≡ Pc.testing Use.try_wait
      → s.tokens ≡ 0
      → Step s (record s { pc = moved s.pc t Pc.leaving })
  timeout :
      (t : ℕ)
      → s.pc t ≡ Pc.testing Use.timed_wait
      → s.tokens ≡ 0
      → Step s (record s { pc = moved s.pc t Pc.leaving })
  read :
      (t : ℕ) → s.pc t ≡ Pc.testing Use.query → Step s (record s { pc = moved s.pc t Pc.leaving })
  wake :
      (t : ℕ) (u : Use)
      → s.pc t ≡ Pc.asleep u
      → s.owner ≡ none
      → Step s (record s { owner = some t; pc = moved s.pc t (Pc.testing u) })
  take :
      (t : ℕ)
      → s.pc t ≡ Pc.taking
      → Step s (record s {
        tokens = (s.tokens + 2 ^ 16 - 1) % 2 ^ 16;
        taken = s.taken + 1;
        pc = moved s.pc t Pc.leaving;
      })
  leave :
      (t : ℕ) → s.pc t ≡ Pc.leaving → Step s (record s { owner = none; pc = moved s.pc t Pc.idle })

pub data Reach (s : System) : System → Type 0 where
  start : Reach s s
  next : {t u : System} → Reach s t → Step t u → Reach s u
