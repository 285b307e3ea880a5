-- ===== src/WaitQueue.antt =====
-- The contract of the waiting queue (src/_cmsis_rtos/_tq.hpp) with its clients, the condition variable and
-- the synchronic: which threads wait, and how many tokens the semaphore of each node has.
use weos.Common.{ℕ, ◌<◌, ◌≤◌, ◌≡◌, ◌≢◌, ◌⊎◌}

-- Each operation is a relation between the queue before and after it, for the node of thread `t`.
pub record WaitQueue : Type 1 where
  pub Q : Type 0
  pub Waits : Q → ℕ → Type 0
  pub tokens : Q → ℕ → ℕ
  -- _t::_t, _t::~_t and _t::wait
  pub Enqueues : Q → ℕ → Q → Type 0
  pub Leaves : Q → ℕ → Q → Type 0
  pub Takes : Q → ℕ → Q → Type 0
  -- _tq::notify_all
  pub Notifies : Q → Q → Type 0
  pub enqueues_waits : {q q' : Q} {t : ℕ} → Enqueues q t q' → Waits q' t
  pub enqueues_others :
      {q q' : Q} {t : ℕ}
      → Enqueues q t q'
      → (u : ℕ) → t ≢ u
      → (Waits q u → Waits q' u) × (tokens q' u ≡ tokens q u)
  pub leaves_others :
      {q q' : Q} {t : ℕ}
      → Leaves q t q'
      → (u : ℕ) → t ≢ u
      → (Waits q u → Waits q' u) × (tokens q' u ≡ tokens q u)
  pub takes_others :
      {q q' : Q} {t : ℕ}
      → Takes q t q'
      → (u : ℕ) → t ≢ u
      → (Waits q u → Waits q' u) × (tokens q' u ≡ tokens q u)
  pub notifies_waiting : {q q' : Q} → Notifies q q' → (u : ℕ) → Waits q u → 0 < tokens q' u
  pub notifies_tokens : {q q' : Q} → Notifies q q' → (u : ℕ) → tokens q u ≤ tokens q' u

module _ (queue : WaitQueue) where
  open queue use {Q, Waits, tokens}

  -- A notification reaches the thread, or has reached it.
  abbrev pub Wakeable : Q → ℕ → Type 0
  Wakeable q u = Waits q u ⊎ (0 < tokens q u)

  -- An operation on the node of another thread
  abbrev pub Elsewhere : Q → Q → ℕ → Type 0
  Elsewhere q q' u = (Waits q u → Waits q' u) × (tokens q' u ≡ tokens q u)
