-- ===== src/MessageQueue.antt =====
-- src/_cmsis_rtos/messagequeue.hpp: SmallMessageQueue over the kernel's message queue, and
-- LargeMessageQueue over it, a semaphore and a shared memory pool. A call that blocks is modelled in the
-- state in which it returns; the copy of an element may throw.
pub mod Kernel
pub mod Fifo
pub mod Send
pub mod Receive
pub mod Tests
use weos.Common.{
  ℕ, zero, suc, ◌%◌, ◌^◌, Bool, true, false, not, ◌==◌, if◌then◌else◌, Option, none, some, Result,
  ok, throws, cmsis, assertion,
}
use weos.Cmsis.{os_ok, os_event_message, os_wait_forever}
use Kernel.{OsMessages, OsPool}

module _ (os : OsMessages) where
  open os use {Queue, put, get}

  -- The loops that copy the `size` bytes of a value into a datum of 32 bits that is 0, and back, on a
  -- little-endian machine.
  pub copied : ℕ → ℕ → ℕ
  copied size value = value % 256 ^ size

  -- SmallMessageQueue::send
  pub small_send : ℕ → Queue → ℕ → Result (Unit {0}) × Queue
  small_send size q value =
      let (status, q') = put q (copied size value) os_wait_forever in
      (if status == os_ok then ok tt else throws (cmsis status), q')

  -- SmallMessageQueue::try_send
  pub small_try_send : ℕ → Queue → ℕ → Bool × Queue
  small_try_send size q value =
      let (status, q') = put q (copied size value) 0 in (status == os_ok, q')

  -- SmallMessageQueue::receive
  pub small_receive : ℕ → Queue → Result ℕ × Queue
  small_receive size q =
      let (event, q') = get q os_wait_forever in
      (
        if not (event.0 == os_event_message)
            then throws (cmsis event.0)
            else ok (copied size event.1),
        q',
      )

  -- SmallMessageQueue::try_receive: `none` for false
  pub small_try_receive : ℕ → Queue → Result (Option ℕ) × Queue
  small_try_receive size q =
      let (event, q') = get q 0 in
      (
        if event.0 == os_ok
            then ok none
            else if not (event.0 == os_event_message)
            then throws (cmsis event.0)
            else ok (some (copied size event.1)),
        q',
      )

abbrev pub store : {A : Type 0} → (ℕ → Option A) → ℕ → Option A → ℕ → Option A
store f c o = λ d. if c == d then o else f d

module _ (os : OsMessages) (pools : OsPool) (A : Type 0) where
  -- LargeMessageQueue: the tokens of m_numAvailable, the pool, the queue of pointers, and the objects in
  -- the chunks of the pool.
  pub record Large : Type 0 where
    pub num_available : ℕ
    pub pool : pools.Pool
    pub pointers : os.Queue
    pub objects : ℕ → Option A

  -- try_send(element); `copy` is what the copy constructor of the element does.
  pub try_send : Large → A → Result (Unit {0}) → Result Bool × Large
  unfolding small_try_send copied
  try_send l a copy =
      let (mem, p) = pools.alloc l.pool in
      let (sent, q) = small_try_send os 4 l.pointers mem in
      elim l.num_available [
        | zero ↦ (ok false, l)
        | suc n ↦
            if mem == 0
            then (throws assertion, record l { num_available = n; pool = p })
            else (elim copy [
              | throws e ↦ (throws e, record l { num_available = n; pool = pools.free p mem })
              | ok _ ↦ (
                if sent then ok true else throws assertion,
                record {
                  num_available = n;
                  pool = p;
                  pointers = q;
                  objects = store l.objects mem (some a);
                },
              )
            ])
      ]

  -- send(element): `none` while the caller blocks on m_numAvailable.
  pub send : Large → A → Result (Unit {0}) → Option (Result (Unit {0}) × Large)
  unfolding small_send copied
  send l a copy =
      let (mem, p) = pools.alloc l.pool in
      let (sent, q) = small_send os 4 l.pointers mem in
      elim l.num_available [
        | zero ↦ none
        | suc n ↦
            if mem == 0
            then some (throws assertion, record l { num_available = n; pool = p })
            else (elim copy [
              | throws e ↦ some (throws e, record l { num_available = n; pool = pools.free p mem })
              | ok _ ↦ some (
                sent,
                record {
                  num_available = n;
                  pool = p;
                  pointers = q;
                  objects = store l.objects mem (some a);
                },
              )
            ])
      ]

  -- After the pointer `mem` has been received: the object is moved out and destroyed, and its chunk and
  -- its slot are given back. `none` if the chunk has no object.
  pub fetch : Large → os.Queue → ℕ → Result (Option A) × Large
  fetch l q mem = if mem == 0 then (throws assertion, record l { pointers = q }) else (
    ok (l.objects mem),
    record {
      num_available = suc l.num_available;
      pool = pools.free l.pool mem;
      pointers = q;
      objects = store l.objects mem none;
    },
  )

  -- receive
  pub receive : Large → Result (Option A) × Large
  unfolding small_receive copied fetch
  receive l =
      let (r, q) = small_receive os 4 l.pointers in
      elim r [ throws e ↦ (throws e, record l { pointers = q }) | ok mem ↦ fetch l q mem ]

  -- try_receive: `none` for false
  pub try_receive : Large → Result (Option (Option A)) × Large
  unfolding small_try_receive copied fetch
  try_receive l =
      let (r, q) = small_try_receive os 4 l.pointers in
      elim r [
        | throws e ↦ (throws e, record l { pointers = q })
        | ok none ↦ (ok none, record l { pointers = q })
        | ok (some mem) ↦
            let (r', l') = fetch l q mem in
            (elim r' [ throws e ↦ throws e | ok o ↦ ok (some o) ], l')
      ]
