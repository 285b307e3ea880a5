-- ===== src/MessageQueue/Kernel.antt =====
-- What src/_cmsis_rtos/messagequeue.hpp uses of the kernel: osMessagePut and osMessageGet on one queue,
-- and the shared memory pool, which is the kernel's.
use weos.Common.{
  ℕ, suc, ◌<◌, ◌≡◌, ◌≢◌, ◌==◌, ◌^◌, Bool, true, false, if◌then◌else◌, List, [], ◌∷◌, ◌++◌, length,
}
use weos.Cmsis.{os_ok, os_event_message}

-- `put` gives a status, `get` a status and a datum.
pub record OsMessages : Type 1 where
  pub Queue : Type 0
  pub put : Queue → ℕ → ℕ → ℕ × Queue
  pub get : Queue → ℕ → (ℕ × ℕ) × Queue
  pub contents : Queue → List ℕ
  pub capacity : ℕ
  pub put_room :
      (q : Queue) (d ms : ℕ)
      → length (contents q) < capacity
      → ((put q d ms).0 ≡ os_ok) × (contents (put q d ms).1 ≡ contents q ++ d ∷ [])
  pub get_datum :
      (q : Queue) (ms d : ℕ) (ds : List ℕ)
      → contents q ≡ d ∷ ds
      → ((get q ms).0.0 ≡ os_event_message) × ((get q ms).0.1 ≡ d) × (contents (get q ms).1 ≡ ds)
  pub get_empty :
      (q : Queue) → contents q ≡ [] → ((get q 0).0.0 ≡ os_ok) × (contents (get q 0).1 ≡ [])

-- `room` counts the free chunks; a chunk is an address of 32 bits.
pub record OsPool : Type 1 where
  pub Pool : Type 0
  pub alloc : Pool → ℕ × Pool
  pub free : Pool → ℕ → Pool
  pub room : Pool → ℕ
  pub taken : Pool → ℕ → Bool
  pub alloc_room :
      (p : Pool) (n : ℕ)
      → room p ≡ suc n
      → ((alloc p).0 ≢ 0)
        × ((alloc p).0 < 2 ^ 32)
        × (taken p (alloc p).0 ≡ false)
        × (room (alloc p).1 ≡ n)
        × ((c : ℕ) → taken (alloc p).1 c ≡ (if (alloc p).0 == c then true else taken p c))
  pub free_taken :
      (p : Pool) (c : ℕ)
      → taken p c ≡ true
      → (room (free p c) ≡ suc (room p))
        × ((d : ℕ) → taken (free p c) d ≡ (if c == d then false else taken p d))
