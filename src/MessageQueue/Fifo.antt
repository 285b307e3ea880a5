-- ===== src/MessageQueue/Fifo.antt =====
-- LargeMessageQueue of src/_cmsis_rtos/messagequeue.hpp as a sequence of elements.
use weos.Common.{
  ℕ, ◌+◌, ◌^◌, ◌<◌, ◌≡◌, ◌≢◌, refl, arith, true, false, ◌==◌, ==_refl, if◌then◌else◌, Option, none,
  some, List, [], ◌∷◌, ◌++◌, length, Absent, Absent-append,
}
use weos.MessageQueue.Kernel.{OsMessages, OsPool}
use weos.MessageQueue.{Large, store}

module _ (os : OsMessages) (pools : OsPool) (A : Type 0) where
  -- The pointers `cs` are taken chunks that hold the elements `xs`, each once.
  abbrev pub Holds : pools.Pool → (ℕ → Option A) → List ℕ → List A → Type 0
  Holds p objects [] [] = Unit
  Holds p objects [] (x ∷ xs) = ⊥
  Holds p objects (c ∷ cs) [] = ⊥
  Holds p objects (c ∷ cs) (x ∷ xs) =
      (pools.taken p c ≡ true)
      × (objects c ≡ some x)
      × (c ≢ 0)
      × (c < 2 ^ 32)
      × Absent c cs
      × Holds p objects cs xs

  -- The queue holds the elements `xs`, in this order, and every other slot is free.
  pub record IsFifo (l : Large os pools A) (xs : List A) : Type 0 where
    pub held : Holds l.pool l.objects (os.contents l.pointers) xs
    pub slots : l.num_available + length xs ≡ os.capacity
    pub room : pools.room l.pool ≡ l.num_available

  pub Holds-length :
      (p : pools.Pool) (objects : ℕ → Option A) (cs : List ℕ) (xs : List A)
      → Holds p objects cs xs
      → length cs ≡ length xs
  Holds-length p objects [] [] h = refl
  Holds-length p objects [] (x ∷ xs) h = elim h [ ]
  Holds-length p objects (c ∷ cs) [] h = elim h [ ]
  Holds-length p objects (c ∷ cs) (x ∷ xs) (a, b, z, s, d, h) =
      omega (arith, Holds-length p objects cs xs h)

  -- A chunk that is not taken can be appended.
  pub Holds-append :
      (p p' : pools.Pool) (objects : ℕ → Option A) (c : ℕ) (a : A) (cs : List ℕ) (xs : List A)
      → pools.taken p c ≡ false
      → c ≢ 0
      → c < 2 ^ 32
      → ((d : ℕ) → pools.taken p' d ≡ (if c == d then true else pools.taken p d))
      → Holds p objects cs xs
      → Holds p' (store objects c (some a)) (cs ++ c ∷ []) (xs ++ a ∷ [])
  Holds-append p p' objects c a [] [] f z s q h =
      (ground (arith, q c, ==_refl c), ground (arith, ==_refl c), z, s, tt, tt)
  Holds-append p p' objects c a [] (x ∷ xs) f z s q h = elim h [ ]
  Holds-append p p' objects c a (d ∷ cs) [] f z s q h = elim h [ ]
  Holds-append p p' objects c a (d ∷ cs) (x ∷ xs) f z s q (t, o, n, m, b, h) = (
    ground (arith, q d, t),
    ground (arith, o, t, f),
    n,
    m,
    Absent-append d c cs b (ground (arith, f, t)),
    Holds-append p p' objects c a cs xs f z s q h,
  )

  -- A chunk that is not among them can be freed.
  pub Holds-free :
      (p p' : pools.Pool) (objects : ℕ → Option A) (c : ℕ) (cs : List ℕ) (xs : List A)
      → ((d : ℕ) → pools.taken p' d ≡ (if c == d then false else pools.taken p d))
      → Absent c cs
      → Holds p objects cs xs
      → Holds p' (store objects c none) cs xs
  Holds-free p p' objects c [] [] q n h = tt
  Holds-free p p' objects c [] (x ∷ xs) q n h = elim h [ ]
  Holds-free p p' objects c (d ∷ cs) [] q n h = elim h [ ]
  Holds-free p p' objects c (d ∷ cs) (x ∷ xs) q (e, n) (t, o, z, s, b, h) = (
    ground (arith, q d, t, e),
    ground (arith, o, e),
    z,
    s,
    b,
    Holds-free p p' objects c cs xs q n h,
  )

  pub Holds-none :
      (p : pools.Pool) (objects : ℕ → Option A) (cs : List ℕ) → Holds p objects cs [] → cs ≡ []
  Holds-none p objects [] h = refl
  Holds-none p objects (c ∷ cs) h = elim h [ ]
