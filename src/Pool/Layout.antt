-- ===== src/Pool/Layout.antt =====
-- The free list of src/memorypool.hpp as a sequence of chunks.
use native.Mathlib.Nat.{mul-suc, mul-zero}
use weos.Common.{
  ap, ◌-◌, ℕ, zero, suc, ◌*◌, ◌+◌, ◌≡◌, ◌≢◌, ◌<◌, refl, arith, ◌==◌, if◌then◌else◌, List, [], ◌∷◌,
}
use weos.Pool.{Memory, set_next, build_loop, build}

-- The chunks that are linked from the pointer `p`.
abbrev pub Links : Memory → ℕ → List ℕ → Type 0
Links mem p [] = p ≡ 0
Links mem p (c ∷ cs) = (p ≡ c) × (c ≢ 0) × Links mem (mem c) cs

-- How often a chunk occurs.
abbrev pub count : ℕ → List ℕ → ℕ
count c [] = 0
count c (d ∷ ds) = (if c == d then 1 else 0) + count c ds

-- The chunks of an array of `n`, from the address `a`.
abbrev pub chunks : ℕ → ℕ → ℕ → List ℕ
chunks size a zero = []
chunks size a (suc n) = a ∷ chunks size (a + size) n

-- A write to a chunk that is not in the list leaves the list.
pub set_next-Links :
    (mem : Memory) (p c q : ℕ) (l : List ℕ)
    → count c l ≡ 0
    → Links mem p l
    → Links (set_next mem c q) p l
set_next-Links mem p c q [] n h = h
set_next-Links mem p c q (d ∷ ds) n (e, z, h) =
    (e, z, rw (kept) (set_next-Links mem (mem d) c q ds (ground (arith, n)) h))
  where
    kept : set_next mem c q d ≡ mem d
    kept = ground (arith, n)

-- The chunks above an address do not include it.
pub count-chunks : (size a b n : ℕ) → b < a → count b (chunks size a n) ≡ 0
count-chunks size a b zero h = refl
count-chunks size a b (suc n) h =
    ground (arith, h, count-chunks size (a + size) b n (omega (arith, h)))

pub relinked :
    {m m' : Memory} {p p' : ℕ} {l l' : List ℕ}
    → m ≡ m'
    → p ≡ p'
    → l ≡ l'
    → Links m' p' l'
    → Links m p l
relinked e f g h = rw (e, f, g) h

same_chunks : (size a b n m : ℕ) → a ≡ b → n ≡ m → chunks size a n ≡ chunks size b m
same_chunks size a b n m e f = rw (e, f) refl

-- One round of the loop links one chunk more.
linked_chunk :
    (size first k n iter prev : ℕ) (mem : Memory)
    → 0 < size
    → 0 < first
    → iter ≡ first + size * suc k
    → Links mem prev (chunks size iter n)
    → Links (set_next mem (iter - size) prev) (iter - size) (chunks size (first + size * k) (suc n))
linked_chunk size first k n iter prev mem hs hf e h = (
  below,
  above,
  relinked refl stored (ap (λ a. chunks size a n) next) (
      set_next-Links mem prev (iter - size) prev (chunks size iter n)
        (count-chunks size iter (iter - size) n (omega (arith, hs, hf, e, mul-suc size k))) h),
)
  where
    below : iter - size ≡ first + size * k
    below = omega (arith, hs, hf, e, mul-suc size k)

    above : first + size * k ≢ 0
    above = λ q. omega (arith, hf, q)

    next : first + size * k + size ≡ iter
    next = omega (arith, e, mul-suc size k)

    stored : set_next mem (iter - size) prev (first + size * k) ≡ prev
    stored = ground (arith, below)

build_loop-Links :
    (fuel size first k n iter prev : ℕ) (mem : Memory)
    → 0 < size
    → 0 < first
    → k < fuel
    → iter ≡ first + size * k
    → Links mem prev (chunks size iter n)
    → Links
        (build_loop fuel size first iter prev mem)
        (if k == 0 then prev else first)
        (chunks size first (k + n))
unfolding build_loop
build_loop-Links zero size first k n iter prev mem hs hf hk e h =
    let x : ⊥ = omega (arith, hk) in elim x [ ]
build_loop-Links (suc fuel) size first zero n iter prev mem hs hf hk e h =
    relinked (ground (arith, e, mul-zero size)) refl
      (same_chunks size first iter (0 + n) n (omega (arith, e, mul-zero size)) (omega arith)) h
build_loop-Links (suc fuel) size first (suc k) n iter prev mem hs hf hk e h =
    relinked (ground (arith, e, hs, mul-suc size k)) start (ap (chunks size first) (omega arith)) (
      build_loop-Links fuel size first k (suc n) (iter - size) (iter - size)
        (set_next mem (iter - size) prev) hs hf (omega (arith, hk)) below
        (relinked refl refl (ap (λ a. chunks size a (suc n)) below)
          (linked_chunk size first k n iter prev mem hs hf e h)))
  where
    below : iter - size ≡ first + size * k
    below = omega (arith, hs, hf, e, mul-suc size k)

    start : (if suc k == 0 then prev else first) ≡ (if k == 0 then iter - size else first)
    start = ground (arith, below, mul-zero size)

-- The constructor links all chunks of its memory, in the order of their addresses.
pub build-Links :
    (mem : Memory) (memory size n : ℕ)
    → 0 < size
    → 0 < memory
    → 0 < n
    → let l = build mem memory size n in Links l.memory l.first (chunks size memory n)
unfolding build
build-Links mem memory size n hs hm hn =
    relinked refl (ground (arith, hn)) (ap (chunks size memory) (omega arith)) (
      build_loop-Links (suc n) size memory n 0 (memory + size * n) 0 mem hs hm (omega arith) refl
        refl)
