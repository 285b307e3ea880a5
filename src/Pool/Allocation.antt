-- ===== src/Pool/Allocation.antt =====
-- What the pools of src/memorypool.hpp and src/objectpool.hpp hand out.
use weos.Common.{
  ℕ, zero, suc, ◌+◌, ◌≡◌, ◌≢◌, ◌≤◌, ◌<◌, refl, sym, ◌∙◌, arith, ==_refl, List, [], ◌∷◌, ◌++◌,
  throws, Error,
}
use weos.Pool.{Memory, FreeList, build, try_allocate, free, try_construct}
use weos.Pool.Layout.{Links, relinked, count, chunks, set_next-Links, count-chunks, build-Links}

-- A use of the pool: the list `out` has the chunks that are handed out.
pub data PoolStep : FreeList → List ℕ → FreeList → List ℕ → Type 0 where
  allocates :
      (l : FreeList) (out : List ℕ)
      → (try_allocate l).0 ≢ 0
      → PoolStep l out (try_allocate l).1 ((try_allocate l).0 ∷ out)
  exhausted :
      (l : FreeList) (out : List ℕ) → (try_allocate l).0 ≡ 0 → PoolStep l out (try_allocate l).1 out
  frees :
      (l : FreeList) (before : List ℕ) (c : ℕ) (behind : List ℕ)
      → PoolStep l (before ++ c ∷ behind) (free l c) (before ++ behind)

pub data PoolRun : FreeList → List ℕ → FreeList → List ℕ → Type 0 where
  nil : (l : FreeList) (out : List ℕ) → PoolRun l out l out
  next :
      {l m n : FreeList} {xs ys zs : List ℕ}
      → PoolStep l xs m ys
      → PoolRun m ys n zs
      → PoolRun l xs n zs

count-append : (c : ℕ) (xs ys : List ℕ) → count c (xs ++ ys) ≡ count c xs + count c ys
count-append c [] ys = omega arith
count-append c (x ∷ xs) ys = omega (arith, count-append c xs ys)

count-once : (size a n c : ℕ) → 0 < size → count c (chunks size a n) ≤ 1
count-once size a zero c h = omega arith
count-once size a (suc n) c h =
    ground (arith, h, count-once size (a + size) n c h, count-chunks size (a + size) a n)

-- An address of the list is not the null pointer.
count-nonzero : (size a n : ℕ) → 0 < a → count 0 (chunks size a n) ≡ 0
count-nonzero size a zero h = refl
count-nonzero size a (suc n) h =
    ground (arith, h, count-nonzero size (a + size) n (omega (arith, h)))

-- The free chunks and those that are handed out are together those of the array.
abbrev pub Partition : List ℕ → FreeList → List ℕ → Type 0
Partition all l out =
    (cs : List ℕ) × Links l.memory l.first cs × ((c : ℕ) → count c cs + count c out ≡ count c all)

-- What try_allocate may do.
abbrev pub Allocated : FreeList → List ℕ → ℕ × FreeList → Type 0
Allocated l [] r = (r.0 ≡ 0) × (r.1 ≡ l)
Allocated l (c ∷ cs) r = (r.0 ≡ c) × (c ≢ 0) × Links r.1.memory r.1.first cs

try_allocate-Allocated :
    (l : FreeList) (cs : List ℕ) → Links l.memory l.first cs → Allocated l cs (try_allocate l)
unfolding try_allocate
try_allocate-Allocated l [] h = ground (arith, h)
try_allocate-Allocated l (c ∷ cs) (e, z, h) =
    (ground (arith, e, z), z, relinked (ground (arith, e, z)) (ground (arith, e, z)) refl h)

free-Links :
    (l : FreeList) (c : ℕ) (cs : List ℕ)
    → Links l.memory l.first cs
    → count c cs ≡ 0
    → c ≢ 0
    → Links (free l c).memory (free l c).first (c ∷ cs)
unfolding free
free-Links l c cs h n z =
    (refl, z, relinked refl (ground arith) refl (set_next-Links l.memory l.first c l.first cs n h))

relisted :
    {l m : FreeList} (cs : List ℕ) → l ≡ m → Links m.memory m.first cs → Links l.memory l.first cs
relisted cs e h = rw e h

allocates_more :
    (all : List ℕ) (l : FreeList) (out cs : List ℕ)
    → (try_allocate l).0 ≢ 0
    → Links l.memory l.first cs
    → ((c : ℕ) → count c cs + count c out ≡ count c all)
    → Partition all (try_allocate l).1 ((try_allocate l).0 ∷ out)
allocates_more all l out [] z h e =
    let (r, q) = try_allocate-Allocated l [] h in let x : ⊥ = z r in elim x [ ]
allocates_more all l out (c ∷ cs) z h e =
    let (r, n, k) = try_allocate-Allocated l (c ∷ cs) h in (cs, k, λ d. ground (arith, r, e d))

stays_empty :
    (all : List ℕ) (l : FreeList) (out cs : List ℕ)
    → (try_allocate l).0 ≡ 0
    → Links l.memory l.first cs
    → ((c : ℕ) → count c cs + count c out ≡ count c all)
    → Partition all (try_allocate l).1 out
stays_empty all l out [] z h e =
    let (r, q) = try_allocate-Allocated l [] h in ([], relisted [] q h, e)
stays_empty all l out (c ∷ cs) z h e =
    let (r, n, k) = try_allocate-Allocated l (c ∷ cs) h in let x : ⊥ = n (sym r ∙ z) in elim x [ ]

-- A step keeps the chunks, if no chunk occurs twice and none is the null pointer.
PoolStep-Partition :
    {l l' : FreeList} {out out' : List ℕ} (all : List ℕ)
    → ((c : ℕ) → count c all ≤ 1)
    → count 0 all ≡ 0
    → PoolStep l out l' out'
    → Partition all l out
    → Partition all l' out'
PoolStep-Partition all once null (PoolStep.allocates l out z) (cs, h, e) =
    allocates_more all l out cs z h e
PoolStep-Partition all once null (PoolStep.exhausted l out z) (cs, h, e) =
    stays_empty all l out cs z h e
PoolStep-Partition all once null (PoolStep.frees l before c behind) (cs, h, e) = (
  c ∷ cs,
  free-Links l c cs h (ground (arith, e c, once c, taken))
      (λ z. ground (arith, e c, null, z, taken)),
  λ d. ground (arith, e d, count-append d before behind, count-append d before (c ∷ behind)),
)
  where
    taken : 1 ≤ count c (before ++ c ∷ behind)
    taken = ground (arith, count-append c before (c ∷ behind), ==_refl c)

PoolRun-Partition :
    {l l' : FreeList} {out out' : List ℕ} (all : List ℕ)
    → ((c : ℕ) → count c all ≤ 1)
    → count 0 all ≡ 0
    → PoolRun l out l' out'
    → Partition all l out
    → Partition all l' out'
PoolRun-Partition all once null (PoolRun.nil l out) h = h
PoolRun-Partition all once null (PoolRun.next s r) h =
    PoolRun-Partition all once null r (PoolStep-Partition all once null s h)

-- What the next call of try_allocate does for a pool of the chunks `all`.
pub data Served (all out : List ℕ) (c : ℕ) : Type 0 where
  fresh : c ≢ 0 → count c out ≡ 0 → count c all ≡ 1 → Served all out c
  empty : c ≡ 0 → ((d : ℕ) → count d out ≡ count d all) → Served all out c

served :
    (all out cs : List ℕ) (l : FreeList)
    → ((c : ℕ) → count c all ≤ 1)
    → Links l.memory l.first cs
    → ((c : ℕ) → count c cs + count c out ≡ count c all)
    → Served all out (try_allocate l).0
served all out [] l once h e =
    let (r, q) = try_allocate-Allocated l [] h in Served.empty r (λ d. omega (arith, e d))
served all out (c ∷ cs) l once h e =
    let (r, n, k) = try_allocate-Allocated l (c ∷ cs) h in
    Served.fresh (λ z. n (sym r ∙ z)) (ground (arith, r, e c, once c, ==_refl c))
      (ground (arith, r, e c, once c, ==_refl c))

-- After any uses of a pool of `n` chunks, from its constructor on, try_allocate hands out a chunk of the
-- array that nobody has, or a null pointer, and that only when every chunk is handed out.
pub try_allocate-Served :
    (mem : Memory) (memory size n : ℕ) {l : FreeList} {out : List ℕ}
    → 0 < size
    → 0 < memory
    → 0 < n
    → PoolRun (build mem memory size n) [] l out
    → Served (chunks size memory n) out (try_allocate l).0
try_allocate-Served mem memory size n {l = l} {out = out} hs hm hn r =
    let all = chunks size memory n in
    let once : (c : ℕ) → count c all ≤ 1 = λ c. count-once size memory n c hs in
    let (cs, h, e) =
      PoolRun-Partition all once (count-nonzero size memory n hm) r
        (all, build-Links mem memory size n hs hm hn, λ c. omega arith) in
    served all out cs l once h e

-- If the constructor of the element throws, try_construct passes the exception on and the pool has the
-- same chunks, in the same order.
pub try_construct-Links :
    (l : FreeList) (c : ℕ) (cs : List ℕ) (e : Error)
    → Links l.memory l.first (c ∷ cs)
    → count c cs ≡ 0
    → let r = try_construct l (throws e) in (r.0 ≡ throws e) × Links r.1.memory r.1.first (c ∷ cs)
unfolding try_construct
try_construct-Links l c cs e h n =
    let (r, z, k) = try_allocate-Allocated l (c ∷ cs) h in
    (
      ground (arith, r, z),
      relisted (c ∷ cs) (ground (arith, r, z)) (free-Links (try_allocate l).1 c cs k n z),
    )
