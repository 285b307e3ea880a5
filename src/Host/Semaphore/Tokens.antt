-- ===== src/Host/Semaphore/Tokens.antt =====
-- The tokens of the semaphore in src/_cxx11/_semaphore.cpp.
use weos.Common.{
  ℕ, ◌+◌, ◌-◌, ◌%◌, ◌^◌, ◌<◌, ◌≡◌, ◌≢◌, refl, subst, arith, Option, none, some, moved, moved-relies,
}
use weos.Host.Semaphore.{Pc, System, init, Step, Reach}

-- What a thread relies on where it stands
abbrev pub Relies : ℕ → Option ℕ → ℕ → Pc → Type 0
Relies tokens owner t Pc.idle = Unit
Relies tokens owner t Pc.post_guard = Unit
Relies tokens owner t Pc.post_lock = owner ≡ some t
Relies tokens owner t Pc.post_count = ⊥
Relies tokens owner t Pc.post_unlock = ⊥
Relies tokens owner t Pc.post_leave = ⊥
Relies tokens owner t (Pc.locking u) = Unit
Relies tokens owner t (Pc.testing u) = owner ≡ some t
Relies tokens owner t (Pc.asleep u) = Unit
Relies tokens owner t Pc.taking = (owner ≡ some t) × (0 < tokens)
Relies tokens owner t Pc.leaving = owner ≡ some t

pub record Inv (first : ℕ) (s : System) : Type 0 where
  pub threads : (t : ℕ) → Relies s.tokens s.owner t (s.pc t)
  pub total : s.taken + s.tokens ≡ first
  pub bounded : s.tokens < 2 ^ 16

pub stands :
    {first : ℕ} {s : System}
    → Inv first s
    → (t : ℕ) {pc : Pc} → s.pc t ≡ pc
    → Relies s.tokens s.owner t pc
stands {s = s} inv t e = subst (Relies s.tokens s.owner t) e (inv.threads t)

keeps :
    {tokens tokens' : ℕ} {owner owner' : Option ℕ} (u : ℕ)
    → (owner ≡ some u → (owner' ≡ some u) × (tokens' ≡ tokens))
    → (pc : Pc) → Relies tokens owner u pc
    → Relies tokens' owner' u pc
keeps u k Pc.idle h = tt
keeps u k Pc.post_guard h = tt
keeps u k Pc.post_lock h = (k h).0
keeps u k Pc.post_count h = h
keeps u k Pc.post_unlock h = h
keeps u k Pc.post_leave h = h
keeps u k (Pc.locking c) h = tt
keeps u k (Pc.testing c) h = (k h).0
keeps u k (Pc.asleep c) h = tt
keeps u k Pc.taking (h, p) = ((k h).0, rw (k h).1 p)
keeps u k Pc.leaving h = (k h).0

-- A step of thread `t` that leaves the tokens alone
advance :
    {first : ℕ} {s : System}
    → Inv first s
    → (t : ℕ) (new : Pc) (owner : Option ℕ) → ((u : ℕ) → t ≢ u → s.owner ≡ some u → owner ≡ some u)
    → Relies s.tokens owner t new
    → Inv first (record s { owner = owner; pc = moved s.pc t new })
advance {first} {s} inv t new owner others r = record {
  threads =
      moved-relies (Relies s.tokens s.owner) (Relies s.tokens owner) s.pc t new inv.threads
        (λ u d pc. keeps u (λ k. (others u d k, refl)) pc) r;
  total = inv.total;
  bounded = inv.bounded;
}

-- Only one thread has the mutex.
pub another : {A : Type 0} {o : Option ℕ} {t u : ℕ} → o ≡ some t → t ≢ u → o ≡ some u → A
another e d k = absurd (d (ground arith))

taken_from : {o : Option ℕ} {u : ℕ} {A : Type 0} → o ≡ none → o ≡ some u → A
taken_from e k = absurd (ground arith)

Step-Inv : {first : ℕ} {s s' : System} → Inv first s → Step s s' → Inv first s'
Step-Inv {first} {s} inv (Step.post t e) = advance inv t Pc.post_guard s.owner (λ u d k. k) tt
Step-Inv {first} {s} inv (Step.guard t e free) =
    advance inv t Pc.post_lock (some t) (λ u d k. taken_from free k) refl
Step-Inv {first} {s} inv (Step.lock_again t e free) = taken_from free (stands inv t e)
Step-Inv {first} {s} inv (Step.count t e) = absurd (stands inv t e)
Step-Inv {first} {s} inv (Step.unlock_again t e) = absurd (stands inv t e)
Step-Inv {first} {s} inv (Step.leave_post t e) = absurd (stands inv t e)
Step-Inv {first} {s} inv (Step.call t u e) = advance inv t (Pc.locking u) s.owner (λ u d k. k) tt
Step-Inv {first} {s} inv (Step.lock t u e free) =
    advance inv t (Pc.testing u) (some t) (λ u d k. taken_from free k) refl
Step-Inv {first} {s} inv (Step.test_some t u e c p) =
    advance inv t Pc.taking s.owner (λ u d k. k) (stands inv t e, p)
Step-Inv {first} {s} inv (Step.test_block t u e b z) =
    advance inv t (Pc.asleep u) none (λ v d k. another (stands inv t e) d k) tt
Step-Inv {first} {s} inv (Step.test_fail t e z) =
    advance inv t Pc.leaving s.owner (λ u d k. k) (stands inv t e)
Step-Inv {first} {s} inv (Step.timeout t e z) =
    advance inv t Pc.leaving s.owner (λ u d k. k) (stands inv t e)
Step-Inv {first} {s} inv (Step.read t e) =
    advance inv t Pc.leaving s.owner (λ u d k. k) (stands inv t e)
Step-Inv {first} {s} inv (Step.wake t u e free) =
    advance inv t (Pc.testing u) (some t) (λ u d k. taken_from free k) refl
Step-Inv {first} {s} inv (Step.take t e) =
    let (mine, some_left) = stands inv t e in
    record {
      threads =
          moved-relies (Relies s.tokens s.owner) (Relies ((s.tokens + 2 ^ 16 - 1) % 2 ^ 16) s.owner)
            s.pc t Pc.leaving inv.threads (λ u d pc. keeps u (λ k. another mine d k) pc) mine;
      total = omega (arith, inv.total, inv.bounded, some_left);
      bounded = omega arith;
    }
Step-Inv {first} {s} inv (Step.leave t e) =
    advance inv t Pc.idle none (λ u d k. another (stands inv t e) d k) tt

pub Reach-Inv : {first : ℕ} {s s' : System} → Inv first s → Reach s s' → Inv first s'
Reach-Inv inv Reach.start = inv
Reach-Inv inv (Reach.next r step) = Step-Inv (Reach-Inv inv r) step

pub init-Inv : (first : ℕ) → first < 2 ^ 16 → Inv first (init first)
init-Inv first h = record { threads = λ t. tt; total = omega arith; bounded = h }

-- In any interleaving of post, wait, try_wait, try_wait_for and value, the tokens that were taken and those
-- that are left are together the initial ones: none is taken twice, and none is ever added.
pub tokens-taken :
    {first : ℕ} {s : System} → first < 2 ^ 16 → Reach (init first) s → s.taken + s.tokens ≡ first
tokens-taken {first} h r = (Reach-Inv (init-Inv first h) r).total
