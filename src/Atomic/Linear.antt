-- ===== src/Atomic/Linear.antt =====
-- The operations of atomic_base<T, true> in src/_armcc/_atomic.hpp take effect at once, whatever other threads do.
use Prim.Native.Nat.{◌∣◌}
use native.Mathlib.Nat
use weos.Common.{
  ℕ, zero, suc, ◌*◌, ◌/◌, ◌+◌, ◌-◌, ◌%◌, ◌^◌, ◌≡◌, ◌≢◌, ◌<◌, refl, sym, ◌∙◌, subst, ap, arith, ◌==◌,
  Bool-cases, inl, inr, bit_and, bit_or, bit_xor, true, false,
}
use weos.Atomic.{Arith, Op, refuses, IsOp, modified, next_value, Executes}
use weos.Atomic.Monitor.{Monitors}
use weos.Atomic.Word.{word_modified, stored, Pc, System, at, Step, Reach}

whole_words :
    (size old arg k : ℕ)
    → k * size ≡ 2 ^ 32
    → arg < size
    → (old + 2 ^ 32 - arg) % size ≡ (old + size - arg) % size
whole_words size old arg zero e h = absurd (ground (arith, e))
whole_words size old arg (suc k) e h =
    let same : old + 2 ^ 32 - arg ≡ old + size - arg + size * k = grind (arith, e) in
    ap (λ z. z % size) same ∙ Nat.add-mul-mod_self_left (old + size - arg) size k

-- The low bits of a difference
sub-mod :
    (size old arg : ℕ)
    → size ∣ 2 ^ 32
    → arg < size
    → (old + 2 ^ 32 - arg) % 2 ^ 32 % size ≡ (old + size - arg) % size
sub-mod size old arg d h =
    Nat.mod-mod_of_dvd size (old + 2 ^ 32 - arg) d
    ∙ whole_words size old arg (2 ^ 32 / size) (Nat.div-mul_cancel size d) h

word_modified-mod :
    (size : ℕ) (a : Arith) (old arg : ℕ)
    → size ∣ 2 ^ 32
    → arg < size
    → word_modified a old arg % size ≡ modified size a old arg
unfolding word_modified modified
word_modified-mod size Arith.add old arg d h = Nat.mod-mod_of_dvd size (old + arg) d
word_modified-mod size Arith.sub old arg d h = sub-mod size old arg d h
word_modified-mod size Arith.conjunction old arg d h = Nat.mod-mod_of_dvd size (bit_and old arg) d
word_modified-mod size Arith.disjunction old arg d h = Nat.mod-mod_of_dvd size (bit_or old arg) d
word_modified-mod size Arith.exclusive old arg d h = Nat.mod-mod_of_dvd size (bit_xor old arg) d

-- The word that is stored has the value that the operation gives.
stored-mod :
    (size : ℕ) (op : Op) (old : ℕ)
    → size ∣ 2 ^ 32
    → IsOp size op
    → refuses op (old % size) ≡ false
    → stored size op old % size ≡ next_value size op (old % size)
unfolding stored next_value
stored-mod size Op.load old d h r = refl
stored-mod size (Op.store w) old d h r = refl
stored-mod size (Op.exchange w) old d h r = refl
stored-mod size (Op.compare_exchange expected w) old d h r = ground arith
stored-mod size (Op.modify a arg) old d h r = word_modified-mod size a (old % size) arg d h

-- An operation that is refused changes nothing.
refused-same : (size : ℕ) (op : Op) (old : ℕ) → refuses op old ≡ true → next_value size op old ≡ old
unfolding next_value
refused-same size Op.load old r = refl
refused-same size (Op.store w) old r = ground arith
refused-same size (Op.exchange w) old r = ground arith
refused-same size (Op.compare_exchange expected w) old r = ground arith
refused-same size (Op.modify a arg) old r = ground arith

load-same : (size value : ℕ) → next_value size Op.load value ≡ value
unfolding next_value
load-same size value = refl

module _ (monitors : Monitors) (size : ℕ) where
  open monitors use {M, Valid}

  -- What a thread relies on where it stands
  abbrev Relies : ℕ → M → ℕ → Pc → Type 0
  Relies word m t (Pc.looping op) = IsOp size op
  Relies word m t (Pc.loaded op old) =
      IsOp size op × (refuses op (old % size) ≡ false) × (Valid m t → word ≡ old)
  Relies word m t Pc.idle = Unit
  Relies word m t Pc.refusing = Unit

  record Inv (first : ℕ) (s : System monitors size) : Type 0 where
    threads : (t : ℕ) → Relies s.word s.monitor t (s.pc t)
    executes : Executes size (first % size) s.log (s.word % size)

  keeps :
      {word word' : ℕ} {m m' : M} (u : ℕ)
      → (Valid m' u → Valid m u × (word' ≡ word))
      → (pc : Pc) → Relies word m u pc
      → Relies word' m' u pc
  keeps u k (Pc.looping op) h = h
  keeps u k (Pc.loaded op old) (h, r, f) = (h, r, λ v. (k v).1 ∙ f (k v).0)
  keeps u k Pc.idle h = tt
  keeps u k Pc.refusing h = tt

  -- A step of the thread `t` that the others do not see
  moves :
      {word word' : ℕ} {m m' : M} (pc : ℕ → Pc) (t : ℕ) (new : Pc)
      → ((u : ℕ) → Relies word m u (pc u))
      → ((u : ℕ) → t ≢ u → Valid m' u → Valid m u × (word' ≡ word))
      → Relies word' m' t new
      → (u : ℕ) → Relies word' m' u (at monitors size pc t new u)
  moves {word} {word'} {m} {m'} pc t new h k r u = elim (Bool-cases (t == u)) [
    | inl e ↦
        let same : t ≡ u = ground (arith, e) in rw e (subst (λ z. Relies word' m' z new) same r)
    | inr e ↦ rw e (keeps u (k u (ground (arith, e))) (pc u) (h u))
  ]

  stands :
      {first : ℕ} {s : System monitors size}
      → Inv first s
      → (t : ℕ) {pc : Pc} → s.pc t ≡ pc
      → Relies s.word s.monitor t pc
  stands {s = s} inv t e = subst (Relies s.word s.monitor t) e (inv.threads t)

  Step-Inv :
      {first : ℕ} {s s' : System monitors size}
      → size ∣ 2 ^ 32
      → Inv first s
      → Step monitors size s s'
      → Inv first s'
  Step-Inv {first} {s} d inv (Step.read t e) = record {
    threads = inv.threads;
    executes = (s.word % size, inv.executes, refl, load-same size (s.word % size));
  }
  Step-Inv {first} {s} d inv (Step.call t op e l h) = record {
    threads = moves s.pc t (Pc.looping op) inv.threads (λ u n v. (v, refl)) h;
    executes = inv.executes;
  }
  Step-Inv {first} {s} d inv (Step.load_exclusive t op m e r w) = record {
    threads =
        moves s.pc t (Pc.loaded op s.word) inv.threads
          (λ u n v. (monitors.loads_others w u n v, refl)) (stands inv t e, r, λ v. refl);
    executes = inv.executes;
  }
  Step-Inv {first} {s} d inv (Step.load_refused t op m e r w) = record {
    threads =
        moves s.pc t Pc.refusing inv.threads (λ u n v. (monitors.loads_others w u n v, refl)) tt;
    executes = (s.word % size, inv.executes, refl, refused-same size op (s.word % size) r);
  }
  Step-Inv {first} {s} d inv (Step.store_exclusive t op old m e w) =
      let (h, r, f) = stands inv t e in
      let fresh : s.word ≡ old = f (monitors.stores_valid w) in
      record {
        threads =
            moves s.pc t Pc.idle inv.threads (λ u n v. absurd (monitors.stores_clear w u v)) tt;
        executes = (
          old % size,
          subst (λ z. Executes size (first % size) s.log (z % size)) fresh inv.executes,
          refl,
          sym (stored-mod size op old d h r),
        );
      }
  Step-Inv {first} {s} d inv (Step.store_failed t op old m e w) =
      let (h, r, f) = stands inv t e in
      record {
        threads =
            moves s.pc t (Pc.looping op) inv.threads (λ u n v. (monitors.clears_valid w u v, refl))
              h;
        executes = inv.executes;
      }
  Step-Inv {first} {s} d inv (Step.clear_exclusive t m e w) = record {
    threads = moves s.pc t Pc.idle inv.threads (λ u n v. (monitors.clears_valid w u v, refl)) tt;
    executes = inv.executes;
  }

  -- In any interleaving of the exclusive loads and stores of any number of threads, and whatever the
  -- unused bits of the word are, the operations on an atomic give what the same operations give without
  -- interruption, one after the other, in the order in which they take effect; the number of values
  -- divides 2 ^ 32.
  pub Reach-Executes :
      {first : ℕ} {m : M} {s : System monitors size}
      → size ∣ 2 ^ 32
      → Reach monitors size first m s
      → Executes size (first % size) s.log (s.word % size)
  Reach-Executes d r = (invariant d r).executes
    where
      invariant :
          {first : ℕ} {m : M} {s : System monitors size}
          → size ∣ 2 ^ 32
          → Reach monitors size first m s
          → Inv first s
      invariant d Reach.start = record { threads = λ t. tt; executes = refl }
      invariant d (Reach.next r step) = Step-Inv d (invariant d r) step
