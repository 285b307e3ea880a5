-- ===== src/Atomic/Locked.antt =====
-- atomic_base<T, false> of src/_armcc/_atomic.hpp, for types that are larger than a word: every operation holds
-- g_atomicMutex, and reads and writes the value in steps of its own.
use weos.Common.{
  ℕ, ◌%◌, ◌≡◌, ◌≢◌, refl, sym, ◌∙◌, subst, arith, ◌==◌, Bool, true, false, Bool-cases, inl, inr,
  if◌then◌else◌, List, [], ◌∷◌, Option, none, some,
}
use weos.Atomic.{Op, Event, outcome, modified, next_value, Executes}

-- What is written, where `old` is the value that was read
unfoldable pub written : ℕ → Op → ℕ → ℕ
unfolding modified
written size Op.load old = old
written size (Op.store w) old = w % size
written size (Op.exchange w) old = w % size
written size (Op.compare_exchange expected w) old = w % size
written size (Op.modify a arg) old = modified size a old arg

-- Does the operation write?
abbrev pub writes : Op → ℕ → Bool
writes Op.load old = false
writes (Op.compare_exchange expected w) old = old == expected
writes _ old = true

-- Where a thread stands.
pub data Pc : Type 0 where
  idle : Pc
  locking : Op → Pc  -- before the constructor of lock_guard
  holding : Op → Pc  -- before m_value is read
  reading : Op → ℕ → Pc  -- before m_value is written, if it is
  leaving : Pc  -- before the destructor of lock_guard

module _ (size : ℕ) where
  -- `owner` is that of g_atomicMutex; `log` has an event for each operation that has taken effect.
  pub record System : Type 0 where
    pub value : ℕ
    pub owner : Option ℕ
    pub pc : ℕ → Pc
    pub log : List Event

  abbrev pub at : (ℕ → Pc) → ℕ → Pc → ℕ → Pc
  at pc t new = λ u. if t == u then new else pc u

  abbrev pub event : ℕ → Op → ℕ → Event
  event t op old = record { thread = t; op = op; outcome = outcome op old }

  abbrev pub init : ℕ → System
  init value = record { value = value; owner = none; pc = λ t. Pc.idle; log = [] }

  pub data Step (s : System) : System → Type 0 where
    call :
        (t : ℕ) (op : Op) → s.pc t ≡ Pc.idle → Step s (record s { pc = at s.pc t (Pc.locking op) })
    lock :
        (t : ℕ) (op : Op)
        → s.pc t ≡ Pc.locking op
        → s.owner ≡ none
        → Step s (record s { owner = some t; pc = at s.pc t (Pc.holding op) })
    read :
        (t : ℕ) (op : Op)
        → s.pc t ≡ Pc.holding op
        → Step s (record s { pc = at s.pc t (Pc.reading op s.value) })
    write :
        (t : ℕ) (op : Op) (old : ℕ)
        → s.pc t ≡ Pc.reading op old
        → writes op old ≡ true
        → Step s (record s {
          value = written size op old;
          pc = at s.pc t Pc.leaving;
          log = event t op old ∷ s.log;
        })
    keep :
        (t : ℕ) (op : Op) (old : ℕ)
        → s.pc t ≡ Pc.reading op old
        → writes op old ≡ false
        → Step s (record s { pc = at s.pc t Pc.leaving; log = event t op old ∷ s.log })
    unlock :
        (t : ℕ) → s.pc t ≡ Pc.leaving → Step s (record s { owner = none; pc = at s.pc t Pc.idle })

  pub data Reach (value : ℕ) : System → Type 0 where
    start : Reach value (init value)
    next : {s t : System} → Reach value s → Step s t → Reach value t

written-next :
    (size : ℕ) (op : Op) (old : ℕ)
    → writes op old ≡ true
    → next_value size op old ≡ written size op old
unfolding next_value written
written-next size Op.load old w = ground arith
written-next size (Op.store x) old w = refl
written-next size (Op.exchange x) old w = refl
written-next size (Op.compare_exchange e x) old w = rw w refl
written-next size (Op.modify a arg) old w = refl

kept-next : (size : ℕ) (op : Op) (old : ℕ) → writes op old ≡ false → next_value size op old ≡ old
unfolding next_value
kept-next size Op.load old w = refl
kept-next size (Op.store x) old w = ground arith
kept-next size (Op.exchange x) old w = ground arith
kept-next size (Op.compare_exchange e x) old w = rw w refl
kept-next size (Op.modify a arg) old w = ground arith

module _ (size : ℕ) where
  -- What a thread relies on where it stands
  abbrev Relies : ℕ → Option ℕ → ℕ → Pc → Type 0
  Relies value owner t (Pc.holding op) = owner ≡ some t
  Relies value owner t (Pc.reading op old) = (owner ≡ some t) × (value ≡ old)
  Relies value owner t Pc.leaving = owner ≡ some t
  Relies value owner t Pc.idle = Unit
  Relies value owner t (Pc.locking op) = Unit

  record Inv (first : ℕ) (s : System size) : Type 0 where
    threads : (t : ℕ) → Relies s.value s.owner t (s.pc t)
    executes : Executes size first s.log s.value

  keeps :
      {value value' : ℕ} {owner owner' : Option ℕ} (u : ℕ)
      → (owner ≡ some u → (owner' ≡ some u) × (value' ≡ value))
      → (pc : Pc) → Relies value owner u pc
      → Relies value' owner' u pc
  keeps u k (Pc.holding op) h = (k h).0
  keeps u k (Pc.reading op old) (h, e) = ((k h).0, (k h).1 ∙ e)
  keeps u k Pc.leaving h = (k h).0
  keeps u k Pc.idle h = tt
  keeps u k (Pc.locking op) h = tt

  -- A step of the thread `t` that the others do not see
  moves :
      {value value' : ℕ} {owner owner' : Option ℕ} (pc : ℕ → Pc) (t : ℕ) (new : Pc)
      → ((u : ℕ) → Relies value owner u (pc u))
      → ((u : ℕ) → t ≢ u → owner ≡ some u → (owner' ≡ some u) × (value' ≡ value))
      → Relies value' owner' t new
      → (u : ℕ) → Relies value' owner' u (at size pc t new u)
  moves {value} {value'} {owner} {owner'} pc t new h k r u = elim (Bool-cases (t == u)) [
    | inl e ↦
        let same : t ≡ u = ground (arith, e) in
        rw e (subst (λ z. Relies value' owner' z new) same r)
    | inr e ↦ rw e (keeps u (k u (ground (arith, e))) (pc u) (h u))
  ]

  stands :
      {first : ℕ} {s : System size}
      → Inv first s
      → (t : ℕ) {pc : Pc} → s.pc t ≡ pc
      → Relies s.value s.owner t pc
  stands {s = s} inv t e = subst (Relies s.value s.owner t) e (inv.threads t)

  another : {A : Type 0} {o : Option ℕ} {t u : ℕ} → o ≡ some t → t ≢ u → o ≡ some u → A
  another e d k = absurd (d (ground arith))

  Step-Inv : {first : ℕ} {s s' : System size} → Inv first s → Step size s s' → Inv first s'
  Step-Inv {first} {s} inv (Step.call t op e) = record {
    threads = moves s.pc t (Pc.locking op) inv.threads (λ u d k. (k, refl)) tt;
    executes = inv.executes;
  }
  Step-Inv {first} {s} inv (Step.lock t op e free) = record {
    threads = moves s.pc t (Pc.holding op) inv.threads (λ u d k. absurd (ground arith)) refl;
    executes = inv.executes;
  }
  Step-Inv {first} {s} inv (Step.read t op e) = record {
    threads =
        moves s.pc t (Pc.reading op s.value) inv.threads (λ u d k. (k, refl))
          (stands inv t e, refl);
    executes = inv.executes;
  }
  Step-Inv {first} {s} inv (Step.write t op old e w) =
      let (mine, fresh) = stands inv t e in
      record {
        threads = moves s.pc t Pc.leaving inv.threads (λ u d k. another mine d k) mine;
        executes = (
          old,
          subst (λ z. Executes size first s.log z) fresh inv.executes,
          refl,
          written-next size op old w,
        );
      }
  Step-Inv {first} {s} inv (Step.keep t op old e w) =
      let (mine, fresh) = stands inv t e in
      record {
        threads = moves s.pc t Pc.leaving inv.threads (λ u d k. (k, refl)) mine;
        executes = (
          old,
          subst (λ z. Executes size first s.log z) fresh inv.executes,
          refl,
          kept-next size op old w ∙ sym fresh,
        );
      }
  Step-Inv {first} {s} inv (Step.unlock t e) =
      let mine = stands inv t e in
      record {
        threads = moves s.pc t Pc.idle inv.threads (λ u d k. another mine d k) tt;
        executes = inv.executes;
      }

  Reach-Inv : {first : ℕ} {s : System size} → Reach size first s → Inv first s
  Reach-Inv Reach.start = record { threads = λ t. tt; executes = refl }
  Reach-Inv (Reach.next r step) = Step-Inv (Reach-Inv r) step

  -- In any interleaving of any number of threads, the operations on an atomic that is larger than a word
  -- give what the same operations give without interruption, one after the other, in the order in which
  -- they take effect.
  pub locked-Executes :
      {first : ℕ} {s : System size} → Reach size first s → Executes size first s.log s.value
  locked-Executes r = (Reach-Inv r).executes
