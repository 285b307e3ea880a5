-- ===== src/ConditionVariable/Invariant.antt =====
-- What holds of every thread in a wait of src/_cmsis_rtos/_condition_variable.cpp.
use weos.Common.{
  ℕ, ◌<◌, ◌≡◌, ◌≢◌, inl, inr, refl, ◌∙◌, arith, ◌==◌, Bool-cases, subst, Bool, true, false,
}
use weos.WaitQueue.{WaitQueue, Wakeable, Elsewhere}
use weos.ConditionVariable.{Owner, WaiterPc, NotifierPc, has_notified, System, at}

module _ (queue : WaitQueue) where
  open queue use {Q, Waits, tokens}

  -- What a thread relies on where it stands: `flag` is the predicate, `after` tells whether notify_all has
  -- been called.
  abbrev pub Relies : Bool → Owner → Q → Bool → ℕ → WaiterPc → Type 0
  Relies flag owner q after t WaiterPc.testing = owner ≡ Owner.waiter t
  Relies flag owner q after t WaiterPc.constructing = (owner ≡ Owner.waiter t) × (flag ≡ false)
  Relies flag owner q after t WaiterPc.releasing =
      (owner ≡ Owner.waiter t) × (flag ≡ false) × Wakeable queue q t
  Relies flag owner q after t WaiterPc.sleeping =
      Wakeable queue q t × (after ≡ true → 0 < tokens q t)
  Relies flag owner q after t WaiterPc.leaving = owner ≡ Owner.waiter t
  Relies flag owner q after t WaiterPc.passed = (owner ≡ Owner.waiter t) × (flag ≡ true)
  Relies flag owner q after t WaiterPc.arriving = Unit
  Relies flag owner q after t WaiterPc.relocking = Unit
  Relies flag owner q after t WaiterPc.gone = Unit

  abbrev pub NotifierRelies : Bool → Owner → NotifierPc → Type 0
  NotifierRelies flag owner NotifierPc.idle = Unit
  NotifierRelies flag owner NotifierPc.locked = owner ≡ Owner.notifier
  NotifierRelies flag owner NotifierPc.set = (owner ≡ Owner.notifier) × (flag ≡ true)
  NotifierRelies flag owner NotifierPc.unlocked = flag ≡ true
  NotifierRelies flag owner NotifierPc.notified = (owner ≡ Owner.notifier) × (flag ≡ true)
  NotifierRelies flag owner NotifierPc.finished = flag ≡ true

  pub record Inv (s : System queue) : Type 0 where
    pub waiters : (t : ℕ) → Relies s.flag s.owner s.waiting (has_notified s.notifying) t (s.pc t)
    pub notifiers : NotifierRelies s.flag s.owner s.notifying

  -- A change that thread `u` does not see
  pub record Keeps (flag flag' : Bool) (owner owner' : Owner) (q q' : Q) (after after' : Bool)
      (u : ℕ) : Type 0 where
    lock : owner ≡ Owner.waiter u → (owner' ≡ Owner.waiter u) × (flag' ≡ flag)
    wakeable : Wakeable queue q u → Wakeable queue q' u
    reached : Wakeable queue q u → (after ≡ true → 0 < tokens q u) → after' ≡ true → 0 < tokens q' u

  pub keeps :
      {flag flag' : Bool} {owner owner' : Owner} {q q' : Q} {after after' : Bool} (u : ℕ)
      → Keeps flag flag' owner owner' q q' after after' u
      → (pc : WaiterPc) → Relies flag owner q after u pc
      → Relies flag' owner' q' after' u pc
  keeps u k WaiterPc.testing h = let (a, b) = k.lock h in a
  keeps u k WaiterPc.constructing (h, f) = let (a, b) = k.lock h in (a, b ∙ f)
  keeps u k WaiterPc.releasing (h, f, w) = let (a, b) = k.lock h in (a, b ∙ f, k.wakeable w)
  keeps u k WaiterPc.sleeping (w, f) = (k.wakeable w, k.reached w f)
  keeps u k WaiterPc.leaving h = let (a, b) = k.lock h in a
  keeps u k WaiterPc.passed (h, f) = let (a, b) = k.lock h in (a, b ∙ f)
  keeps u k WaiterPc.arriving h = tt
  keeps u k WaiterPc.relocking h = tt
  keeps u k WaiterPc.gone h = tt

  -- A thread `t` moves on, and the others do not see it.
  pub moves :
      {flag flag' : Bool} {owner owner' : Owner} {q q' : Q} {after after' : Bool}
      (pc : ℕ → WaiterPc) (t : ℕ) (new : WaiterPc)
      → ((u : ℕ) → Relies flag owner q after u (pc u))
      → ((u : ℕ) → t ≢ u → Keeps flag flag' owner owner' q q' after after' u)
      → Relies flag' owner' q' after' t new
      → (u : ℕ) → Relies flag' owner' q' after' u (at queue pc t new u)
  moves {flag} {flag'} {owner} {owner'} {q} {q'} {after} {after'} pc t new h k r u =
      elim (Bool-cases (t == u)) [
        | inl e ↦
            let same : t ≡ u = ground (arith, e) in
            rw e (subst (λ z. Relies flag' owner' q' after' z new) same r)
        | inr e ↦ rw e (keeps u (k u (ground (arith, e))) (pc u) (h u))
      ]

  -- The queue changes at most at the node of another thread.
  pub elsewhere :
      {flag flag' : Bool} {owner owner' : Owner} {q q' : Q} {after after' : Bool} (u : ℕ)
      → (owner ≡ Owner.waiter u → (owner' ≡ Owner.waiter u) × (flag' ≡ flag))
      → Elsewhere queue q q' u
      → (after' ≡ true → after ≡ true)
      → Keeps flag flag' owner owner' q q' after after' u
  elsewhere u lock (stays, same) earlier = record {
    lock = lock;
    wakeable = λ w. elim w [ inl x ↦ inl (stays x) | inr x ↦ inr (rw same x) ];
    reached = λ w f e. rw same (f (earlier e));
  }

  -- The notifying thread does not see a change either.
  pub notifier_keeps :
      (flag : Bool) {owner owner' : Owner} (n : NotifierPc)
      → (owner ≡ Owner.notifier → owner' ≡ Owner.notifier)
      → NotifierRelies flag owner n
      → NotifierRelies flag owner' n
  notifier_keeps flag NotifierPc.idle k h = tt
  notifier_keeps flag NotifierPc.locked k h = k h
  notifier_keeps flag NotifierPc.set k (h, f) = (k h, f)
  notifier_keeps flag NotifierPc.unlocked k h = h
  notifier_keeps flag NotifierPc.notified k (h, f) = (k h, f)
  notifier_keeps flag NotifierPc.finished k h = h

  -- notify_all reaches every thread that can be reached.
  pub told :
      {flag : Bool} {owner : Owner} {q q' : Q} {after after' : Bool} (u : ℕ)
      → queue.Notifies q q'
      → Keeps flag flag owner owner q q' after after' u
  told {q = q} {q' = q'} u r =
      let reach : Wakeable queue q u → 0 < tokens q' u = λ w. elim w [
        | inl x ↦ queue.notifies_waiting r u x
        | inr x ↦ let grows = queue.notifies_tokens r u in omega arith
      ] in
      record { lock = λ k. (k, refl); wakeable = λ w. inr (reach w); reached = λ w f e. reach w }
