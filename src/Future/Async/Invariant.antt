-- ===== src/Future/Async/Invariant.antt =====
-- What holds between the steps of the thread and the caller of async in src/_cmsis_rtos/_future.hpp.
pub mod Moves
pub mod Steps
pub mod Delivered
pub mod Progress
use weos.Common.{
  ℕ, zero, suc, ◌+◌, ◌-◌, ◌≤◌, ◌≡◌, ◌≢◌, refl, sym, ◌∙◌, subst, ap, arith, Bool, true, false,
  Option, none, some,
}
use weos.Future.{Outcome}
use weos.Future.Async.{Worker, Purpose, Caller, passed, reposted, noted, System, init, Step, Reach}

pub has_satisfied : Worker → Bool
has_satisfied Worker.absent = false
has_satisfied Worker.calling = false
has_satisfied Worker.starting = false
has_satisfied _ = true

abbrev pub Present : Worker → Type 0
Present Worker.absent = ⊥
Present _ = Unit

pub has_marked : Worker → Bool
has_marked Worker.notifying = true
has_marked Worker.finished = true
has_marked _ = false

pub has_notified : Worker → ℕ
has_notified Worker.finished = 1
has_notified _ = 0

module _ {V E : Type 0} where
  -- The references that the caller has.
  pub purpose_refs : Purpose V E → ℕ
  purpose_refs (Purpose.destroy o) = 0
  purpose_refs _ = 1

  pub held : Caller V E → ℕ
  unfolding purpose_refs
  held Caller.attached = 2
  held (Caller.testing p) = purpose_refs p
  held (Caller.blocked p) = purpose_refs p
  held (Caller.reposting p) = purpose_refs p
  held (Caller.freeing o) = 0
  held (Caller.gone o) = 0
  held _ = 1

  -- The token that the caller has taken and must post again.
  pub owed : Caller V E → ℕ
  owed (Caller.reposting p) = 1
  owed _ = 0

  pub dead : Caller V E → ℕ
  dead (Caller.gone o) = 1
  dead _ = 0

  pub has_attached : Caller V E → Bool
  has_attached Caller.making = false
  has_attached _ = true

  module _ (result : Outcome V E) where
    pub stored : Worker → Option (Outcome V E)
    stored Worker.marking = some result
    stored Worker.notifying = some result
    stored Worker.finished = some result
    stored _ = none

    -- What get has given, if it has given something, is the result of the callable.
    pub IsResult : Option (Outcome V E) → Type 0
    IsResult none = Unit
    IsResult (some o) = o ≡ result

    pub Serves : Purpose V E → Type 0
    unfolding IsResult
    Serves (Purpose.destroy o) = IsResult o
    Serves _ = Unit

    -- What the caller knows where it stands.
    pub Knows : Bool → Caller V E → Type 0
    unfolding Serves IsResult
    Knows ready (Caller.testing p) = Serves p
    Knows ready (Caller.blocked p) = Serves p
    Knows ready (Caller.reposting p) = (ready ≡ true) × Serves p
    Knows ready Caller.reading = ready ≡ true
    Knows ready (Caller.dropping o) = IsResult o
    Knows ready (Caller.freeing o) = (ready ≡ true) × IsResult o
    Knows ready (Caller.gone o) = (ready ≡ true) × IsResult o
    Knows ready _ = Unit

    pub record Facts (s : System V E) (worker : Worker) (caller : Caller V E) : Type 0 where
      pub refs : s.refs ≡ held caller
      pub attached : s.future_attached ≡ has_attached caller
      pub satisfied : s.being_satisfied ≡ has_satisfied worker
      pub ready : s.ready ≡ has_marked worker
      pub outcome : s.outcome ≡ stored worker
      pub posts : s.posts + owed caller ≡ has_notified worker
      pub destroyed : s.destroyed ≡ dead caller
      pub status : s.status ≡ some true → s.ready ≡ true
      pub knows : Knows s.ready caller
      pub present : Present worker

    pub Inv : System V E → Type 0
    Inv s = Facts s s.worker s.caller

    -- The facts, where the thread or the caller stands at a known place.
    pub works : {s : System V E} {w : Worker} → Inv s → s.worker ≡ w → Facts s w s.caller
    unfolding Inv
    works {s} inv e = subst (λ w. Facts s w s.caller) e inv

    pub stands : {s : System V E} {c : Caller V E} → Inv s → s.caller ≡ c → Facts s s.worker c
    unfolding Inv
    stands {s} inv e = subst (λ c. Facts s s.worker c) e inv
