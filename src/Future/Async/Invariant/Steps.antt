-- ===== src/Future/Async/Invariant/Steps.antt =====
-- The steps of async in src/_cmsis_rtos/_future.hpp.
use weos.Common.{suc, refl, sym, ◌∙◌, ap, arith, false, none, some}
use weos.Future.{Outcome}
use weos.Future.Async.{Purpose, Caller, passed, reposted, System, Step, init, Reach}
use weos.Future.Async.Invariant.{
  has_satisfied, has_marked, has_notified, purpose_refs, held, owed, dead, has_attached, stored,
  IsResult, Serves, Knows, Inv, works, stands,
}
use weos.Future.Async.Invariant.Moves.{
  notified-marked, Knows-marked, stored-result, stays, begin-Inv, see-Inv, repost-Inv,
}

module _ {V E : Type 0} where
  module _ (result : Outcome V E) where
    Step-Inv : {s t : System V E} → Inv result s → Step result s t → Inv result t
    unfolding Inv held owed dead has_attached purpose_refs has_satisfied has_marked has_notified
        stored Knows Serves IsResult passed reposted
    Step-Inv {s} inv (Step.call e) =
        let f = works result {s = s} inv e in
        record {
          refs = f.refs;
          attached = f.attached;
          satisfied = f.satisfied;
          ready = f.ready;
          outcome = f.outcome;
          posts = f.posts;
          destroyed = f.destroyed;
          status = f.status;
          knows = f.knows;
          present = f.present;
        }
    Step-Inv {s} inv (Step.start_setting_value e b) =
        let f = works result {s = s} inv e in
        record {
          refs = f.refs;
          attached = f.attached;
          satisfied = refl;
          ready = f.ready;
          outcome = f.outcome;
          posts = f.posts;
          destroyed = f.destroyed;
          status = f.status;
          knows = f.knows;
          present = f.present;
        }
    Step-Inv {s} inv (Step.store e) =
        let f = works result {s = s} inv e in
        record {
          refs = f.refs;
          attached = f.attached;
          satisfied = f.satisfied;
          ready = f.ready;
          outcome = refl;
          posts = f.posts;
          destroyed = f.destroyed;
          status = f.status;
          knows = f.knows;
          present = f.present;
        }
    Step-Inv {s} inv (Step.mark e) =
        let f = works result {s = s} inv e in
        record {
          refs = f.refs;
          attached = f.attached;
          satisfied = f.satisfied;
          ready = refl;
          outcome = f.outcome;
          posts = f.posts;
          destroyed = f.destroyed;
          status = λ q. refl;
          knows = Knows-marked result s.ready s.caller f.knows;
          present = f.present;
        }
    Step-Inv {s} inv (Step.notify e) =
        let f = works result {s = s} inv e in
        record {
          refs = f.refs;
          attached = f.attached;
          satisfied = f.satisfied;
          ready = f.ready;
          outcome = f.outcome;
          posts = omega (arith, f.posts);
          destroyed = f.destroyed;
          status = f.status;
          knows = f.knows;
          present = f.present;
        }
    Step-Inv {s} inv (Step.attach e b) =
        let f = stands result {s = s} inv e in
        record {
          refs = ap suc f.refs;
          attached = refl;
          satisfied = f.satisfied;
          ready = f.ready;
          outcome = f.outcome;
          posts = f.posts;
          destroyed = f.destroyed;
          status = f.status;
          knows = tt;
          present = f.present;
        }
    Step-Inv {s} inv (Step.leave e) =
        let f = stands result {s = s} inv e in
        record {
          refs = omega (arith, f.refs);
          attached = f.attached;
          satisfied = f.satisfied;
          ready = f.ready;
          outcome = f.outcome;
          posts = f.posts;
          destroyed = f.destroyed;
          status = f.status;
          knows = tt;
          present = f.present;
        }
    Step-Inv {s} inv (Step.drop e) =
        let f = stands result {s = s} inv e in
        stays result s Caller.holding (Caller.dropping none) s.status f refl refl refl refl f.status
          tt
    Step-Inv {s} inv (Step.read o e h) =
        let f = stands result {s = s} inv e in
        stays result s Caller.reading (Caller.dropping (some o)) s.status f refl refl refl refl
          f.status (stored-result result s.worker o (sym f.outcome ∙ h))
    Step-Inv {s} inv (Step.release_last o e z) =
        let f = stands result {s = s} inv e in
        record {
          refs = omega (arith, f.refs);
          attached = f.attached;
          satisfied = f.satisfied;
          ready = f.ready;
          outcome = f.outcome;
          posts = f.posts;
          destroyed = f.destroyed;
          status = f.status;
          knows = f.knows;
          present = f.present;
        }
    Step-Inv {s} inv (Step.release o e z) =
        let f = stands result {s = s} inv e in absurd (z (omega (arith, f.refs)))
    Step-Inv {s} inv (Step.free o e) =
        let f = stands result {s = s} inv e in
        record {
          refs = f.refs;
          attached = f.attached;
          satisfied = f.satisfied;
          ready = f.ready;
          outcome = f.outcome;
          posts = f.posts;
          destroyed = ap suc f.destroyed;
          status = f.status;
          knows = f.knows;
          present = f.present;
        }
    Step-Inv {s} inv (Step.timeout e) =
        let f = stands result {s = s} inv e in
        stays result s (Caller.blocked Purpose.wait_for) Caller.holding (some false) f refl refl
          refl refl (λ q. absurd (ground arith)) tt
    Step-Inv {s} inv (Step.begin p e h) = begin-Inv result s p inv e h
    Step-Inv {s} inv (Step.see p e h) = see-Inv result s p inv e h
    Step-Inv {s} inv (Step.block p e h) =
        let f = stands result {s = s} inv e in
        stays result s (Caller.testing p) (Caller.blocked p) s.status f refl refl refl refl f.status
          f.knows
    Step-Inv {s} inv (Step.decrement p n e h) =
        let f = stands result {s = s} inv e in
        record {
          refs = f.refs;
          attached = f.attached;
          satisfied = f.satisfied;
          ready = f.ready;
          outcome = f.outcome;
          posts = omega (arith, f.posts, h);
          destroyed = f.destroyed;
          status = f.status;
          knows = (f.ready ∙ notified-marked s.worker n (ground (arith, f.posts, h)), f.knows);
          present = f.present;
        }
    Step-Inv {s} inv (Step.repost p e) = repost-Inv result s p inv e

    pub Reach-Inv : {s : System V E} → Reach result init s → Inv result s
    unfolding Inv held owed dead has_attached purpose_refs has_satisfied has_marked has_notified
        stored Knows Serves IsResult passed reposted
    Reach-Inv Reach.start = record {
      refs = refl;
      attached = refl;
      satisfied = refl;
      ready = refl;
      outcome = refl;
      posts = refl;
      destroyed = refl;
      status = λ q. absurd (ground arith);
      knows = tt;
      present = tt;
    }
    Reach-Inv (Reach.next r step) = Step-Inv (Reach-Inv r) step
