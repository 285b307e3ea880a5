-- ===== src/Future/Async/Invariant/Moves.antt =====
-- Moves of the caller of async in src/_cmsis_rtos/_future.hpp.
use weos.Common.{ℕ, suc, ◌+◌, ◌≡◌, ◌≢◌, refl, sym, ◌∙◌, ap, arith, Bool, true, Option, some}
use weos.Future.{Outcome}
use weos.Future.Async.{Worker, Purpose, Caller, passed, reposted, noted, System}
use weos.Future.Async.Invariant.{
  has_satisfied, has_marked, has_notified, purpose_refs, held, owed, dead, has_attached, stored,
  IsResult, Serves, Knows, Facts, Inv, stands,
}

pub notified-marked : (w : Worker) (n : ℕ) → has_notified w ≡ suc n → has_marked w ≡ true
unfolding has_notified has_marked
notified-marked Worker.finished n h = refl
notified-marked Worker.notifying n h = refl
notified-marked _ n h = absurd (ground arith)

module _ {V E : Type 0} where
  module _ (result : Outcome V E) where
    pub Knows-marked : (r : Bool) (c : Caller V E) → Knows result r c → Knows result true c
    unfolding Knows
    Knows-marked r Caller.making k = tt
    Knows-marked r Caller.attached k = tt
    Knows-marked r Caller.holding k = tt
    Knows-marked r (Caller.testing p) k = k
    Knows-marked r (Caller.blocked p) k = k
    Knows-marked r (Caller.reposting p) k = (refl, k.1)
    Knows-marked r Caller.reading k = refl
    Knows-marked r (Caller.dropping o) k = k
    Knows-marked r (Caller.freeing o) k = (refl, k.1)
    Knows-marked r (Caller.gone o) k = (refl, k.1)

    pub stored-result : (w : Worker) (o : Outcome V E) → stored result w ≡ some o → o ≡ result
    unfolding stored
    stored-result Worker.absent o h = absurd (ground arith)
    stored-result Worker.calling o h = absurd (ground arith)
    stored-result Worker.starting o h = absurd (ground arith)
    stored-result Worker.storing o h = absurd (ground arith)
    stored-result Worker.marking o h = ground arith
    stored-result Worker.notifying o h = ground arith
    stored-result Worker.finished o h = ground arith

    -- The caller moves on between places where it has as many references and owes as many tokens.
    pub stays :
        (s : System V E) (c c' : Caller V E) (status : Option Bool)
        → Facts result s s.worker c
        → held c' ≡ held c
        → has_attached c' ≡ has_attached c
        → owed c' ≡ owed c
        → dead c' ≡ dead c
        → (status ≡ some true → s.ready ≡ true)
        → Knows result s.ready c'
        → Facts result (record s { caller = c'; status = status }) s.worker c'
    stays s c c' status f h a o d st k = record {
      refs = f.refs ∙ sym h;
      attached = f.attached ∙ sym a;
      satisfied = f.satisfied;
      ready = f.ready;
      outcome = f.outcome;
      posts = ap (λ m. s.posts + m) o ∙ f.posts;
      destroyed = f.destroyed ∙ sym d;
      status = st;
      knows = k;
      present = f.present;
    }

    -- The caller begins to wait.
    pub begin-Inv :
        (s : System V E) (p : Purpose V E)
        → Inv result s
        → s.caller ≡ Caller.holding
        → ((o : Option (Outcome V E)) → p ≢ Purpose.destroy o)
        → Inv result (record s { caller = Caller.testing p })
    unfolding Inv held owed dead has_attached purpose_refs has_satisfied has_marked has_notified
        stored Knows Serves IsResult passed reposted
    begin-Inv s Purpose.wait inv e h =
        let f = stands result {s = s} inv e in
        stays s Caller.holding (Caller.testing Purpose.wait) s.status f refl refl refl refl f.status
          tt
    begin-Inv s Purpose.wait_for inv e h =
        let f = stands result {s = s} inv e in
        stays s Caller.holding (Caller.testing Purpose.wait_for) s.status f refl refl refl refl
          f.status tt
    begin-Inv s Purpose.get inv e h =
        let f = stands result {s = s} inv e in
        stays s Caller.holding (Caller.testing Purpose.get) s.status f refl refl refl refl f.status
          tt
    begin-Inv s (Purpose.destroy o) inv e h = absurd (h o refl)

    pub see-Inv :
        (s : System V E) (p : Purpose V E)
        → Inv result s
        → s.caller ≡ Caller.testing p
        → s.ready ≡ true
        → Inv result (record s { caller = passed p; status = noted p s.status })
    unfolding Inv held owed dead has_attached purpose_refs has_satisfied has_marked has_notified
        stored Knows Serves IsResult passed reposted
    see-Inv s Purpose.wait inv e h =
        let f = stands result {s = s} inv e in
        stays s (Caller.testing Purpose.wait) Caller.holding s.status f refl refl refl refl f.status
          tt
    see-Inv s Purpose.wait_for inv e h =
        let f = stands result {s = s} inv e in
        stays s (Caller.testing Purpose.wait_for) Caller.holding (some true) f refl refl refl refl
          (λ q. h) tt
    see-Inv s Purpose.get inv e h =
        let f = stands result {s = s} inv e in
        stays s (Caller.testing Purpose.get) Caller.reading s.status f refl refl refl refl f.status
          h
    see-Inv s (Purpose.destroy o) inv e h =
        let f = stands result {s = s} inv e in
        stays s (Caller.testing (Purpose.destroy o)) (Caller.freeing o) s.status f refl refl refl
          refl f.status ((h, f.knows))

    pub repost-Inv :
        (s : System V E) (p : Purpose V E)
        → Inv result s
        → s.caller ≡ Caller.reposting p
        → Inv result
            (record s { posts = suc s.posts; caller = reposted p; status = noted p s.status })
    unfolding Inv held owed dead has_attached purpose_refs has_satisfied has_marked has_notified
        stored Knows Serves IsResult passed reposted
    repost-Inv s Purpose.wait inv e =
        let f = stands result {s = s} inv e in
        record {
          refs = f.refs;
          attached = f.attached;
          satisfied = f.satisfied;
          ready = f.ready;
          outcome = f.outcome;
          posts = omega (arith, f.posts);
          destroyed = f.destroyed;
          status = f.status;
          knows = tt;
          present = f.present;
        }
    repost-Inv s Purpose.wait_for inv e =
        let f = stands result {s = s} inv e in
        record {
          refs = f.refs;
          attached = f.attached;
          satisfied = f.satisfied;
          ready = f.ready;
          outcome = f.outcome;
          posts = omega (arith, f.posts);
          destroyed = f.destroyed;
          status = λ q. f.knows.0;
          knows = tt;
          present = f.present;
        }
    repost-Inv s Purpose.get inv e =
        let f = stands result {s = s} inv e in
        record {
          refs = f.refs;
          attached = f.attached;
          satisfied = f.satisfied;
          ready = f.ready;
          outcome = f.outcome;
          posts = omega (arith, f.posts);
          destroyed = f.destroyed;
          status = f.status;
          knows = tt;
          present = f.present;
        }
    repost-Inv s (Purpose.destroy o) inv e =
        let f = stands result {s = s} inv e in
        record {
          refs = f.refs;
          attached = f.attached;
          satisfied = f.satisfied;
          ready = f.ready;
          outcome = f.outcome;
          posts = omega (arith, f.posts);
          destroyed = f.destroyed;
          status = f.status;
          knows = f.knows.1;
          present = f.present;
        }
