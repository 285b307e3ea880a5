-- ===== src/Future.antt =====
-- src/_cmsis_rtos/_future.hpp and _future.cpp: promise<T>, future<T> and the state that they share, for
-- one promise and the future that it hands out, in the order in which their calls take effect.
-- The constructor of the value does not throw.
pub mod Protocol
pub mod Delivery
pub mod Race
pub mod Async
pub mod Tests
use weos.Common.{
  ℕ, zero, suc, Bool, true, false, not, ◌&&◌, ltb, ◌==◌, if◌then◌else◌, Option, none, some, Result,
  ok, throws, future, no_state, future_already_retrieved, promise_already_satisfied, List, [], ◌∷◌,
}

-- SharedStateBase and SharedState<TResult>. The bits of m_flags are fields of their own; `posts` is the
-- value of the semaphore in m_cv, and `destroyed` counts the calls of destroy.
pub record Shared (V E : Type 0) : Type 0 where
  pub refs : ℕ
  pub future_attached : Bool
  pub being_satisfied : Bool
  pub value_constructed : Bool
  pub ready : Bool
  pub exception : Option E
  pub value : Option V
  pub posts : ℕ
  pub destroyed : ℕ

-- What future<T>::get hands to the caller: a value, or an exception that it throws.
pub data Outcome (V E : Type 0) : Type 0 where
  returns : V → Outcome V E
  raises : E → Outcome V E

-- The two handles (is m_state set?) and the state.
pub record World (V E : Type 0) : Type 0 where
  pub promise : Bool
  pub future : Bool
  pub shared : Shared V E

-- The calls of the two handles.
pub data Call (V E : Type 0) : Type 0 where
  get_future drop_promise drop_future get : Call V E
  set_value : V → Call V E
  set_exception : E → Call V E

module _ {V E : Type 0} where
  -- promise<T>::promise
  abbrev pub made : World V E
  made = record {
    promise = true;
    future = false;
    shared = record {
      refs = 1;
      future_attached = false;
      being_satisfied = false;
      value_constructed = false;
      ready = false;
      exception = none;
      value = none;
      posts = 0;
      destroyed = 0;
    };
  }

  pub attach_future : Shared V E → Result (Unit {0}) × Shared V E
  attach_future s =
      if s.future_attached
      then (throws (future future_already_retrieved), s)
      else (ok tt, record s { future_attached = true })

  pub start_setting_value : Shared V E → Result (Unit {0}) × Shared V E
  start_setting_value s =
      if s.being_satisfied
      then (throws (future promise_already_satisfied), s)
      else (ok tt, record s { being_satisfied = true })

  -- SharedStateBase::setException
  pub store_exception : E → Shared V E → Result (Unit {0}) × Shared V E
  unfolding start_setting_value
  store_exception e s =
      let (r, s') = start_setting_value s in
      elim r [
        | throws x ↦ (throws x, s')
        | ok _ ↦ (ok tt, record s' { exception = some e; ready = true; posts = suc s'.posts })
      ]

  -- SharedState<TResult>::setValue
  pub store_value : V → Shared V E → Result (Unit {0}) × Shared V E
  unfolding start_setting_value
  store_value v s =
      let (r, s') = start_setting_value s in
      elim r [
        | throws x ↦ (throws x, s')
        | ok _ ↦ (
          ok tt,
          record s' {
            value = some v;
            value_constructed = true;
            ready = true;
            posts = suc s'.posts;
          },
        )
      ]

  -- decReferenceCount. The count is that of the handles, so that it is not 0 in a call.
  pub dec_reference_count : Shared V E → Shared V E
  dec_reference_count s =
      let n : ℕ = elim s.refs [ zero ↦ zero | suc k ↦ k ] in
      if n == 0 then record s { refs = n; destroyed = suc s.destroyed } else record s { refs = n }

  -- moveValue and copyValue: `none` while the caller blocks in wait.
  pub move_value : Shared V E → Option (Outcome V E)
  move_value s = if not s.ready then none else (elim s.exception [
    | some e ↦ some (Outcome.raises e)
    | none ↦ elim s.value [ none ↦ none | some v ↦ some (Outcome.returns v) ]
  ])

  -- promise<T>::get_future
  pub hand_out : World V E → Result (Unit {0}) × World V E
  unfolding attach_future
  hand_out w =
      let (r, s) = attach_future w.shared in
      if not w.promise then (throws (future no_state), w) else (elim r [
        | throws x ↦ (throws x, record w { shared = s })
        | ok _ ↦ (ok tt, record w { future = true; shared = record s { refs = suc s.refs } })
      ])

  -- promise<T>::set_value
  pub give_value : V → World V E → Result (Unit {0}) × World V E
  unfolding store_value
  give_value v w =
      let (r, s) = store_value v w.shared in
      if not w.promise then (throws (future no_state), w) else (r, record w { shared = s })

  -- promise<T>::set_exception
  pub give_exception : E → World V E → Result (Unit {0}) × World V E
  unfolding store_exception
  give_exception e w =
      let (r, s) = store_exception e w.shared in
      if not w.promise then (throws (future no_state), w) else (r, record w { shared = s })

  -- promise<T>::~promise; `broken` is the exception for a broken promise. An exception of setException
  -- would leave the destructor.
  pub destroy_promise : E → World V E → Result (Unit {0}) × World V E
  unfolding store_exception dec_reference_count
  destroy_promise broken w =
      let (r, s) = store_exception broken w.shared in
      if not w.promise
      then (ok tt, w)
      else if not w.shared.ready && ltb 1 w.shared.refs
      then (elim r [
        | throws x ↦ (throws x, record w { shared = s })
        | ok _ ↦ (ok tt, record w { promise = false; shared = dec_reference_count s })
      ])
      else (ok tt, record w { promise = false; shared = dec_reference_count w.shared })

  -- future<T>::~future
  pub destroy_future : World V E → World V E
  unfolding dec_reference_count
  destroy_future w =
      if w.future then record w { future = false; shared = dec_reference_count w.shared } else w

  -- future<T>::get of a valid future: `none` while the caller blocks.
  pub take : World V E → Option (Outcome V E × World V E)
  unfolding move_value dec_reference_count
  take w = elim (move_value w.shared) [
    | none ↦ none
    | some o ↦ some (o, record w { future = false; shared = dec_reference_count w.shared })
  ]

  -- The state after a call. A call of get on a future that is not valid is not made, and one that blocks
  -- has not happened yet.
  pub after : E → World V E → Call V E → World V E
  unfolding hand_out give_value give_exception destroy_promise destroy_future take
  after broken w Call.get_future = (hand_out w).1
  after broken w Call.drop_promise = (destroy_promise broken w).1
  after broken w Call.drop_future = destroy_future w
  after broken w Call.get = if w.future then (elim (take w) [ none ↦ w | some (o, w') ↦ w' ]) else w
  after broken w (Call.set_value v) = (give_value v w).1
  after broken w (Call.set_exception e) = (give_exception e w).1

  pub run : E → World V E → List (Call V E) → World V E
  unfolding after
  run broken w [] = w
  run broken w (c ∷ cs) = run broken (after broken w c) cs
