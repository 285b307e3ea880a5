-- ===== src/Future/Protocol.antt =====
-- The protocol of src/_cmsis_rtos/_future.hpp: what holds after any calls of a promise and its future.
use weos.Common.{
  ◌+◌, ℕ, Bool, true, false, not, ◌&&◌, ◌||◌, ◌==◌, ◌≡◌, refl, arith, Option, none, some, List, [],
  ◌∷◌,
}
use weos.Future.{
  Shared, World, Call, hand_out, give_value, give_exception, destroy_promise, destroy_future, take,
  after, run, made, attach_future, start_setting_value, store_exception, store_value,
  dec_reference_count, move_value,
}

abbrev pub is_some : {A : Type 0} → Option A → Bool
is_some none = false
is_some (some a) = true

abbrev pub bit : Bool → ℕ
bit true = 1
bit false = 0

module _ {V E : Type 0} where
  -- Ready exactly when a value or an exception is stored, and never both; one post wakes the waiter.
  abbrev pub IsStored : Shared V E → Type 0
  IsStored s =
      (s.being_satisfied ≡ s.ready)
      × (s.ready ≡ (is_some s.exception || is_some s.value))
      × ((is_some s.exception && is_some s.value) ≡ false)
      × (s.value_constructed ≡ is_some s.value)
      × (s.posts ≡ bit s.ready)

  -- The reference count is the number of handles, the state is destroyed exactly when there is none, and
  -- a future whose promise is gone is ready.
  abbrev pub IsShared : World V E → Type 0
  IsShared w =
      IsStored w.shared
      × (w.shared.refs ≡ bit w.promise + bit w.future)
      × (w.shared.destroyed ≡ bit (w.shared.refs == 0))
      × ((w.future && not w.shared.future_attached) ≡ false)
      × ((w.future && not w.promise && not w.shared.ready) ≡ false)

  pub after-IsShared :
      (broken : E) (w : World V E) (c : Call V E) → IsShared w → IsShared (after broken w c)
  unfolding after hand_out give_value give_exception destroy_promise destroy_future take
      attach_future start_setting_value store_exception store_value dec_reference_count move_value
  after-IsShared broken w Call.get_future h = ground arith
  after-IsShared broken w Call.drop_promise h = ground arith
  after-IsShared broken w Call.drop_future h = ground arith
  after-IsShared broken w Call.get h = ground arith
  after-IsShared broken w (Call.set_value v) h = ground arith
  after-IsShared broken w (Call.set_exception e) h = ground arith

  pub run-keeps :
      (broken : E) (w : World V E) (cs : List (Call V E)) → IsShared w → IsShared (run broken w cs)
  unfolding run
  run-keeps broken w [] h = h
  run-keeps broken w (c ∷ cs) h =
      run-keeps broken (after broken w c) cs (after-IsShared broken w c h)

  -- After any calls, from the promise's constructor on, the state is ready exactly when one value or one
  -- exception is stored; the reference count is the number of handles; the state has been destroyed
  -- once if there is none, and not at all otherwise; and a future that has lost its promise is ready.
  pub run-IsShared : (broken : E) (cs : List (Call V E)) → IsShared (run broken made cs)
  run-IsShared broken cs =
      run-keeps broken made cs ((refl, refl, refl, refl, refl), refl, refl, refl, refl)
