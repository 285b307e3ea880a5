-- ===== src/Future/Delivery.antt =====
-- What the future of src/_cmsis_rtos/_future.hpp delivers.
use weos.Common.{
  true, false, ◌≡◌, refl, ◌∙◌, arith, Option, none, some, ok, throws, future,
  promise_already_satisfied, List, [], ◌∷◌, ◌⊎◌, inl, inr, Bool-cases,
}
use weos.Future.{
  Shared, World, Call, Outcome, returns, raises, hand_out, give_value, give_exception,
  destroy_promise, destroy_future, take, after, run, made, attach_future, start_setting_value,
  store_exception, store_value, dec_reference_count, move_value,
}
use weos.Future.Protocol.{IsShared, run-IsShared, after-IsShared}

module _ {V E : Type 0} where
  -- What the future of a promise that is dropped now has to deliver.
  abbrev pub owed : E → Shared V E → Outcome V E
  owed broken s = elim s.exception [
    | some e ↦ raises e
    | none ↦ elim s.value [ some v ↦ returns v | none ↦ raises broken ]
  ]

  abbrev pub outcome : Option (Outcome V E × World V E) → Option (Outcome V E)
  outcome none = none
  outcome (some (o, w)) = some o

  -- The promise can be dropped, and get then does not block but delivers `o`.
  abbrev pub Delivers : E → World V E → Outcome V E → Type 0
  Delivers broken w o =
      ((destroy_promise broken w).0 ≡ ok tt)
      × (outcome (take (destroy_promise broken w).1) ≡ some o)

  abbrev pub SameResult : Shared V E → Shared V E → Type 0
  SameResult s s' = (s'.ready ≡ true) × (s'.exception ≡ s.exception) × (s'.value ≡ s.value)

  after-SameResult :
      (broken : E) (w : World V E) (c : Call V E)
      → IsShared w
      → w.shared.ready ≡ true
      → SameResult w.shared (after broken w c).shared
  unfolding after hand_out give_value give_exception destroy_promise destroy_future take
      attach_future start_setting_value store_exception store_value dec_reference_count move_value
  after-SameResult broken w Call.get_future h q = ground arith
  after-SameResult broken w Call.drop_promise h q = ground arith
  after-SameResult broken w Call.drop_future h q = ground arith
  after-SameResult broken w Call.get h q = ground arith
  after-SameResult broken w (Call.set_value v) h q = ground arith
  after-SameResult broken w (Call.set_exception e) h q = ground arith

  run-SameResult :
      (broken : E) (w : World V E) (cs : List (Call V E))
      → IsShared w
      → w.shared.ready ≡ true
      → SameResult w.shared (run broken w cs).shared
  unfolding run
  run-SameResult broken w [] h q = (q, refl, refl)
  run-SameResult broken w (c ∷ cs) h q =
      let (r, a, b) = after-SameResult broken w c h q in
      let (r', a', b') =
        run-SameResult broken (after broken w c) cs (after-IsShared broken w c h) r in
      (r', a' ∙ a, b' ∙ b)

  -- What set_value does through a promise that has its state.
  abbrev pub Given : E → V → World V E → Type 0
  Given broken v w =
      ((w.shared.ready ≡ true) × (give_value v w ≡ (throws (future promise_already_satisfied), w)))
      ⊎ ((w.shared.ready ≡ false)
          × ((give_value v w).0 ≡ ok tt)
          × ((cs : List (Call V E)) → (run broken (give_value v w).1 cs).shared.value ≡ some v))

  give_value-open :
      (w : World V E) (v : V)
      → IsShared w
      → w.promise ≡ true
      → w.shared.ready ≡ false
      → ((give_value v w).0 ≡ ok tt)
        × ((give_value v w).1.shared.ready ≡ true)
        × ((give_value v w).1.shared.value ≡ some v)
  unfolding give_value store_value start_setting_value
  give_value-open w v h p q = ground arith

  give_value-closed :
      (w : World V E) (v : V)
      → IsShared w
      → w.promise ≡ true
      → w.shared.ready ≡ true
      → give_value v w ≡ (throws (future promise_already_satisfied), w)
  unfolding give_value store_value start_setting_value
  give_value-closed w v h p q = ground arith

  give_value-Given :
      (broken : E) (w : World V E) (v : V) → IsShared w → w.promise ≡ true → Given broken v w
  unfolding after
  give_value-Given broken w v h p = elim (Bool-cases w.shared.ready) [
    | inl q ↦ inl (q, give_value-closed w v h p q)
    | inr q ↦
        let (r, a, b) = give_value-open w v h p q in
        let h' : IsShared (give_value v w).1 = after-IsShared broken w (Call.set_value v) h in
        inr (q, r, λ cs. let (x, y, z) = run-SameResult broken (give_value v w).1 cs h' a in z ∙ b)
  ]

  -- After any calls that leave the promise its state, set_value stores the value, which no later calls
  -- replace; if a value or an exception was set before, it throws and changes nothing.
  pub set_value-Given :
      (broken : E) (cs : List (Call V E)) (v : V)
      → (run broken made cs).promise ≡ true
      → Given broken v (run broken made cs)
  set_value-Given broken cs v p =
      give_value-Given broken (run broken made cs) v (run-IsShared broken cs) p
