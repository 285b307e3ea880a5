-- ===== src/Exceptions/Capture/Returns.antt =====
-- current_exception of src/_armcc/_exception.cpp when `new` may throw.
use weos.Common.{
  ℕ, suc, ◌≡◌, ◌⊎◌, refl, sym, ap, subst, true, false, Bool-cases, Option-cases, inl, inr, Option,
  none, some, List, [], ◌∷◌,
}
use weos.Exceptions.{Std, Class, Handler, Exception, catches, is_class, no_location}
use weos.Exceptions.Info.{slice, made, enable_current_exception}
use weos.Exceptions.Capture.Parts.{part-captureable, part-simple, subobject-IsPart}
use weos.Exceptions.Capture.{
  Outcome, part, subobject, clauses, caught, recover, or_else, clone, clone_exception,
  wrap_std_exception, do_convert, try_convert, catch_exception, run_clause, get_current_exception,
  current_exception,
}

-- A pointer to an exception that can be thrown again.
Pointed : Outcome (Option Exception) → Type 0
Pointed o =
    (x : Exception) × (o ≡ Outcome.returns (some x))
    × (catches Handler.captureable_handler x.class ≡ true)

-- Such a pointer, or what `new` has thrown.
Settled : Outcome (Option Exception) → Type 0
Settled o = Pointed o ⊎ ((x : Exception) × (o ≡ Outcome.raises x))

recover-Pointed : (o : Outcome (Option Exception)) → Settled o → Pointed (recover o)
unfolding Pointed Settled recover catches
recover-Pointed o (inl (x, q, k)) = (x, rw q refl, k)
recover-Pointed o (inr (x, q)) =
    elim (Bool-cases (catches (Handler.std_handler Std.bad_alloc) x.class)) [
      | inl b ↦ (made (Class.captureable Class.static_bad_alloc), rw (q, recover, b) refl, refl)
      | inr b ↦ (made (Class.captureable Class.static_bad_exception), rw (q, recover, b) refl, refl)
    ]

or_else-Settled : (o rest : Outcome (Option Exception)) → Settled o → Settled (or_else o rest)
unfolding Settled Pointed or_else
or_else-Settled o rest (inl (x, q, k)) = inl (x, ap (λ o. or_else o rest) q, k)
or_else-Settled o rest (inr (x, q)) = inr (x, ap (λ o. or_else o rest) q)

module _ (failure : Class → Option Exception) where
  clone-Settled :
      (p : Class) (e : Exception)
      → catches Handler.captureable_handler p ≡ true
      → Settled (clone failure p e)
  unfolding clone Settled Pointed slice
  clone-Settled p e k = elim (Option-cases (failure p)) [
    | inl q ↦ inl (slice p e, rw (clone, q) refl, k)
    | inr (x, q) ↦ inr (x, rw (clone, q) refl)
  ]

  module _ (n : ℕ) (registry : List ℕ) where
    again : Exception → Outcome (Option Exception)
    again x = current_exception failure (suc n) registry (some x)

    enabled-Settled :
        (e : Exception)
        → is_class e.class ≡ true
        → catches Handler.captureable_handler e.class ≡ false
        → Settled (again (enable_current_exception e))
    unfolding Settled again current_exception get_current_exception enable_current_exception part
        catches
    enabled-Settled e t k =
        let p = Class.captureable e.class in
        rw (t, k)
          (inl (
            recover-Pointed (clone failure p (record e { class = p }))
              (clone-Settled p (record e { class = p }) refl)))

    wrapped-Settled : (s : Std) (e : Exception) → Settled (wrap_std_exception failure again s e)
    unfolding wrap_std_exception clone_exception slice catches is_class
    wrapped-Settled s e = elim (Bool-cases (catches Handler.info_handler e.class)) [
      | inl i ↦ rw i (enabled-Settled (slice (Class.wrapper s) e) refl refl)
      | inr i ↦ rw i (
          enabled-Settled
            (record (slice (Class.standard s) e) {
              class = Class.wrapper s;
              location = no_location;
            })
            refl refl)
    ]

    tried-Settled :
        (ns : List ℕ) (e : Exception)
        → catches Handler.captureable_handler e.class ≡ false
        → (try_convert failure again ns e ≡ Outcome.returns none)
          ⊎ Settled (try_convert failure again ns e)
    unfolding try_convert do_convert or_else slice
    tried-Settled [] e k = inl refl
    tried-Settled (m ∷ ns) e k = elim (Option-cases (subobject m e.class)) [
      | inl q ↦ rw (try_convert, do_convert, q) (tried-Settled ns e k)
      | inr (d, q) ↦
          let is_part = subobject-IsPart m e.class d k q in
          inr (
            rw (try_convert, do_convert, q)
              (or_else-Settled (again (enable_current_exception (slice d e)))
                (try_convert failure again ns e)
                (enabled-Settled (slice d e) is_part.class is_part.simple)))
    ]

    caught-Settled :
        (e : Exception)
        → catches Handler.captureable_handler e.class ≡ false
        → Settled (catch_exception failure again registry e)
    unfolding catch_exception clone_exception or_else catches is_class
    caught-Settled e k =
        let unknown = clone_exception failure again (made Class.unknown_std) in
        elim (tried-Settled registry e k) [
          | inl q ↦
              subst Settled (sym (ap (λ o. or_else o unknown) q))
                (enabled-Settled (made Class.unknown_std) refl refl)
          | inr s ↦ or_else-Settled (try_convert failure again registry e) unknown s
        ]

    clause-Settled :
        (s : Std) (e : Exception)
        → catches Handler.captureable_handler e.class ≡ false
        → Settled (run_clause failure again registry s e)
    unfolding run_clause
    clause-Settled Std.exception e k = caught-Settled e k
    clause-Settled Std.bad_alloc e k = wrapped-Settled Std.bad_alloc e
    clause-Settled Std.bad_exception e k = wrapped-Settled Std.bad_exception e
    clause-Settled Std.logic_error e k = wrapped-Settled Std.logic_error e
    clause-Settled Std.domain_error e k = wrapped-Settled Std.domain_error e
    clause-Settled Std.invalid_argument e k = wrapped-Settled Std.invalid_argument e
    clause-Settled Std.length_error e k = wrapped-Settled Std.length_error e
    clause-Settled Std.out_of_range e k = wrapped-Settled Std.out_of_range e
    clause-Settled Std.runtime_error e k = wrapped-Settled Std.runtime_error e
    clause-Settled Std.overflow_error e k = wrapped-Settled Std.overflow_error e
    clause-Settled Std.range_error e k = wrapped-Settled Std.range_error e
    clause-Settled Std.underflow_error e k = wrapped-Settled Std.underflow_error e
    clause-Settled Std.system_error e k = wrapped-Settled Std.system_error e
    clause-Settled Std.future_error e k = wrapped-Settled Std.future_error e
    clause-Settled Std.bad_function_call e k = wrapped-Settled Std.bad_function_call e

    current-Settled : (e : Exception) → Settled (get_current_exception failure again registry e)
    unfolding get_current_exception clone_exception catches is_class
    current-Settled e = elim (Option-cases (part e.class)) [
      | inr (p, q) ↦
          rw (get_current_exception, q) (clone-Settled p e (part-captureable e.class p q))
      | inl q ↦ elim (Option-cases (caught clauses e.class)) [
        | inl c ↦ rw (get_current_exception, q, c) (enabled-Settled (made Class.unknown) refl refl)
        | inr (s, c) ↦ rw (get_current_exception, q, c) (clause-Settled s e (part-simple e.class q))
      ]
    ]

  -- current_exception, called while an exception is handled, returns an exception_ptr that is not null and points to an
  -- exception derived from CaptureableExceptionBase, whatever the clones throw and whatever converters are
  -- registered, with at most one nested call of current_exception.
  pub current_exception-returns :
      (n : ℕ) (registry : List ℕ) (e : Exception)
      → (x : Exception) × (current_exception failure (suc (suc n)) registry (some e)
          ≡ Outcome.returns (some x))
        × (catches Handler.captureable_handler x.class ≡ true)
  unfolding current_exception again Pointed
  current_exception-returns n registry e =
      recover-Pointed (get_current_exception failure (again n registry) registry e)
        (current-Settled n registry e)
