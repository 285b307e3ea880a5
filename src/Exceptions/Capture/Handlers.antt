-- ===== src/Exceptions/Capture/Handlers.antt =====
-- Which handlers take an exception that was captured by current_exception of src/_armcc/_exception.cpp.
use weos.Common.{
  ℕ, suc, ◌≡◌, ◌⊎◌, refl, sym, ◌∙◌, ap, subst, arith, true, false, Bool-cases, Option-cases, inl,
  inr, Option, none, some, List, [], ◌∷◌,
}
use weos.Exceptions.{
  Std, Class, Handler, Exception, catches, is_class, root, no_location, std_catches,
}
use weos.Exceptions.Info.{slice, made, enable_current_exception}
use weos.Exceptions.Capture.Parts.{part-none, subobject-IsPart}
use weos.Exceptions.Capture.Clauses.{
  clause_of, has_clause, catches-root, catches-none, catches-clause, caught-root,
}
use weos.Exceptions.Capture.{
  Outcome, part, subobject, recover, or_else, clone, clone_exception, wrap_std_exception,
  do_convert, try_convert, catch_exception, run_clause, get_current_exception, current_exception,
}

-- The class of the clause that takes an exception whose class of std is this.
pub clause_for : Option Std → Option Std
clause_for none = none
clause_for (some s) = some (clause_of s)

-- A pointer to an exception that rethrow_exception can throw, and that the clause for `r` takes first.
pub record Captured (r : Option Std) (o : Outcome (Option Exception)) : Type 0 where
  pub pointer : Exception
  pub result : o ≡ Outcome.returns (some pointer)
  pub same : clause_for (root pointer.class) ≡ r
  pub captured : catches Handler.captureable_handler pointer.class ≡ true

module _ (failure : Class → Option Exception) (never : (c : Class) → failure c ≡ none) where
  module _ (n : ℕ) (registry : List ℕ) where
    again : Exception → Outcome (Option Exception)
    again x = current_exception failure (suc n) registry (some x)

    enabled-Captured :
        (e : Exception)
        → is_class e.class ≡ true
        → catches Handler.captureable_handler e.class ≡ false
        → Captured (clause_for (root e.class)) (again (enable_current_exception e))
    unfolding again current_exception get_current_exception enable_current_exception clone part
        recover slice catches root
    enabled-Captured e t k =
        rw (t, k)
          (rw (recover, clone, never (Class.captureable e.class))
            (record {
              pointer =
                  slice (Class.captureable e.class)
                    (record e { class = Class.captureable e.class });
              result = refl;
              same = refl;
              captured = refl;
            }))

    rooted-Captured :
        (e : Exception) (r : Option Std)
        → clause_for (root e.class) ≡ r
        → is_class e.class ≡ true
        → catches Handler.captureable_handler e.class ≡ false
        → Captured r (again (enable_current_exception e))
    rooted-Captured e r q t k =
        subst (λ r. Captured r (again (enable_current_exception e))) q (enabled-Captured e t k)

    wrapped-Captured :
        (s : Std) (e : Exception)
        → Captured (some (clause_of s)) (wrap_std_exception failure again s e)
    unfolding wrap_std_exception clone_exception slice catches root is_class clause_for
    wrapped-Captured s e = elim (Bool-cases (catches Handler.info_handler e.class)) [
      | inl i ↦
          rw i (rooted-Captured (slice (Class.wrapper s) e) (some (clause_of s)) refl refl refl)
      | inr i ↦ rw i (
          rooted-Captured
            (record (slice (Class.standard s) e) {
              class = Class.wrapper s;
              location = no_location;
            })
            (some (clause_of s)) refl refl refl)
    ]

    converted-Captured :
        (m : ℕ) (e : Exception)
        → catches Handler.captureable_handler e.class ≡ false
        → (do_convert failure again m e ≡ Outcome.returns none)
          ⊎ Captured (clause_for (root e.class)) (do_convert failure again m e)
    unfolding do_convert slice
    converted-Captured m e k = elim (Option-cases (subobject m e.class)) [
      | inl q ↦ inl (rw (do_convert, q) refl)
      | inr (d, q) ↦
          let is_part = subobject-IsPart m e.class d k q in
          inr (
            rw (do_convert, q)
              (rooted-Captured (slice d e) (clause_for (root e.class)) (ap clause_for is_part.same)
                is_part.class is_part.simple))
    ]

    or_else-Captured :
        (r : Option Std) (o rest : Outcome (Option Exception))
        → Captured r o
        → Captured r (or_else o rest)
    unfolding or_else
    or_else-Captured r o rest c = record {
      pointer = c.pointer;
      result = ap (λ o. or_else o rest) c.result;
      same = c.same;
      captured = c.captured;
    }

    tried-Captured :
        (ns : List ℕ) (e : Exception)
        → catches Handler.captureable_handler e.class ≡ false
        → (try_convert failure again ns e ≡ Outcome.returns none)
          ⊎ Captured (clause_for (root e.class)) (try_convert failure again ns e)
    unfolding try_convert or_else
    tried-Captured [] e k = inl refl
    tried-Captured (m ∷ ns) e k =
        let rest = try_convert failure again ns e in
        elim (converted-Captured m e k) [
          | inl q ↦ elim (tried-Captured ns e k) [
            | inl p ↦ inl (ap (λ o. or_else o rest) q ∙ p)
            | inr c ↦
                inr (
                  subst (Captured (clause_for (root e.class))) (sym (ap (λ o. or_else o rest) q)) c)
          ]
          | inr c ↦
              inr
                (or_else-Captured (clause_for (root e.class)) (do_convert failure again m e) rest c)
        ]

    caught-Captured :
        (e : Exception)
        → clause_for (root e.class) ≡ some Std.exception
        → catches Handler.captureable_handler e.class ≡ false
        → Captured (some Std.exception) (catch_exception failure again registry e)
    unfolding catch_exception clone_exception or_else root catches is_class clause_for clause_of
    caught-Captured e r k =
        let tried = try_convert failure again registry e in
        let unknown = clone_exception failure again (made Class.unknown_std) in
        elim (tried-Captured registry e k) [
          | inl q ↦
              subst (Captured (some Std.exception)) (sym (ap (λ o. or_else o unknown) q))
                (rooted-Captured (made Class.unknown_std) (some Std.exception) refl refl refl)
          | inr c ↦
              subst (λ r. Captured r (or_else tried unknown)) r
                (or_else-Captured (clause_for (root e.class)) tried unknown c)
        ]

    clause-Captured :
        (s : Std) (e : Exception)
        → root e.class ≡ some s
        → catches Handler.captureable_handler e.class ≡ false
        → Captured (some (clause_of s)) (run_clause failure again registry (clause_of s) e)
    unfolding run_clause clause_of clause_for
    clause-Captured Std.exception e r k = caught-Captured e (ap clause_for r) k
    clause-Captured Std.bad_alloc e r k = wrapped-Captured Std.bad_alloc e
    clause-Captured Std.bad_exception e r k = wrapped-Captured Std.bad_exception e
    clause-Captured Std.logic_error e r k = wrapped-Captured Std.logic_error e
    clause-Captured Std.domain_error e r k = wrapped-Captured Std.domain_error e
    clause-Captured Std.invalid_argument e r k = wrapped-Captured Std.invalid_argument e
    clause-Captured Std.length_error e r k = wrapped-Captured Std.length_error e
    clause-Captured Std.out_of_range e r k = wrapped-Captured Std.out_of_range e
    clause-Captured Std.runtime_error e r k = wrapped-Captured Std.runtime_error e
    clause-Captured Std.overflow_error e r k = wrapped-Captured Std.overflow_error e
    clause-Captured Std.range_error e r k = wrapped-Captured Std.range_error e
    clause-Captured Std.underflow_error e r k = wrapped-Captured Std.underflow_error e
    clause-Captured Std.system_error e r k = caught-Captured e (ap clause_for r) k
    clause-Captured Std.future_error e r k = wrapped-Captured Std.logic_error e
    clause-Captured Std.bad_function_call e r k = caught-Captured e (ap clause_for r) k

  recovered-Captured :
      (r : Option Std) (o : Outcome (Option Exception)) → Captured r o → Captured r (recover o)
  unfolding recover
  recovered-Captured r o c = record {
    pointer = c.pointer;
    result = rw c.result refl;
    same = c.same;
    captured = c.captured;
  }

  current-Captured :
      (n : ℕ) (registry : List ℕ) (s : Std) (e : Exception)
      → root e.class ≡ some s
      → catches Handler.captureable_handler e.class ≡ false
      → Captured (some (clause_of s)) (current_exception failure (suc (suc n)) registry (some e))
  unfolding current_exception get_current_exception again
  current-Captured n registry s e r k =
      rw (get_current_exception, part-none e.class k, caught-root e.class s r)
        (recovered-Captured (some (clause_of s))
          (run_clause failure (again n registry) registry (clause_of s) e)
          (clause-Captured n registry s e r k))

  handled :
      (c d : Class) (s t : Std)
      → clause_for (root c) ≡ some (clause_of t)
      → root d ≡ some t
      → has_clause s ≡ true
      → catches (Handler.std_handler s) c ≡ catches (Handler.std_handler s) d
  unfolding clause_for
  handled c d s t q r own = elim (Option-cases (root c)) [
    | inl p ↦ absurd (ground (arith, p, q))
    | inr (u, p) ↦
        let same : clause_of u ≡ clause_of t = ground (arith, p, q) in
        catches-root c s u p
        ∙ catches-clause s u own
        ∙ ap (std_catches s) same
        ∙ sym (catches-clause s t own)
        ∙ sym (catches-root d s t r)
  ]

  -- An exception that derives from a class of std and not from CaptureableExceptionBase is captured, if there is
  -- memory for it, as one that the handlers of the classes of std that getCurrentException has a clause for take exactly
  -- as they take the exception itself, whatever converters are registered. Those are the classes of <exception>, <new>
  -- and <stdexcept>, not std::system_error, std::future_error and std::bad_function_call.
  pub captured-std_handlers :
      (n : ℕ) (registry : List ℕ) (e : Exception)
      → catches (Handler.std_handler Std.exception) e.class ≡ true
      → catches Handler.captureable_handler e.class ≡ false
      → (x : Exception) × (current_exception failure (suc (suc n)) registry (some e)
          ≡ Outcome.returns (some x))
        × ((s : Std)
            → has_clause s ≡ true
            → catches (Handler.std_handler s) x.class ≡ catches (Handler.std_handler s) e.class)
  captured-std_handlers n registry e h k = elim (Option-cases (root e.class)) [
    | inl r ↦ absurd (ground (arith, h, r, catches-none e.class Std.exception r))
    | inr (t, r) ↦
        let c = current-Captured n registry t e r k in
        (c.pointer, c.result, λ s own. handled c.pointer.class e.class s t c.same r own)
  ]
