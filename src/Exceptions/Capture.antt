-- ===== src/Exceptions/Capture.antt =====
-- current_exception, rethrow_exception, make_exception_ptr, nested_exception and the registered converters of
-- src/_armcc/_exception.hpp and _exception.cpp. An exception_ptr is the exception it points to.
pub mod Parts
pub mod Clauses
pub mod Handlers
pub mod Registered
pub mod RoundTrip
pub mod Returns
mod Tests
use weos.Common.{
  ℕ, zero, suc, ◌≡◌, ◌==◌, Bool, true, false, not, ◌&&◌, if◌then◌else◌, Option, none, some, List,
  [], ◌∷◌,
}
use weos.Exceptions.{Std, Class, Handler, Exception, catches, is_class, no_location}
use weos.Exceptions.Info.{slice, made, enable_current_exception}

-- `terminates` is std::terminate, `asserts` a failed WEOS_ASSERT, `exhausted` a call that needs more nested calls.
pub data Outcome (A : Type 0) : Type 0 where
  returns : A → Outcome A
  raises : Exception → Outcome A
  terminates : Outcome A
  asserts : Outcome A
  exhausted : Outcome A

-- The part of an object that is a CaptureableException: its clone() and rethrow() are the virtual functions.
pub part : Class → Option Class
part (Class.captureable c) = some (Class.captureable c)
part (Class.derived n c) = part c
part (Class.located c) = part c
part (Class.nested c) = part c
part _ = none

-- The part of an object that is of the client's class `n`.
pub subobject : ℕ → Class → Option Class
subobject n (Class.plain m) = if n == m then some (Class.plain m) else none
subobject n (Class.derived m c) = if n == m then some (Class.derived m c) else subobject n c
subobject n (Class.located c) = subobject n c
subobject n (Class.captureable c) = subobject n c
subobject n (Class.nested c) = subobject n c
subobject _ _ = none

-- The clauses of getCurrentException for the classes of std, in their order.
abbrev pub clauses : List Std
clauses =
    Std.bad_alloc ∷ Std.bad_exception ∷ Std.domain_error ∷ Std.invalid_argument ∷ Std.length_error
    ∷ Std.out_of_range ∷ Std.logic_error ∷ Std.overflow_error ∷ Std.range_error
    ∷ Std.underflow_error ∷ Std.runtime_error ∷ Std.exception ∷ []

-- The first clause that takes an exception of the class.
pub caught : List Std → Class → Option Std
caught [] c = none
caught (s ∷ ss) c = if catches (Handler.std_handler s) c then some s else caught ss c

-- registerConverter, for the converter of class `n`
pub register_converter : ℕ → List ℕ → List ℕ
register_converter n registry = n ∷ registry

-- What the catch clauses of current_exception do.
pub recover : Outcome (Option Exception) → Outcome (Option Exception)
recover (Outcome.raises x) =
    if catches (Handler.std_handler Std.bad_alloc) x.class
    then Outcome.returns (some (made (Class.captureable Class.static_bad_alloc)))
    else Outcome.returns (some (made (Class.captureable Class.static_bad_exception)))
recover o = o

-- The first pointer unless it is null, otherwise the second.
pub or_else : Outcome (Option Exception) → Outcome (Option Exception) → Outcome (Option Exception)
or_else (Outcome.returns none) rest = rest
or_else o rest = o

-- `failure c` is what `new CaptureableException` throws for the class `c`, if it throws. `again` is current_exception
-- in the functions that getCurrentException calls.
module _ (failure : Class → Option Exception) where
  -- clone(), for an object whose CaptureableException part is of class `p`
  pub clone : Class → Exception → Outcome (Option Exception)
  clone p e = elim (failure p) [
    | none ↦ Outcome.returns (some (slice p e))
    | some x ↦ Outcome.raises x
  ]

  module _ (again : Exception → Outcome (Option Exception)) where
    -- cloneException
    pub clone_exception : Exception → Outcome (Option Exception)
    clone_exception e = again (enable_current_exception e)

    -- wrapStdException, for the class `s`
    pub wrap_std_exception : Std → Exception → Outcome (Option Exception)
    wrap_std_exception s e =
        if catches Handler.info_handler e.class
        then clone_exception (slice (Class.wrapper s) e)
        else clone_exception (record (slice (Class.standard s) e) {
          class = Class.wrapper s;
          location = no_location;
        })

    -- ExceptionConverter::doConvert, for the class `n`
    pub do_convert : ℕ → Exception → Outcome (Option Exception)
    do_convert n e = elim (subobject n e.class) [
      | some c ↦ again (enable_current_exception (slice c e))
      | none ↦ Outcome.returns none
    ]

    -- tryConvert
    pub try_convert : List ℕ → Exception → Outcome (Option Exception)
    try_convert [] e = Outcome.returns none
    try_convert (n ∷ registry) e = or_else (do_convert n e) (try_convert registry e)

    -- catch (std::exception& exc)
    pub catch_exception : List ℕ → Exception → Outcome (Option Exception)
    catch_exception registry e =
        or_else (try_convert registry e) (clone_exception (made Class.unknown_std))

    -- The clause for the class `s` of std.
    pub run_clause : List ℕ → Std → Exception → Outcome (Option Exception)
    run_clause registry Std.exception e = catch_exception registry e
    run_clause registry s e = wrap_std_exception s e

    -- getCurrentException, when `e` is handled
    pub get_current_exception : List ℕ → Exception → Outcome (Option Exception)
    get_current_exception registry e = elim (part e.class) [
      | some p ↦ clone p e
      | none ↦ elim (caught clauses e.class) [
        | some s ↦ run_clause registry s e
        | none ↦ clone_exception (made Class.unknown)
      ]
    ]

  -- current_exception; `throw;` calls std::terminate if no exception is handled. The number bounds the nested calls.
  pub current_exception : ℕ → List ℕ → Option Exception → Outcome (Option Exception)
  current_exception zero registry handled = Outcome.exhausted
  current_exception (suc n) registry none = Outcome.terminates
  current_exception (suc n) registry (some e) =
      recover (get_current_exception (λ x. current_exception n registry (some x)) registry e)

  -- make_exception_ptr
  pub make_exception_ptr : ℕ → List ℕ → Exception → Outcome (Option Exception)
  make_exception_ptr n registry e = current_exception n registry (some (enable_current_exception e))

  -- What throw_with_nested throws, and the m_nestedException that it puts into it.
  pub throw_with_nested :
      ℕ → List ℕ → Option Exception → Exception → Outcome (Exception × Option Exception)
  throw_with_nested n registry handled e =
      if is_class e.class && not (catches Handler.nested_handler e.class)
      then elim (current_exception n registry handled) [
        | Outcome.returns p ↦ Outcome.returns (record e { class = Class.nested e.class }, p)
        | Outcome.raises x ↦ Outcome.raises x
        | Outcome.terminates ↦ Outcome.terminates
        | Outcome.asserts ↦ Outcome.asserts
        | Outcome.exhausted ↦ Outcome.exhausted
      ]
      else Outcome.returns (e, none)

-- rethrow_exception
pub rethrow_exception : Option Exception → Outcome (Option Exception)
rethrow_exception none = Outcome.asserts
rethrow_exception (some e) = Outcome.raises e

-- rethrow_nested, with m_nestedException
pub rethrow_nested : Option Exception → Outcome (Option Exception)
rethrow_nested none = Outcome.terminates
rethrow_nested (some e) = rethrow_exception (some e)
