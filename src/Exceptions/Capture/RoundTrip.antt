-- ===== src/Exceptions/Capture/RoundTrip.antt =====
-- What make_exception_ptr and current_exception of src/_armcc/_exception.hpp and _exception.cpp return, with and
-- without memory.
use weos.Common.{
  ℕ, suc, ◌≡◌, ◌≢◌, refl, ap, fun_ext, Bool, true, false, if◌then◌else◌, Option, none, some, List,
}
use weos.Exceptions.{Class, Handler, Exception, catches, is_class, no_location}
use weos.Exceptions.Info.{slice, enable_current_exception}
use weos.Exceptions.Capture.Parts.{copied-handler}
use weos.Exceptions.Capture.{
  Outcome, part, recover, clone, get_current_exception, current_exception, make_exception_ptr,
  rethrow_exception,
}

-- The captured copy of an exception.
abbrev copied : Exception → Exception
copied e = slice (Class.captureable e.class) (record e { class = Class.captureable e.class })

if-again :
    {A : Type 0} (b : Bool) (x y : A)
    → (if b then (if b then x else y) else y) ≡ (if b then x else y)
if-again true x y = refl
if-again false x y = refl

module _ (failure : Class → Option Exception) where
  make_exception_ptr-copied :
      (n : ℕ) (registry : List ℕ) (e : Exception)
      → is_class e.class ≡ true
      → catches Handler.captureable_handler e.class ≡ false
      → failure (Class.captureable e.class) ≡ none
      → make_exception_ptr failure (suc n) registry e ≡ Outcome.returns (some (copied e))
  unfolding make_exception_ptr current_exception get_current_exception enable_current_exception part
      recover clone slice
  make_exception_ptr-copied n registry e t k m = rw (t, k) (rw (recover, clone, m) refl)

  sliced-again : (c : Class) (e : Exception) → slice c (slice c e) ≡ slice c e
  unfolding slice
  sliced-again c e =
      let values = fun_ext (λ h. if-again (catches h c) (e.value h) 0) in
      let place = if-again (catches Handler.info_handler c) e.location no_location in
      λ i. record (slice c e) { value = values i; location = place i }

  copied-again :
      (n : ℕ) (registry : List ℕ) (e : Exception)
      → failure (Class.captureable e.class) ≡ none
      → current_exception failure (suc n) registry (some (copied e))
        ≡ Outcome.returns (some (copied e))
  unfolding current_exception get_current_exception part recover clone slice catches
  copied-again n registry e m =
      rw (recover, clone, m)
        (ap (λ x. Outcome.returns (some x))
          (sliced-again (Class.captureable e.class)
            (record e { class = Class.captureable e.class })))

  -- make_exception_ptr of an object of a class that does not derive from CaptureableExceptionBase, with memory for
  -- the copy, returns an exception that every handler but the one for CaptureableExceptionBase takes as it takes the
  -- object, with all members of the object, and its location if it has one; rethrow_exception throws that exception, and
  -- current_exception then returns the same again.
  pub make_exception_ptr-rethrow_exception :
      (n : ℕ) (registry : List ℕ) (e : Exception)
      → is_class e.class ≡ true
      → catches Handler.captureable_handler e.class ≡ false
      → failure (Class.captureable e.class) ≡ none
      → (x : Exception) × (make_exception_ptr failure (suc n) registry e ≡ Outcome.returns (some x))
        × (rethrow_exception (some x) ≡ Outcome.raises x)
        × (current_exception failure (suc n) registry (some x) ≡ Outcome.returns (some x))
        × ((h : Handler) → h ≢ Handler.captureable_handler → catches h x.class ≡ catches h e.class)
        × ((h : Handler)
            → h ≢ Handler.captureable_handler
            → catches h e.class ≡ true
            → x.value h ≡ e.value h)
        × (catches Handler.info_handler e.class ≡ true → x.location ≡ e.location)
  unfolding rethrow_exception slice catches
  make_exception_ptr-rethrow_exception n registry e t k m = (
    copied e,
    make_exception_ptr-copied n registry e t k m,
    refl,
    copied-again n registry e m,
    λ h d. copied-handler h e.class d,
    (λ h d c. rw (copied-handler h e.class d, c) refl),
    λ i. rw i refl,
  )
