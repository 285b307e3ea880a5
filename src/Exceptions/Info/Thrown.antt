-- ===== src/Exceptions/Info/Thrown.antt =====
-- What the macro WEOS_EXCEPTION of src/_common/_exception.hpp throws.
use weos.Common.{◌≡◌, ◌≢◌, refl, true, false}
use weos.Exceptions.{Class, Handler, Location, Exception, catches, is_class, root}
use weos.Exceptions.Info.{
  slice, shifted, add_location, enable_exception_info, enable_current_exception, weos_exception,
}

located-handler :
    (h : Handler) (e : Exception)
    → h ≢ Handler.info_handler
    → h ≢ Handler.captureable_handler
    → catches h (Class.captureable (Class.located e.class)) ≡ catches h e.class
unfolding catches root
located-handler (Handler.std_handler s) e i k = refl
located-handler (Handler.client_handler m) e i k = refl
located-handler Handler.info_handler e i k = absurd (i refl)
located-handler Handler.captureable_handler e i k = absurd (k refl)
located-handler Handler.nested_handler e i k = refl

kept-value :
    (h : Handler) (e : Exception)
    → h ≢ Handler.info_handler
    → h ≢ Handler.captureable_handler
    → catches h e.class ≡ true
    → (slice (Class.located e.class) (record e { class = Class.located e.class })).value h
      ≡ e.value h
unfolding slice catches root
kept-value (Handler.std_handler s) e i k c = rw c refl
kept-value (Handler.client_handler m) e i k c = rw c refl
kept-value Handler.info_handler e i k c = absurd (i refl)
kept-value Handler.captureable_handler e i k c = absurd (k refl)
kept-value Handler.nested_handler e i k c = rw c refl

-- WEOS_EXCEPTION on an object of a class that derives neither from weos::exception nor from
-- CaptureableExceptionBase, with both macros defined, makes an exception that has the location and the members
-- of the object, and derives from both bases, and that every other handler takes as it takes the object.
pub weos_exception-location :
    (loc : Location) (e : Exception)
    → is_class e.class ≡ true
    → catches Handler.info_handler e.class ≡ false
    → catches Handler.captureable_handler e.class ≡ false
    → ((weos_exception true true loc e).location ≡ loc)
      × ((h : Handler)
          → h ≢ Handler.info_handler
          → h ≢ Handler.captureable_handler
          → catches h e.class ≡ true
          → (weos_exception true true loc e).value h ≡ e.value h)
      × (catches Handler.info_handler (weos_exception true true loc e).class ≡ true)
      × (catches Handler.captureable_handler (weos_exception true true loc e).class ≡ true)
      × ((h : Handler)
          → h ≢ Handler.info_handler
          → h ≢ Handler.captureable_handler
          → catches h (weos_exception true true loc e).class ≡ catches h e.class)
unfolding weos_exception enable_current_exception add_location enable_exception_info slice shifted
    catches is_class
weos_exception-location loc e t i k =
    rw (t, i, k)
      (refl, (λ h d d' c. kept-value h e d d' c), refl, refl, λ h d d'. located-handler h e d d')
