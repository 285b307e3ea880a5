-- ===== src/Exceptions/Info.antt =====
-- The classes of src/_common/_exception.hpp and the macro WEOS_EXCEPTION, with what becomes of an exception that is copied into
-- a class it is derived from.
pub mod Thrown
use weos.Common.{ℕ, ◌≡◌, Bool, true, false, not, ◌&&◌, if◌then◌else◌, Option, none, some}
use weos.Exceptions.{Class, Handler, Location, Exception, catches, is_class, no_location}

-- A copy of the part of an exception that is of the class `c`, one that the exception is derived from: it has
-- the members of this part and its bases only.
unfoldable pub slice : Class → Exception → Exception
slice c e = record e {
  class = c;
  value = λ h. if catches h c then e.value h else 0;
  location = if catches Handler.info_handler c then e.location else no_location;
}

-- An exception without a location.
abbrev pub made : Class → Exception
made c = record { class = c; value = λ h. 0; location = no_location }

-- enable_exception_info
unfoldable pub enable_exception_info : Exception → Exception
enable_exception_info e =
    if is_class e.class && not (catches Handler.info_handler e.class)
    then record e { class = Class.located e.class; location = no_location }
    else e

-- The class of the reference that `exc << throw_location(...)` returns: operator<< is looked up in the bases.
unfoldable pub shifted : Class → Class
shifted (Class.located c) = Class.located c
shifted (Class.derived n c) = shifted c
shifted (Class.captureable c) = shifted c
shifted (Class.nested c) = shifted c
shifted _ = Class.info

-- exc << loc, as the object that is thrown
unfoldable pub add_location : Location → Exception → Exception
add_location loc e = slice (shifted e.class) (record e { location = loc })

-- enable_current_exception
unfoldable pub enable_current_exception : Exception → Exception
enable_current_exception e =
    if is_class e.class && not (catches Handler.captureable_handler e.class)
    then record e { class = Class.captureable e.class }
    else e

-- WEOS_EXCEPTION(exc); the two tests tell whether WEOS_EXCEPTION_CAN_BE_CAPTURED and
-- WEOS_EXCEPTION_CONTAINS_LOCATION are defined.
unfoldable pub weos_exception : Bool → Bool → Location → Exception → Exception
weos_exception true true loc e =
    enable_current_exception (add_location loc (enable_exception_info e))
weos_exception true false loc e = enable_current_exception e
weos_exception false true loc e = add_location loc (enable_exception_info e)
weos_exception false false loc e = e
