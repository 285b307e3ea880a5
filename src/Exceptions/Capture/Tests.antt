-- ===== src/Exceptions/Capture/Tests.antt =====
-- Exceptions of src/_armcc/_exception.cpp at concrete classes.
use weos.Common.{ℕ, ◌≡◌, ◌≢◌, refl, true, false, Option, none, some, [], ◌∷◌}
use weos.Exceptions.{
  Std, Class, Handler, Exception, catches, is_class, root, no_location, std_catches,
}
use weos.Exceptions.Info.{
  slice, made, enable_current_exception, weos_exception, add_location, enable_exception_info,
  shifted,
}
use weos.Exceptions.Capture.{
  Outcome, part, subobject, caught, recover, or_else, clone, clone_exception, wrap_std_exception,
  do_convert, try_convert, catch_exception, run_clause, get_current_exception, current_exception,
  make_exception_ptr, throw_with_nested, rethrow_nested, rethrow_exception, register_converter,
}
use weos.Exceptions.Capture.Clauses.{has_clause}
use weos.Exceptions.Capture.Handlers.{captured-std_handlers}
use weos.Exceptions.Capture.RoundTrip.{make_exception_ptr-rethrow_exception}
use weos.Exceptions.Capture.Returns.{current_exception-returns}
use weos.Exceptions.Capture.Registered.{converted-client_handler}

-- Memory is never short.
abbrev plenty : Class → Option Exception
plenty c = none

-- There is no memory.
abbrev exhausted : Class → Option Exception
exhausted c = some (made (Class.standard Std.bad_alloc))

-- A class of the client's that derives from std::out_of_range, with a location.
abbrev bad_index : Exception
bad_index = record {
  class = Class.located (Class.derived 7 (Class.standard Std.out_of_range));
  value = λ h. 3;
  location = record { file = 1; line = 42; function = 2 };
}

-- A class of the client's that derives from another one, which derives from std::exception.
abbrev device_error : Exception
device_error = record {
  class = Class.derived 9 (Class.derived 8 (Class.standard Std.exception));
  value = λ h. 5;
  location = no_location;
}

captured-std_handlers_example :
    (x : Exception) × (current_exception plenty 2 (8 ∷ []) (some bad_index)
      ≡ Outcome.returns (some x))
    × ((s : Std)
        → has_clause s ≡ true
        → catches (Handler.std_handler s) x.class ≡ catches (Handler.std_handler s) bad_index.class)
unfolding catches root std_catches
captured-std_handlers_example =
    captured-std_handlers plenty (λ c. refl) 0 (8 ∷ []) bad_index refl refl

make_exception_ptr-rethrow_exception_example :
    (x : Exception) × (make_exception_ptr plenty 1 [] bad_index ≡ Outcome.returns (some x))
    × (rethrow_exception (some x) ≡ Outcome.raises x)
    × (current_exception plenty 1 [] (some x) ≡ Outcome.returns (some x))
    × ((h : Handler)
        → h ≢ Handler.captureable_handler
        → catches h x.class ≡ catches h bad_index.class)
    × ((h : Handler)
        → h ≢ Handler.captureable_handler
        → catches h bad_index.class ≡ true
        → x.value h ≡ bad_index.value h)
    × (catches Handler.info_handler bad_index.class ≡ true → x.location ≡ bad_index.location)
unfolding catches is_class
make_exception_ptr-rethrow_exception_example =
    make_exception_ptr-rethrow_exception plenty 0 [] bad_index refl refl refl

current_exception-returns_example :
    (x : Exception) × (current_exception exhausted 2 [] (some bad_index) ≡ Outcome.returns (some x))
    × (catches Handler.captureable_handler x.class ≡ true)
current_exception-returns_example = current_exception-returns exhausted 0 [] bad_index

converted-client_handler_example :
    (x : Exception) × (current_exception plenty 2
        (7 ∷ register_converter 8 (9 ∷ []))
        (some device_error)
      ≡ Outcome.returns (some x))
    × (catches (Handler.client_handler 8) x.class ≡ true)
    × ((h : Handler)
        → h ≢ Handler.captureable_handler
        → catches h x.class ≡ true
        → x.value h ≡ device_error.value h)
unfolding catches root
converted-client_handler_example =
    converted-client_handler plenty (λ c. refl) 0 (7 ∷ []) (9 ∷ []) 8 device_error refl refl
      (refl, tt) refl

-- The class of the exception that is pointed to, and the members of the part of it that a handler takes.
seen : Handler → Outcome (Option Exception) → Option (Class × ℕ)
seen h (Outcome.returns (some x)) = some (x.class, x.value h)
seen h _ = none

-- The part of the newest converter's class is all that is kept.
converted_part :
    let o = current_exception plenty 2 (8 ∷ 9 ∷ []) (some device_error) in
    let kept = Class.captureable (Class.derived 8 (Class.standard Std.exception)) in
    (seen (Handler.client_handler 8) o ≡ some (kept, 5))
    × (seen (Handler.client_handler 9) o ≡ some (kept, 0))
unfolding current_exception get_current_exception run_clause catch_exception try_convert do_convert
    subobject part recover or_else clone clone_exception caught catches root std_catches slice
    enable_current_exception is_class seen
converted_part = (refl, refl)

-- std::system_error is captured as UnknownStdException, which its own handlers do not take.
system_error_lost :
    let o = current_exception plenty 2 [] (some (made (Class.standard Std.system_error))) in
    let kept = Class.captureable Class.unknown_std in
    (seen (Handler.std_handler Std.system_error) o ≡ some (kept, 0))
    × (catches (Handler.std_handler Std.system_error) kept ≡ false)
unfolding current_exception get_current_exception run_clause catch_exception try_convert part
    recover or_else clone clone_exception caught catches root std_catches slice
    enable_current_exception is_class seen
system_error_lost = (refl, refl)

-- A value that is no class is captured as UnknownException.
scalar_lost :
    seen Handler.info_handler
      (make_exception_ptr plenty 2 [] (record (made Class.scalar) { value = λ h. 5 }))
    ≡ some (Class.captureable Class.unknown, 0)
unfolding make_exception_ptr current_exception get_current_exception part recover clone
    clone_exception caught catches root slice enable_current_exception is_class seen
scalar_lost = refl

-- Without memory the static BadAlloc is returned.
no_memory :
    current_exception exhausted 2 [] (some bad_index)
    ≡ Outcome.returns (some (made (Class.captureable Class.static_bad_alloc)))
unfolding current_exception get_current_exception run_clause wrap_std_exception part recover clone
    clone_exception caught catches root std_catches slice enable_current_exception is_class
no_memory = refl

-- nested_exception() when nothing is handled: throw_with_nested does not throw.
nothing_handled : throw_with_nested plenty 2 [] none bad_index ≡ Outcome.terminates
unfolding throw_with_nested current_exception is_class catches
nothing_handled = refl

-- current_exception drops the NestedException around a captureable exception.
nested_lost :
    current_exception plenty 2 []
      (some (record bad_index { class = Class.nested (Class.captureable bad_index.class) }))
    ≡ Outcome.returns (some (slice (Class.captureable bad_index.class) bad_index))
unfolding current_exception get_current_exception part recover clone slice catches
nested_lost = refl

-- rethrow_nested throws what was handled.
rethrown : rethrow_nested (some bad_index) ≡ Outcome.raises bad_index
unfolding rethrow_nested rethrow_exception
rethrown = refl

-- WEOS_EXCEPTION on a class of std, with both macros.
thrown_located :
    weos_exception true true bad_index.location
      (record (made (Class.standard Std.out_of_range)) { value = λ h. 3 })
    ≡ record (slice (Class.located (Class.standard Std.out_of_range)) bad_index) {
      class = Class.captureable (Class.located (Class.standard Std.out_of_range));
    }
unfolding weos_exception enable_current_exception add_location enable_exception_info slice shifted
    is_class catches
thrown_located = refl

-- WEOS_EXCEPTION on a class that derives from weos::exception throws only that part of it.
thrown_sliced :
    (weos_exception true true bad_index.location (made (Class.derived 4 Class.info))).class
    ≡ Class.captureable Class.info
unfolding weos_exception enable_current_exception add_location enable_exception_info slice shifted
    is_class catches
thrown_sliced = refl
