-- ===== src/Exceptions.antt =====
-- src/_armcc/_exception.hpp, _exception.cpp and src/_common/_exception.hpp: exceptions that are captured, kept and thrown
-- again. An exception is its class, the members of its parts, and the location of weos::exception; a
-- reference to it is a copy. The classes of std are those that the code names, and
-- those that the repository defines itself.
pub mod Info
pub mod Capture
use weos.Common.{ℕ, ◌≡◌, ◌==◌, Bool, true, false, ◌||◌, if◌then◌else◌, Option, none, some}

-- The classes of <exception>, <new> and <stdexcept>, and those that the repository defines in namespace std:
-- system_error and bad_function_call derive from exception, future_error from logic_error.
pub data Std : Type 0 where
  exception bad_alloc bad_exception : Std
  logic_error domain_error invalid_argument length_error out_of_range : Std
  runtime_error overflow_error range_error underflow_error : Std
  system_error future_error bad_function_call : Std

-- The class of an object that is thrown. A class of the client's has a number.
pub data Class : Type 0 where
  scalar : Class  -- a type that is no class
  plain : ℕ → Class  -- no base
  standard : Std → Class
  info : Class  -- weos::exception
  derived : ℕ → Class → Class  -- with one base
  located : Class → Class  -- ExceptionInfoBase
  captureable : Class → Class  -- CaptureableException
  wrapper : Std → Class  -- StdExceptionWrapper
  nested : Class → Class  -- NestedException
  static_bad_alloc : Class  -- BadAlloc of std::weos_detail
  static_bad_exception : Class  -- BadException
  unknown_std : Class  -- UnknownStdException
  unknown : Class  -- UnknownException

-- The parameter of a catch clause.
pub data Handler : Type 0 where
  std_handler : Std → Handler
  client_handler : ℕ → Handler
  info_handler : Handler  -- weos::exception&
  captureable_handler : Handler  -- CaptureableExceptionBase&
  nested_handler : Handler  -- nested_exception&

-- Is the second class the first one or derived from it?
pub std_catches : Std → Std → Bool
std_catches Std.exception _ = true
std_catches Std.bad_alloc Std.bad_alloc = true
std_catches Std.bad_exception Std.bad_exception = true
std_catches Std.logic_error Std.logic_error = true
std_catches Std.logic_error Std.domain_error = true
std_catches Std.logic_error Std.invalid_argument = true
std_catches Std.logic_error Std.length_error = true
std_catches Std.logic_error Std.out_of_range = true
std_catches Std.logic_error Std.future_error = true
std_catches Std.domain_error Std.domain_error = true
std_catches Std.invalid_argument Std.invalid_argument = true
std_catches Std.length_error Std.length_error = true
std_catches Std.out_of_range Std.out_of_range = true
std_catches Std.runtime_error Std.runtime_error = true
std_catches Std.runtime_error Std.overflow_error = true
std_catches Std.runtime_error Std.range_error = true
std_catches Std.runtime_error Std.underflow_error = true
std_catches Std.overflow_error Std.overflow_error = true
std_catches Std.range_error Std.range_error = true
std_catches Std.underflow_error Std.underflow_error = true
std_catches Std.system_error Std.system_error = true
std_catches Std.future_error Std.future_error = true
std_catches Std.bad_function_call Std.bad_function_call = true
std_catches _ _ = false

-- The class of std that a class is or is derived from.
pub root : Class → Option Std
root Class.scalar = none
root (Class.plain n) = none
root (Class.standard s) = some s
root Class.info = none
root (Class.derived n c) = root c
root (Class.located c) = root c
root (Class.captureable c) = root c
root (Class.wrapper s) = some s
root (Class.nested c) = root c
root Class.static_bad_alloc = some Std.bad_alloc
root Class.static_bad_exception = some Std.bad_exception
root Class.unknown_std = some Std.exception
root Class.unknown = some Std.exception

-- Does a catch clause for a reference take an exception of the class?
pub catches : Handler → Class → Bool
catches (Handler.std_handler s) c = elim (root c) [ none ↦ false | some t ↦ std_catches s t ]
catches (Handler.client_handler n) (Class.plain m) = n == m
catches (Handler.client_handler n) (Class.derived m c) =
    (n == m) || catches (Handler.client_handler n) c
catches Handler.info_handler Class.info = true
catches Handler.info_handler (Class.located c) = true
catches Handler.info_handler (Class.wrapper s) = true
catches Handler.info_handler Class.static_bad_alloc = true
catches Handler.info_handler Class.static_bad_exception = true
catches Handler.info_handler Class.unknown_std = true
catches Handler.info_handler Class.unknown = true
catches Handler.captureable_handler (Class.captureable c) = true
catches Handler.nested_handler (Class.nested c) = true
catches h (Class.derived n c) = catches h c
catches h (Class.located c) = catches h c
catches h (Class.captureable c) = catches h c
catches h (Class.nested c) = catches h c
catches _ _ = false

-- is_class
pub is_class : Class → Bool
is_class Class.scalar = false
is_class _ = true

-- The members of weos::exception; 0 stands for the empty text.
pub record Location : Type 0 where
  pub file : ℕ
  pub line : ℕ
  pub function : ℕ

abbrev pub no_location : Location
no_location = record { file = 0; line = 0; function = 0 }

-- `value h` stands for the members of the part of the object that a catch clause with the parameter `h` refers to, 0
-- for the empty ones; it means something only for the handlers that take the class.
pub record Exception : Type 0 where
  pub class : Class
  pub value : Handler → ℕ
  pub location : Location
