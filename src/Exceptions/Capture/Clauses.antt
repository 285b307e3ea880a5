-- ===== src/Exceptions/Capture/Clauses.antt =====
-- The clauses of getCurrentException in src/_armcc/_exception.cpp, and the classes of std that have one of their own.
use weos.Common.{◌≡◌, refl, ◌∙◌, arith, Bool, true, false, none, some, List, [], ◌∷◌}
use weos.Exceptions.{Std, Class, Handler, catches, root, std_catches}
use weos.Exceptions.Capture.{clauses, caught}

pub catches-root :
    (c : Class) (s t : Std) → root c ≡ some t → catches (Handler.std_handler s) c ≡ std_catches s t
unfolding catches
catches-root c s t h = ground arith

pub catches-none : (c : Class) (s : Std) → root c ≡ none → catches (Handler.std_handler s) c ≡ false
unfolding catches
catches-none c s h = ground arith

caught-same :
    (ss : List Std) (c : Class) (s : Std)
    → root c ≡ some s
    → caught ss c ≡ caught ss (Class.standard s)
unfolding caught root
caught-same [] c s h = refl
caught-same (t ∷ ss) c s h =
    rw (catches-root c t s h, catches-root (Class.standard s) t s refl, caught-same ss c s h) refl

-- The class of the first clause that takes an exception of the class of std.
unfoldable pub clause_of : Std → Std
clause_of Std.system_error = Std.exception
clause_of Std.future_error = Std.logic_error
clause_of Std.bad_function_call = Std.exception
clause_of s = s

-- Is there a clause for the class itself?
pub has_clause : Std → Bool
has_clause Std.system_error = false
has_clause Std.future_error = false
has_clause Std.bad_function_call = false
has_clause _ = true

caught-standard : (s : Std) → caught clauses (Class.standard s) ≡ some (clause_of s)
unfolding caught std_catches catches root clause_of
caught-standard Std.exception = refl
caught-standard Std.bad_alloc = refl
caught-standard Std.bad_exception = refl
caught-standard Std.logic_error = refl
caught-standard Std.domain_error = refl
caught-standard Std.invalid_argument = refl
caught-standard Std.length_error = refl
caught-standard Std.out_of_range = refl
caught-standard Std.runtime_error = refl
caught-standard Std.overflow_error = refl
caught-standard Std.range_error = refl
caught-standard Std.underflow_error = refl
caught-standard Std.system_error = refl
caught-standard Std.future_error = refl
caught-standard Std.bad_function_call = refl

pub caught-root : (c : Class) (s : Std) → root c ≡ some s → caught clauses c ≡ some (clause_of s)
caught-root c s h = caught-same clauses c s h ∙ caught-standard s

pub caught-exception :
    (c : Class) → root c ≡ some Std.exception → caught clauses c ≡ some Std.exception
unfolding clause_of
caught-exception c h = caught-root c Std.exception h

catches-system_error :
    (s : Std) → has_clause s ≡ true → std_catches s Std.system_error ≡ std_catches s Std.exception
unfolding has_clause std_catches
catches-system_error Std.exception h = refl
catches-system_error Std.bad_alloc h = refl
catches-system_error Std.bad_exception h = refl
catches-system_error Std.logic_error h = refl
catches-system_error Std.domain_error h = refl
catches-system_error Std.invalid_argument h = refl
catches-system_error Std.length_error h = refl
catches-system_error Std.out_of_range h = refl
catches-system_error Std.runtime_error h = refl
catches-system_error Std.overflow_error h = refl
catches-system_error Std.range_error h = refl
catches-system_error Std.underflow_error h = refl
catches-system_error Std.system_error h = absurd (ground arith)
catches-system_error Std.future_error h = absurd (ground arith)
catches-system_error Std.bad_function_call h = absurd (ground arith)

catches-future_error :
    (s : Std) → has_clause s ≡ true → std_catches s Std.future_error ≡ std_catches s Std.logic_error
unfolding has_clause std_catches
catches-future_error Std.exception h = refl
catches-future_error Std.bad_alloc h = refl
catches-future_error Std.bad_exception h = refl
catches-future_error Std.logic_error h = refl
catches-future_error Std.domain_error h = refl
catches-future_error Std.invalid_argument h = refl
catches-future_error Std.length_error h = refl
catches-future_error Std.out_of_range h = refl
catches-future_error Std.runtime_error h = refl
catches-future_error Std.overflow_error h = refl
catches-future_error Std.range_error h = refl
catches-future_error Std.underflow_error h = refl
catches-future_error Std.system_error h = absurd (ground arith)
catches-future_error Std.future_error h = absurd (ground arith)
catches-future_error Std.bad_function_call h = absurd (ground arith)

catches-bad_function_call :
    (s : Std)
    → has_clause s ≡ true
    → std_catches s Std.bad_function_call ≡ std_catches s Std.exception
unfolding has_clause std_catches
catches-bad_function_call Std.exception h = refl
catches-bad_function_call Std.bad_alloc h = refl
catches-bad_function_call Std.bad_exception h = refl
catches-bad_function_call Std.logic_error h = refl
catches-bad_function_call Std.domain_error h = refl
catches-bad_function_call Std.invalid_argument h = refl
catches-bad_function_call Std.length_error h = refl
catches-bad_function_call Std.out_of_range h = refl
catches-bad_function_call Std.runtime_error h = refl
catches-bad_function_call Std.overflow_error h = refl
catches-bad_function_call Std.range_error h = refl
catches-bad_function_call Std.underflow_error h = refl
catches-bad_function_call Std.system_error h = absurd (ground arith)
catches-bad_function_call Std.future_error h = absurd (ground arith)
catches-bad_function_call Std.bad_function_call h = absurd (ground arith)

-- A class with a clause of its own does not tell a class of std from that of its clause.
pub catches-clause :
    (s u : Std) → has_clause s ≡ true → std_catches s u ≡ std_catches s (clause_of u)
unfolding clause_of
catches-clause s Std.exception h = refl
catches-clause s Std.bad_alloc h = refl
catches-clause s Std.bad_exception h = refl
catches-clause s Std.logic_error h = refl
catches-clause s Std.domain_error h = refl
catches-clause s Std.invalid_argument h = refl
catches-clause s Std.length_error h = refl
catches-clause s Std.out_of_range h = refl
catches-clause s Std.runtime_error h = refl
catches-clause s Std.overflow_error h = refl
catches-clause s Std.range_error h = refl
catches-clause s Std.underflow_error h = refl
catches-clause s Std.system_error h = catches-system_error s h
catches-clause s Std.future_error h = catches-future_error s h
catches-clause s Std.bad_function_call h = catches-bad_function_call s h

caught-none : (ss : List Std) (c : Class) → root c ≡ none → caught ss c ≡ none
unfolding caught
caught-none [] c h = refl
caught-none (s ∷ ss) c h = rw (catches-none c s h) (caught-none ss c h)
