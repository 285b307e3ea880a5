-- ===== src/Exceptions/Capture/Parts.antt =====
-- The CaptureableException part of an exception and the parts of its client classes, in
-- src/_armcc/_exception.hpp.
use weos.Common.{
  ℕ, ◌≡◌, ◌≢◌, refl, subst, arith, ◌==◌, true, false, Bool-cases, inl, inr, Option, none, some,
}
use weos.Exceptions.{Std, Class, Handler, catches, is_class, root}
use weos.Exceptions.Capture.{part, subobject}

-- The copy of an object as a CaptureableException is taken by the handlers that take the object.
pub copied-handler :
    (h : Handler) (c : Class)
    → h ≢ Handler.captureable_handler
    → catches h (Class.captureable c) ≡ catches h c
unfolding catches root
copied-handler (Handler.std_handler s) c d = refl
copied-handler (Handler.client_handler m) c d = refl
copied-handler Handler.info_handler c d = refl
copied-handler Handler.captureable_handler c d = absurd (d refl)
copied-handler Handler.nested_handler c d = refl

pub part-none : (c : Class) → catches Handler.captureable_handler c ≡ false → part c ≡ none
unfolding part catches
part-none Class.scalar h = refl
part-none (Class.plain n) h = refl
part-none (Class.standard s) h = refl
part-none Class.info h = refl
part-none (Class.derived n c) h = part-none c h
part-none (Class.located c) h = part-none c h
part-none (Class.captureable c) h = absurd (ground arith)
part-none (Class.wrapper s) h = refl
part-none (Class.nested c) h = part-none c h
part-none Class.static_bad_alloc h = refl
part-none Class.static_bad_exception h = refl
part-none Class.unknown_std h = refl
part-none Class.unknown h = refl

-- What the part of a client's class keeps of an object without a CaptureableException.
pub record IsPart (r : Option Std) (d : Class) : Type 0 where
  pub same : root d ≡ r
  pub class : is_class d ≡ true
  pub simple : catches Handler.captureable_handler d ≡ false

same-IsPart :
    (c d : Class)
    → is_class c ≡ true
    → catches Handler.captureable_handler c ≡ false
    → c ≡ d
    → IsPart (root c) d
same-IsPart c d t k e =
    subst (λ d. IsPart (root c) d) e (record { same = refl; class = t; simple = k })

pub subobject-IsPart :
    (n : ℕ) (c d : Class)
    → catches Handler.captureable_handler c ≡ false
    → subobject n c ≡ some d
    → IsPart (root c) d
unfolding subobject catches root is_class
subobject-IsPart n Class.scalar d k h = absurd (ground arith)
subobject-IsPart n (Class.plain m) d k h = elim (Bool-cases (n == m)) [
  | inl e ↦ same-IsPart (Class.plain m) d refl k (ground (arith, e))
  | inr e ↦ absurd (ground (arith, e))
]
subobject-IsPart n (Class.standard s) d k h = absurd (ground arith)
subobject-IsPart n Class.info d k h = absurd (ground arith)
subobject-IsPart n (Class.derived m c) d k h = elim (Bool-cases (n == m)) [
  | inl e ↦ same-IsPart (Class.derived m c) d refl k (ground (arith, e))
  | inr e ↦ subobject-IsPart n c d k (ground (arith, e))
]
subobject-IsPart n (Class.located c) d k h = subobject-IsPart n c d k h
subobject-IsPart n (Class.captureable c) d k h = absurd (ground arith)
subobject-IsPart n (Class.wrapper s) d k h = absurd (ground arith)
subobject-IsPart n (Class.nested c) d k h = subobject-IsPart n c d k h
subobject-IsPart n Class.static_bad_alloc d k h = absurd (ground arith)
subobject-IsPart n Class.static_bad_exception d k h = absurd (ground arith)
subobject-IsPart n Class.unknown_std d k h = absurd (ground arith)
subobject-IsPart n Class.unknown d k h = absurd (ground arith)

pub part-captureable :
    (c p : Class) → part c ≡ some p → catches Handler.captureable_handler p ≡ true
unfolding part catches
part-captureable (Class.derived n c) p h = part-captureable c p h
part-captureable (Class.located c) p h = part-captureable c p h
part-captureable (Class.captureable c) p h =
    let same : Class.captureable c ≡ p = ground arith in
    subst (λ p. catches Handler.captureable_handler p ≡ true) same refl
part-captureable (Class.nested c) p h = part-captureable c p h
part-captureable _ p h = absurd (ground arith)

pub part-simple : (c : Class) → part c ≡ none → catches Handler.captureable_handler c ≡ false
unfolding part catches
part-simple Class.scalar h = refl
part-simple (Class.plain n) h = refl
part-simple (Class.standard s) h = refl
part-simple Class.info h = refl
part-simple (Class.derived n c) h = part-simple c h
part-simple (Class.located c) h = part-simple c h
part-simple (Class.captureable c) h = absurd (ground arith)
part-simple (Class.wrapper s) h = refl
part-simple (Class.nested c) h = part-simple c h
part-simple Class.static_bad_alloc h = refl
part-simple Class.static_bad_exception h = refl
part-simple Class.unknown_std h = refl
part-simple Class.unknown h = refl
