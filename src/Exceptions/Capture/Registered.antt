-- ===== src/Exceptions/Capture/Registered.antt =====
-- Which of the registered converters of src/_armcc/_exception.cpp converts an exception.
use weos.Common.{
  ℕ, suc, ◌≡◌, ◌≢◌, refl, sym, ◌∙◌, ap, arith, ◌==◌, true, false, Bool-cases, inl, inr, Option,
  none, some, List, [], ◌∷◌, ◌++◌, All,
}
use weos.Exceptions.{Std, Class, Handler, Exception, catches, is_class, root}
use weos.Exceptions.Info.{slice, made, enable_current_exception}
use weos.Exceptions.Capture.Parts.{copied-handler, part-none, subobject-IsPart}
use weos.Exceptions.Capture.Clauses.{caught-exception}
use weos.Exceptions.Capture.{
  Outcome, part, subobject, recover, or_else, clone, clone_exception, do_convert, try_convert,
  catch_exception, run_clause, get_current_exception, current_exception, register_converter,
}

subobject-none :
    (m : ℕ) (c : Class) → catches (Handler.client_handler m) c ≡ false → subobject m c ≡ none
unfolding subobject catches
subobject-none m Class.scalar h = refl
subobject-none m (Class.plain k) h = rw h refl
subobject-none m (Class.standard s) h = refl
subobject-none m Class.info h = refl
subobject-none m (Class.derived k c) h = elim (Bool-cases (m == k)) [
  | inl e ↦ absurd (ground arith)
  | inr e ↦ rw e (subobject-none m c (ground arith))
]
subobject-none m (Class.located c) h = subobject-none m c h
subobject-none m (Class.captureable c) h = subobject-none m c h
subobject-none m (Class.wrapper s) h = refl
subobject-none m (Class.nested c) h = subobject-none m c h
subobject-none m Class.static_bad_alloc h = refl
subobject-none m Class.static_bad_exception h = refl
subobject-none m Class.unknown_std h = refl
subobject-none m Class.unknown h = refl

subobject-some :
    (m : ℕ) (c : Class)
    → catches (Handler.client_handler m) c ≡ true
    → (d : Class) × (subobject m c ≡ some d) × (catches (Handler.client_handler m) d ≡ true)
unfolding subobject catches
subobject-some m (Class.plain k) h = (Class.plain k, rw h refl, h)
subobject-some m (Class.derived k c) h = elim (Bool-cases (m == k)) [
  | inl e ↦ (Class.derived k c, rw e refl, rw e refl)
  | inr e ↦ rw e (subobject-some m c (ground arith))
]
subobject-some m (Class.located c) h = subobject-some m c h
subobject-some m (Class.captureable c) h = subobject-some m c h
subobject-some m (Class.nested c) h = subobject-some m c h
subobject-some m _ h = absurd (ground arith)

module _ (failure : Class → Option Exception) (never : (c : Class) → failure c ≡ none) where
  module _ (n : ℕ) (registry : List ℕ) where
    again : Exception → Outcome (Option Exception)
    again x = current_exception failure (suc n) registry (some x)

    -- The exception is captured as itself, with all its members.
    Kept : Exception → Outcome (Option Exception) → Type 0
    Kept e o =
        (x : Exception) × (o ≡ Outcome.returns (some x))
        × ((h : Handler) → h ≢ Handler.captureable_handler → catches h x.class ≡ catches h e.class)
        × ((h : Handler)
            → h ≢ Handler.captureable_handler
            → catches h e.class ≡ true
            → x.value h ≡ e.value h)

    enabled-Kept :
        (e : Exception)
        → is_class e.class ≡ true
        → catches Handler.captureable_handler e.class ≡ false
        → Kept e (again (enable_current_exception e))
    unfolding Kept again current_exception get_current_exception enable_current_exception clone part
        recover slice
    enabled-Kept e t k =
        rw (t, k)
          (rw (recover, clone, never (Class.captureable e.class))
            (
              slice (Class.captureable e.class) (record e { class = Class.captureable e.class }),
              refl,
              (λ h d. copied-handler h e.class d),
              λ h d c. rw (copied-handler h e.class d, c) refl,
            ))

    -- The exception is converted to an object of the class, with the members of the parts that it has.
    Converted : ℕ → Exception → Outcome (Option Exception) → Type 0
    Converted m e o =
        (x : Exception) × (o ≡ Outcome.returns (some x))
        × (catches (Handler.client_handler m) x.class ≡ true)
        × ((h : Handler)
            → h ≢ Handler.captureable_handler
            → catches h x.class ≡ true
            → x.value h ≡ e.value h)

    sliced-Converted :
        (m : ℕ) (d : Class) (e : Exception) (o : Outcome (Option Exception))
        → catches (Handler.client_handler m) d ≡ true
        → Kept (slice d e) o
        → Converted m e o
    unfolding Kept Converted slice
    sliced-Converted m d e o g (x, r, f, v) = (
      x,
      r,
      f (Handler.client_handler m) (ground arith) ∙ g,
      λ h n c. let taken : catches h d ≡ true = sym (f h n) ∙ c in v h n taken ∙ rw taken refl,
    )

    or_else-Converted :
        (m : ℕ) (e : Exception) (o rest : Outcome (Option Exception))
        → Converted m e o
        → Converted m e (or_else o rest)
    unfolding Converted or_else
    or_else-Converted m e o rest (x, r, f, v) = (x, ap (λ o. or_else o rest) r, f, v)

    tried-Converted :
        (newer older : List ℕ) (m : ℕ) (e : Exception)
        → catches Handler.captureable_handler e.class ≡ false
        → All (λ k. catches (Handler.client_handler k) e.class ≡ false) newer
        → catches (Handler.client_handler m) e.class ≡ true
        → Converted m e (try_convert failure again (newer ++ (m ∷ older)) e)
    unfolding try_convert do_convert or_else slice
    tried-Converted [] older m e k a h =
        let (d, q, g) = subobject-some m e.class h in
        let is_part = subobject-IsPart m e.class d k q in
        let o = again (enable_current_exception (slice d e)) in
        rw (try_convert, do_convert, q)
          (or_else-Converted m e o (try_convert failure again older e)
            (sliced-Converted m d e o g (enabled-Kept (slice d e) is_part.class is_part.simple)))
    tried-Converted (i ∷ newer) older m e k (u, a) h =
        rw (try_convert, do_convert, subobject-none i e.class u)
          (tried-Converted newer older m e k a h)

  -- An exception whose class of std is std::exception itself and that does not derive from CaptureableExceptionBase is
  -- captured, if there is memory for it, by the converter registered last among those for a base of its class: a
  -- handler for that base takes what is captured, and the parts of it, that base and its bases, have the members that
  -- they have in the exception, whatever was registered before.
  pub converted-client_handler :
      (n : ℕ) (newer older : List ℕ) (m : ℕ) (e : Exception)
      → root e.class ≡ some Std.exception
      → catches Handler.captureable_handler e.class ≡ false
      → All (λ k. catches (Handler.client_handler k) e.class ≡ false) newer
      → catches (Handler.client_handler m) e.class ≡ true
      → (x : Exception) × (current_exception failure
            (suc (suc n))
            (newer ++ register_converter m older)
            (some e)
          ≡ Outcome.returns (some x))
        × (catches (Handler.client_handler m) x.class ≡ true)
        × ((h : Handler)
            → h ≢ Handler.captureable_handler
            → catches h x.class ≡ true
            → x.value h ≡ e.value h)
  unfolding current_exception get_current_exception register_converter run_clause catch_exception
      recover again or_else Converted
  converted-client_handler n newer older m e r k a h =
      let registry = newer ++ (m ∷ older) in
      let unknown = clone_exception failure (again n registry) (made Class.unknown_std) in
      let (x, q, f, v) = tried-Converted n registry newer older m e k a h in
      (
        x,
        rw
            (
              get_current_exception,
              part-none e.class k,
              caught-exception e.class r,
              run_clause,
              catch_exception,
            )
            (ap (λ o. recover (or_else o unknown)) q),
        f,
        v,
      )
