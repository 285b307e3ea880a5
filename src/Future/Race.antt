-- ===== src/Future/Race.antt =====
-- The loop of SharedStateBase::startSettingValue (src/_cmsis_rtos/_future.cpp), run by any number of threads.
use weos.Common.{ℕ, zero, suc, Bool, true, false, ◌≡◌, ◌≢◌, refl, ◌+◌, ◌≤◌, arith, List, [], ◌∷◌}

-- m_flags
pub record Flags : Type 0 where
  pub future_attached : Bool
  pub being_satisfied : Bool
  pub value_constructed : Bool
  pub ready : Bool

-- A thread in startSettingValue: before the load, with the flags that it has read, after an exchange that
-- succeeded, and after the throw.
pub data Setter : Type 0 where
  entering : Setter
  testing : Flags → Setter
  exchanging : Flags → Setter
  won : Setter
  lost : Setter

-- One step of a thread, with m_flags before and after.
pub data SetterStep : Flags → Setter → Flags → Setter → Type 0 where
  load : (f : Flags) → SetterStep f entering f (testing f)
  refuse : (f g : Flags) → g.being_satisfied ≡ true → SetterStep f (testing g) f lost
  go_on : (f g : Flags) → g.being_satisfied ≡ false → SetterStep f (testing g) f (exchanging g)
  exchange : (f : Flags) → SetterStep f (exchanging f) (record f { being_satisfied = true }) won
  miss : (f g : Flags) → f ≢ g → SetterStep f (exchanging g) f (testing f)

-- A step of one of the threads, or a change of another bit by another function.
pub data RaceStep : Flags → List Setter → Flags → List Setter → Type 0 where
  here :
      {f f' : Flags} {p p' : Setter} (ps : List Setter)
      → SetterStep f p f' p'
      → RaceStep f (p ∷ ps) f' (p' ∷ ps)
  there :
      {f f' : Flags} {ps ps' : List Setter} (p : Setter)
      → RaceStep f ps f' ps'
      → RaceStep f (p ∷ ps) f' (p ∷ ps')
  others :
      (f f' : Flags) (ps : List Setter)
      → f'.being_satisfied ≡ f.being_satisfied
      → RaceStep f ps f' ps

pub data Race : Flags → List Setter → Flags → List Setter → Type 0 where
  nil : (f : Flags) (ps : List Setter) → Race f ps f ps
  next :
      {f g h : Flags} {ps qs rs : List Setter}
      → RaceStep f ps g qs
      → Race g qs h rs
      → Race f ps h rs

abbrev pub winner : Setter → ℕ
winner won = 1
winner entering = 0
winner (testing f) = 0
winner (exchanging f) = 0
winner lost = 0

pub winners : List Setter → ℕ
winners [] = 0
winners (p ∷ ps) = winner p + winners ps

-- An expected value always has the bit clear, since the loop has tested it.
abbrev pub IsTested : Setter → Type 0
IsTested (exchanging f) = f.being_satisfied ≡ false
IsTested entering = Unit
IsTested (testing f) = Unit
IsTested won = Unit
IsTested lost = Unit

abbrev pub AllTested : List Setter → Type 0
AllTested [] = Unit
AllTested (p ∷ ps) = IsTested p × AllTested ps

abbrev pub bit : Bool → ℕ
bit true = 1
bit false = 0

-- The winners and the bit move together.
SetterStep-winner :
    {f f' : Flags} {p p' : Setter}
    → SetterStep f p f' p'
    → IsTested p
    → IsTested p' × (winner p' + bit f.being_satisfied ≡ winner p + bit f'.being_satisfied)
SetterStep-winner (SetterStep.load f) h = (tt, refl)
SetterStep-winner (SetterStep.refuse f g e) h = (tt, refl)
SetterStep-winner (SetterStep.go_on f g e) h = (e, refl)
SetterStep-winner (SetterStep.exchange f) h = (tt, ground (arith, h))
SetterStep-winner (SetterStep.miss f g e) h = (tt, refl)

RaceStep-winners :
    {f f' : Flags} {ps ps' : List Setter}
    → RaceStep f ps f' ps'
    → AllTested ps
    → AllTested ps' × (winners ps' + bit f.being_satisfied ≡ winners ps + bit f'.being_satisfied)
unfolding winners
RaceStep-winners (RaceStep.here ps s) (h, hs) =
    let (t, e) = SetterStep-winner s h in ((t, hs), omega (arith, e))
RaceStep-winners (RaceStep.there p s) (h, hs) =
    let (t, e) = RaceStep-winners s hs in ((h, t), omega (arith, e))
RaceStep-winners (RaceStep.others f f' ps e) h = (h, ground (arith, e))

Race-winners :
    {f f' : Flags} {ps ps' : List Setter}
    → Race f ps f' ps'
    → AllTested ps
    → winners ps' + bit f.being_satisfied ≡ winners ps + bit f'.being_satisfied
Race-winners (Race.nil f ps) h = refl
Race-winners (Race.next s r) h =
    let (t, e) = RaceStep-winners s h in omega (arith, e, Race-winners r t)

-- `n` threads before the load
unfoldable pub entrants : ℕ → List Setter
entrants zero = []
entrants (suc n) = entering ∷ entrants n

entrants-AllTested : (n : ℕ) → AllTested (entrants n) × (winners (entrants n) ≡ 0)
unfolding entrants winners
entrants-AllTested zero = (tt, refl)
entrants-AllTested (suc n) = let (h, e) = entrants-AllTested n in ((tt, h), omega (arith, e))

-- However many threads race to satisfy a state that nobody has satisfied, and however the other bits
-- change, at most one exchange succeeds; none has while the bit is clear, and one has once it is set.
pub one_winner :
    (n : ℕ) (f f' : Flags) (ps : List Setter)
    → f.being_satisfied ≡ false
    → Race f (entrants n) f' ps
    → (winners ps ≤ 1) × (winners ps ≡ bit f'.being_satisfied)
one_winner n f f' ps e r =
    let (h, z) = entrants-AllTested n in ground (arith, e, z, Race-winners r h)
