-- ===== src/Waiting/Slices.antt =====
-- The waiting loop of src/_cmsis_rtos ends, and it gives up after exactly the time asked for.
use weos.Common.{
  ℕ, zero, suc, ◌+◌, ◌-◌, ◌*◌, ◌≤◌, ◌<◌, ◌≡◌, refl, Option, some, List, [], ◌∷◌, ◌++◌, All, ltb,
  Bool-cases, ◌⊎◌, inl, inr, true, tests, arith, Result, ok, throws, Error,
}
use weos.Waiting.{Verdict, done, again, fail, max_timeout, truncated, slices, noted, total}

total-snoc : (ts : List ℕ) (t : ℕ) → total (ts ++ t ∷ []) ≡ total ts + t
total-snoc [] t = omega arith
total-snoc (x ∷ ts) t = omega (arith, total-snoc ts t)

All-snoc : (P : ℕ → Type 0) (ts : List ℕ) (t : ℕ) → All P ts → P t → All P (ts ++ t ∷ [])
All-snoc P [] t h p = (p, tt)
All-snoc P (x ∷ ts) t (h, hs) p = (h, All-snoc P ts t hs p)

truncated_bounds : (ms : ℕ) → (truncated ms ≤ ms) × (truncated ms ≤ max_timeout)
unfolding truncated
truncated_bounds ms = ground arith

truncated_progress : (ms : ℕ) → 0 < ms - truncated ms → truncated ms ≡ max_timeout
unfolding truncated
truncated_progress ms h = ground arith

-- What a run may end with, where `spent` says that all of the time has been waited for.
pub data Outcome {R A : Type 0} (judge : R → Verdict A) (expired : A) (spent : Type 0)
    (r : Result A) : Type 0 where
  success : (v : R) (a : A) → judge v ≡ done a → r ≡ ok a → Outcome judge expired spent r
  failure : (v : R) (e : Error) → judge v ≡ fail e → r ≡ throws e → Outcome judge expired spent r
  timeout : spent → r ≡ ok expired → Outcome judge expired spent r

Outcome-map :
    {R A : Type 0} {judge : R → Verdict A} {expired : A} {spent spent' : Type 0} {r : Result A}
    → (spent → spent')
    → Outcome judge expired spent r
    → Outcome judge expired spent' r
Outcome-map f (Outcome.success v a e q) = Outcome.success v a e q
Outcome-map f (Outcome.failure v x e q) = Outcome.failure v x e q
Outcome-map f (Outcome.timeout h q) = Outcome.timeout (f h) q

pub record Ends {R A : Type 0} (judge : R → Verdict A) (expired : A) (ms : ℕ) (log : List ℕ)
    (r : Result A) (log' : List ℕ) : Type 0 where
  pub within : total log' ≤ total log + ms
  pub bounded : All (λ t. t ≤ max_timeout) log'
  pub outcome : Outcome judge expired (total log' ≡ total log + ms) r

Verdict-cases :
    {A : Type 0} (v : Verdict A)
    → ((a : A) × (v ≡ done a)) ⊎ ((v ≡ again) ⊎ ((e : Error) × (v ≡ fail e)))
Verdict-cases (done a) = inl (a, refl)
Verdict-cases again = inr (inl refl)
Verdict-cases (fail e) = inr (inr (e, refl))

module _ {S R A : Type 0} (call : S → ℕ → R × S) (judge : R → Verdict A) (expired : A) where
  -- The run from the given state, with the timeouts in `log` noted before it, ends well.
  pub record EndsWell (fuel : ℕ) (s : S) (log : List ℕ) (ms : ℕ) : Type 0 where
    pub result : Result A
    pub state : S
    pub log' : List ℕ
    pub runs : slices (noted call) judge expired fuel (s, log) ms ≡ some (result, (state, log'))
    pub ends : Ends judge expired ms log result log'

  pub slices-EndsWell :
      (fuel : ℕ) (s : S) (log : List ℕ) (ms : ℕ)
      → ms < fuel * max_timeout
      → All (λ t. t ≤ max_timeout) log
      → EndsWell fuel s log ms
  unfolding slices
  slices-EndsWell zero s log ms h b = absurd (omega arith)
  slices-EndsWell (suc fuel) s log ms h b = elim (Verdict-cases (judge v)) [
    | inl (a, e) ↦ record {
      result = ok a;
      state = s';
      log' = noted_log;
      runs = rw (e, slices);
      ends = record { within = within; bounded = bounded; outcome = Outcome.success v a e refl };
    }
    | inr (inr (x, e)) ↦ record {
      result = throws x;
      state = s';
      log' = noted_log;
      runs = rw (e, slices);
      ends = record { within = within; bounded = bounded; outcome = Outcome.failure v x e refl };
    }
    | inr (inl e) ↦ elim (Bool-cases (ltb 0 (ms - t))) [
      | inl more ↦ go_on e more (
          slices-EndsWell fuel s' noted_log (ms - t) (omega (tests, truncated_progress ms)) bounded)
      | inr over ↦ record {
        result = ok expired;
        state = s';
        log' = noted_log;
        runs = rw (e, slices, over);
        ends = record {
          within = within;
          bounded = bounded;
          outcome = Outcome.timeout (omega (tests, total-snoc log t, truncated_bounds ms)) refl;
        };
      }
    ]
  ]
    where
      t : ℕ
      t = truncated ms

      v : R
      v = (call s t).0

      s' : S
      s' = (call s t).1

      noted_log : List ℕ
      noted_log = log ++ t ∷ []

      within : total noted_log ≤ total log + ms
      within = omega (arith, total-snoc log t, truncated_bounds ms)

      bounded : All (λ t. t ≤ max_timeout) noted_log
      bounded = All-snoc (λ t. t ≤ max_timeout) log t b ((truncated_bounds ms).1)

      go_on :
          judge v ≡ again
          → ltb 0 (ms - t) ≡ true
          → EndsWell fuel s' noted_log (ms - t)
          → EndsWell (suc fuel) s log ms
      go_on e more w = record {
        result = w.result;
        state = w.state;
        log' = w.log';
        runs = rw (e, slices, more) w.runs;
        ends = record {
          within = omega (arith, w.ends.within, total-snoc log t, truncated_bounds ms);
          bounded = w.ends.bounded;
          outcome =
              Outcome-map (λ spent. omega (arith, total-snoc log t, truncated_bounds ms))
                w.ends.outcome;
        };
      }

-- A run that notes its timeouts, from none noted, with `ms` milliseconds to wait: it ends, asks for
-- at most 0xFFFE milliseconds at a time and for at most `ms` in all, and ends with what the verdict
-- on a call says, or with `expired` after `ms` milliseconds exactly.
pub record TimedRun {S R A : Type 0} (judge : R → Verdict A) (expired : A) (ms : ℕ)
    (run : Option (Result A × (S × List ℕ))) : Type 0 where
  pub result : Result A
  pub state : S
  pub log : List ℕ
  pub runs : run ≡ some (result, (state, log))
  pub bounded : All (λ t. t ≤ max_timeout) log
  pub within : total log ≤ ms
  pub outcome : Outcome judge expired (total log ≡ ms) result

pub slices-TimedRun :
    {S R A : Type 0} (call : S → ℕ → R × S) (judge : R → Verdict A) (expired : A) (s : S) (ms : ℕ)
    → TimedRun judge expired ms (slices (noted call) judge expired (suc ms) (s, []) ms)
slices-TimedRun call judge expired s ms = record {
  result = w.result;
  state = w.state;
  log = w.log';
  runs = w.runs;
  bounded = w.ends.bounded;
  within = omega (arith, w.ends.within);
  outcome = Outcome-map (λ spent. omega arith) w.ends.outcome;
}
  where
    w : EndsWell call judge expired (suc ms) s [] ms
    w = slices-EndsWell call judge expired (suc ms) s [] ms (omega arith) tt
