-- ===== src/Host/Thread/Registry.antt =====
-- The map from ids to shared states in src/_cxx11/_thread.cpp.
use weos.Common.{
  ℕ, ◌≡◌, ◌≢◌, refl, sym, ◌∙◌, ap, arith, ◌==◌, Bool, true, false, Bool-cases, inl, inr, none, some,
  moved,
}
use weos.Host.Thread.{Pc, HandlePc, is_registered, is_running, System, Step, Reach}

record Inv (s : System) : Type 0 where
  sound : s.failed ≡ false
  present : (t : ℕ) → is_registered (s.pc t) ≡ true → s.states (s.id t) ≡ some t
  backed : (i t : ℕ) → s.states i ≡ some t → (s.id t ≡ i) × (is_registered (s.pc t) ≡ true)
  distinct :
      (t u : ℕ) → is_running (s.pc t) ≡ true → is_running (s.pc u) ≡ true → s.id t ≡ s.id u → t ≡ u

registered-running : (p : Pc) → is_registered p ≡ true → is_running p ≡ true
unfolding is_registered is_running
registered-running Pc.absent h = ground arith
registered-running Pc.adding h = refl
registered-running Pc.marking h = refl
registered-running Pc.executing h = refl
registered-running Pc.parked h = refl
registered-running Pc.removing h = refl
registered-running Pc.ended h = ground arith

-- A thread whose registration does not change moves on.
advance :
    {s : System} (t : ℕ) (new : Pc) (handle : ℕ → HandlePc) (marked told : ℕ → Bool)
    → Inv s
    → is_registered new ≡ is_registered (s.pc t)
    → is_running new ≡ is_running (s.pc t)
    → Inv (record s { pc = moved s.pc t new; handle = handle; marked = marked; told = told })
advance {s} t new handle marked told inv r a =
    let same_r : (u : ℕ) → is_registered (moved s.pc t new u) ≡ is_registered (s.pc u) = λ u.
      elim (Bool-cases (t == u)) [
        | inl e ↦ rw e (let k : t ≡ u = ground (arith, e) in r ∙ ap (λ z. is_registered (s.pc z)) k)
        | inr e ↦ rw e refl
      ] in
    let same_a : (u : ℕ) → is_running (moved s.pc t new u) ≡ is_running (s.pc u) = λ u.
      elim (Bool-cases (t == u)) [
        | inl e ↦ rw e (let k : t ≡ u = ground (arith, e) in a ∙ ap (λ z. is_running (s.pc z)) k)
        | inr e ↦ rw e refl
      ] in
    record {
      sound = inv.sound;
      present = λ u h. inv.present u (sym (same_r u) ∙ h);
      backed = λ i u h. let (e, k) = inv.backed i u h in (e, same_r u ∙ k);
      distinct = λ u v h k. inv.distinct u v (sym (same_a u) ∙ h) (sym (same_a v) ∙ k);
    }

create-Inv :
    {s : System} (t i : ℕ) (handle : ℕ → HandlePc)
    → Inv s
    → s.pc t ≡ Pc.absent
    → ((u : ℕ) → is_running (s.pc u) ≡ true → s.id u ≢ i)
    → Inv (record s { id = moved s.id t i; pc = moved s.pc t Pc.adding; handle = handle })
unfolding is_registered is_running
create-Inv {s} t i handle inv e fresh = record {
  sound = inv.sound;
  present = λ u h. ground (arith, inv.present u, e, h);
  backed = λ j u h. let (k, r) = inv.backed j u h in ground (arith, k, r, e);
  distinct = λ u v h k d. ground (arith, inv.distinct u v, fresh u, fresh v, h, k, d);
}

add-Inv :
    {s : System} (t : ℕ)
    → Inv s
    → s.pc t ≡ Pc.adding
    → Inv (record s { states = moved s.states (s.id t) (some t); pc = moved s.pc t Pc.marking })
unfolding is_registered is_running
add-Inv {s} t inv e = record {
  sound = inv.sound;
  present =
      λ u h. ground (arith, inv.present u, inv.distinct t u, registered-running (s.pc u), e, h);
  backed = λ j u h. ground (arith, inv.backed j u, e, h);
  distinct = λ u v h k d. ground (arith, inv.distinct u v, e, h, k, d);
}

remove-Inv :
    {s : System} (t : ℕ)
    → Inv s
    → s.pc t ≡ Pc.removing
    → Inv (record s { states = moved s.states (s.id t) none; pc = moved s.pc t Pc.ended })
unfolding is_registered is_running
remove-Inv {s} t inv e = record {
  sound = inv.sound;
  present =
      λ u h. ground (arith, inv.present u, inv.distinct t u, registered-running (s.pc u), e, h);
  backed = λ j u h. ground (arith, inv.backed j u, inv.present t, e, h);
  distinct = λ u v h k d. ground (arith, inv.distinct u v, e, h, k, d);
}

Step-Inv : {s s' : System} → Inv s → Step s s' → Inv s'
unfolding is_registered is_running
Step-Inv {s} inv (Step.create t i h e fresh) =
    create-Inv t i (moved s.handle t HandlePc.creating) inv e fresh
Step-Inv {s} inv (Step.add t e n) = add-Inv t inv e
Step-Inv {s} inv (Step.add_fails t u e n) =
    let (k, r) = inv.backed (s.id t) u n in
    let same : u ≡ t = inv.distinct u t (registered-running (s.pc u) r) (ground (arith, e)) k in
    absurd (ground (arith, r, same, e))
Step-Inv {s} inv (Step.mark t e) =
    advance t Pc.executing s.handle (moved s.marked t true) s.told inv (ground (arith, e))
      (ground (arith, e))
Step-Inv {s} inv (Step.created t h m) = record {
  sound = inv.sound;
  present = inv.present;
  backed = inv.backed;
  distinct = inv.distinct;
}
Step-Inv {s} inv (Step.find_fails t e n) = absurd (ground (arith, inv.present t, e, n))
Step-Inv {s} inv (Step.executed t e) =
    advance t Pc.parked s.handle s.marked s.told inv (ground (arith, e)) (ground (arith, e))
Step-Inv {s} inv (Step.join t h) = record {
  sound = inv.sound;
  present = inv.present;
  backed = inv.backed;
  distinct = inv.distinct;
}
Step-Inv {s} inv (Step.detach t h) = record {
  sound = inv.sound;
  present = inv.present;
  backed = inv.backed;
  distinct = inv.distinct;
}
Step-Inv {s} inv (Step.leave t e m) =
    advance t Pc.removing s.handle s.marked s.told inv (ground (arith, e)) (ground (arith, e))
Step-Inv {s} inv (Step.remove t u e n) = remove-Inv t inv e
Step-Inv {s} inv (Step.remove_fails t e n) = absurd (ground (arith, inv.present t, e, n))
Step-Inv {s} inv (Step.join_ends t h e) = record {
  sound = inv.sound;
  present = inv.present;
  backed = inv.backed;
  distinct = inv.distinct;
}
Step-Inv {s} inv (Step.detach_ends t h) = record {
  sound = inv.sound;
  present = inv.present;
  backed = inv.backed;
  distinct = inv.distinct;
}

Reach-Inv : {s : System} → Reach s → Inv s
unfolding is_registered is_running
Reach-Inv Reach.start = record {
  sound = refl;
  present = λ t h. ground arith;
  backed = λ i t h. absurd (ground arith);
  distinct = λ t u h k e. absurd (ground arith);
}
Reach-Inv (Reach.next r step) = Step-Inv (Reach-Inv r) step

-- Whatever the interleaving of threads that are created, run, joined and detached, also if ids are used again, no
-- assertion of the manager fails, and a thread that runs its function finds its own state under its id.
pub registry-found :
    {s : System}
    → Reach s
    → (s.failed ≡ false) × ((t : ℕ) → s.pc t ≡ Pc.executing → s.states (s.id t) ≡ some t)
unfolding is_registered
registry-found {s} r =
    let inv = Reach-Inv r in (inv.sound, λ t e. inv.present t (ground (arith, e)))

Step-joined :
    {s s' : System} (t : ℕ)
    → (s.handle t ≡ HandlePc.joined → s.pc t ≡ Pc.ended)
    → Step s s'
    → s'.handle t ≡ HandlePc.joined
    → s'.pc t ≡ Pc.ended
Step-joined t h (Step.create u i k e fresh) j = ground (arith, h)
Step-joined t h (Step.add u e n) j = ground (arith, h)
Step-joined t h (Step.add_fails u v e n) j = h j
Step-joined t h (Step.mark u e) j = ground (arith, h)
Step-joined t h (Step.created u k m) j = ground (arith, h)
Step-joined t h (Step.find_fails u e n) j = h j
Step-joined t h (Step.executed u e) j = ground (arith, h)
Step-joined t h (Step.join u k) j = ground (arith, h)
Step-joined t h (Step.detach u k) j = ground (arith, h)
Step-joined t h (Step.leave u e m) j = ground (arith, h)
Step-joined t h (Step.remove u v e n) j = ground (arith, h)
Step-joined t h (Step.remove_fails u e n) j = h j
Step-joined t h (Step.join_ends u k e) j = ground (arith, h)
Step-joined t h (Step.detach_ends u k) j = ground (arith, h)

Reach-joined : {s : System} (t : ℕ) → Reach s → s.handle t ≡ HandlePc.joined → s.pc t ≡ Pc.ended
Reach-joined t Reach.start j = absurd (ground arith)
Reach-joined t (Reach.next r step) j = Step-joined t (Reach-joined t r) step j

-- When join has returned, the thread has ended, and its state is no longer in the map.
pub joined-removed :
    {s : System} (t : ℕ)
    → Reach s
    → s.handle t ≡ HandlePc.joined
    → (s.pc t ≡ Pc.ended) × ((i : ℕ) → s.states i ≢ some t)
unfolding is_registered
joined-removed {s} t r j =
    let inv = Reach-Inv r in
    let e = Reach-joined t r j in (e, λ i h. let (k, r) = inv.backed i t h in ground (arith, e, r))
