-- ===== src/Locks/Threads.antt =====
-- Threads that share a state: each is at a point of its program, and a schedule says which takes the
-- next atomic step. The memory is sequentially consistent.
use universal_system_program.Prelude.{
  ℕ, zero, suc, ◌+◌, ◌≤◌, ◌≡◌, ◌≢◌, refl, ap, Option, none, some, List, [], ◌∷◌, get_elem?, set,
  replicate, arith, of_some, Option-cases, ◌⊎◌, inl, inr, length, length-set, ◌∙◌,
}

-- Which thread, and what it chooses where its program leaves a choice or a call may fail.
abbrev pub Schedule : Type 0 → Type 0
Schedule C = List (ℕ × C)

module _ {C S P : Type 0} where
  abbrev pub at_point : (C → S → P → S × P) → ℕ → C → S → List P → Option P → S × List P
  at_point act i choice s ts none = (s, ts)
  at_point act i choice s ts (some p) = ((act choice s p).0, set ts i (act choice s p).1)

  -- A thread that does not exist does nothing.
  abbrev pub step : (C → S → P → S × P) → ℕ → C → S × List P → S × List P
  step act i choice (s, ts) = at_point act i choice s ts (get_elem? ts i)

  unfoldable pub run : (C → S → P → S × P) → Schedule C → S × List P → S × List P
  run act [] w = w
  run act ((i, choice) ∷ rest) w = run act rest (step act i choice w)

  -- What every step keeps holds after every schedule.
  pub run_keeps :
      (act : C → S → P → S × P) (Inv : S × List P → Type 0)
      → ((s : S) (ts : List P) (i : ℕ) (choice : C) (p : P)
          → get_elem? ts i ≡ some p
          → Inv (s, ts)
          → Inv ((act choice s p).0, set ts i (act choice s p).1))
      → (schedule : Schedule C) (w : S × List P) → Inv w
      → Inv (run act schedule w)
  unfolding run
  run_keeps act Inv keep [] w h = h
  run_keeps act Inv keep ((i, choice) ∷ rest) (s, ts) h =
      run_keeps act Inv keep rest (step act i choice (s, ts))
        (after (Option-cases (get_elem? ts i)))
    where
      after :
          (get_elem? ts i ≡ none) ⊎ ((p : P) × (get_elem? ts i ≡ some p))
          → Inv (step act i choice (s, ts))
      after (inl e) = rw e h
      after (inr (p, e)) = rw e (keep s ts i choice p e h)

-- No step adds a thread.
module _ {C S P : Type 0} (act : C → S → P → S × P) where
  length-step :
      (i : ℕ) (choice : C) (s : S) (ts : List P) → length (step act i choice (s, ts)).1 ≡ length ts
  length-step i choice s ts = elim (Option-cases (get_elem? ts i)) [
    | inl e ↦ rw e refl
    | inr (p, e) ↦ rw e (length-set ts i (act choice s p).1)
  ]

  pub length-run :
      (schedule : Schedule C) (s : S) (ts : List P)
      → length (run act schedule (s, ts)).1 ≡ length ts
  unfolding run
  length-run [] s ts = refl
  length-run ((i, choice) ∷ rest) s ts =
      let w = step act i choice (s, ts) in length-run rest w.0 w.1 ∙ length-step i choice s ts

-- A schedule of threads that are different programs.
module _ {C W : Type 0} where
  unfoldable pub run_steps : (ℕ → C → W → W) → Schedule C → W → W
  run_steps next [] w = w
  run_steps next ((i, c) ∷ rest) w = run_steps next rest (next i c w)

-- The sum of what the threads' points count for.
module _ {P : Type 0} (f : P → ℕ) where
  abbrev pub count : List P → ℕ
  count [] = 0
  count (p ∷ ts) = f p + count ts

  pub count-set :
      (ts : List P) (i : ℕ) (p q : P)
      → get_elem? ts i ≡ some p
      → count (set ts i q) + f p ≡ count ts + f q
  count-set [] i p q e = cc
  count-set (t ∷ ts) zero p q e = omega (arith, ap f (of_some e))
  count-set (t ∷ ts) (suc i) p q e = omega (arith, count-set ts i p q e)

  pub count_ge : (ts : List P) (i : ℕ) (p : P) → get_elem? ts i ≡ some p → f p ≤ count ts
  count_ge [] i p e = cc
  count_ge (t ∷ ts) zero p e = omega (arith, ap f (of_some e))
  count_ge (t ∷ ts) (suc i) p e = omega (arith, count_ge ts i p e)

  -- Where each counts for one at most.
  pub count_le : ((p : P) → f p ≤ 1) → (ts : List P) → count ts ≤ length ts
  count_le small [] = omega arith
  count_le small (t ∷ ts) = omega (arith, small t, count_le small ts)

  -- Two threads count together.
  pub count_two :
      (ts : List P) (i j : ℕ) (p q : P)
      → get_elem? ts i ≡ some p
      → get_elem? ts j ≡ some q
      → i ≢ j
      → f p + f q ≤ count ts
  count_two [] i j p q ei ej ne = cc
  count_two (t ∷ ts) zero zero p q ei ej ne = absurd (ne refl)
  count_two (t ∷ ts) zero (suc j) p q ei ej ne =
      omega (arith, ap f (of_some ei), count_ge ts j q ej)
  count_two (t ∷ ts) (suc i) zero p q ei ej ne =
      omega (arith, ap f (of_some ej), count_ge ts i p ei)
  count_two (t ∷ ts) (suc i) (suc j) p q ei ej ne =
      omega (arith, count_two ts i j p q ei ej (λ e. ne (ap suc e)))

  -- No thread counts at a point that does not.
  pub count-replicate : (n : ℕ) (p : P) → f p ≡ 0 → count (replicate n p) ≡ 0
  count-replicate zero p none_at = refl
  count-replicate (suc n) p none_at = omega (arith, count-replicate n p none_at)
