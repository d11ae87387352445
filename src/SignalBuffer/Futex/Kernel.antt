-- ===== src/SignalBuffer/Futex/Kernel.antt =====
-- A kernel that wakes sleepers as it is documented.
use universal_system_program.Prelude.{
  ℕ, zero, suc, ◌≡◌, inl, inr, refl, List, [], ◌∷◌, Option, some, get_elem?, set, arith,
  Option-cases,
}
use universal_system_program.SignalBuffer.Futex.{
  Point, outside, storing, waking, storing_all, waking_all, ready, found_none, waiting, asleep,
  Wake,
}
use universal_system_program.SignalBuffer.Futex.Wakes.{is_asleep, Woken, Moves, set-Moves, IsWake}

abbrev pub woken : Point → Point
woken asleep = ready
woken p = p

abbrev pub wake_first : List Point → List Point
wake_first [] = []
wake_first (asleep ∷ ts) = ready ∷ ts
wake_first (p ∷ ts) = p ∷ wake_first ts

abbrev pub wake_at : ℕ → List Point → Option Point → List Point
wake_at j ts (some asleep) = set ts j ready
wake_at j ts _ = wake_first ts

abbrev pub wake_one : ℕ → List Point → List Point
wake_one j ts = wake_at j ts (get_elem? ts j)

abbrev pub wake_every : List Point → List Point
wake_every [] = []
wake_every (p ∷ ts) = woken p ∷ wake_every ts

-- One sleeper, or all.
abbrev pub kernel_wake : Wake
kernel_wake zero j ts = ts
kernel_wake (suc zero) j ts = wake_one j ts
kernel_wake (suc (suc n)) j ts = wake_every ts

Woken-cons :
    (p : Point) (ts ts' : List Point) → Woken ts ts' → (is_asleep p ≡ 0) → Woken (p ∷ ts) (p ∷ ts')
Woken-cons p ts ts' (a, b, c, d, e, f) awake = (
  omega arith,
  omega arith,
  omega arith,
  omega arith,
  omega arith,
  λ some_asleep. omega (arith, f (omega arith)),
)

wake_first-Woken : (ts : List Point) → Woken ts (wake_first ts)
wake_first-Woken [] = (refl, refl, omega arith, refl, omega arith, λ h. absurd (omega arith))
wake_first-Woken (asleep ∷ ts) =
    (refl, refl, omega arith, omega arith, omega arith, λ h. omega arith)
wake_first-Woken (outside ∷ ts) = Woken-cons outside ts _ (wake_first-Woken ts) refl
wake_first-Woken (storing ∷ ts) = Woken-cons storing ts _ (wake_first-Woken ts) refl
wake_first-Woken (waking ∷ ts) = Woken-cons waking ts _ (wake_first-Woken ts) refl
wake_first-Woken (storing_all ∷ ts) = Woken-cons storing_all ts _ (wake_first-Woken ts) refl
wake_first-Woken (waking_all ∷ ts) = Woken-cons waking_all ts _ (wake_first-Woken ts) refl
wake_first-Woken (ready ∷ ts) = Woken-cons ready ts _ (wake_first-Woken ts) refl
wake_first-Woken (found_none ∷ ts) = Woken-cons found_none ts _ (wake_first-Woken ts) refl
wake_first-Woken (waiting ∷ ts) = Woken-cons waiting ts _ (wake_first-Woken ts) refl

wake_one-Woken : (j : ℕ) (ts : List Point) → Woken ts (wake_one j ts)
wake_one-Woken j ts = elim (Option-cases (get_elem? ts j)) [
  | inl nobody ↦ rw nobody (wake_first-Woken ts)
  | inr (p, at) ↦ rw at (at_point p at)
]
  where
    chosen : Moves ts asleep ready (set ts j ready) → Woken ts (set ts j ready)
    chosen (a, b, c, d, e, _) =
        (omega arith, omega arith, omega arith, omega arith, omega arith, λ h. omega arith)

    at_point : (p : Point) → get_elem? ts j ≡ some p → Woken ts (wake_at j ts (some p))
    at_point asleep at = chosen (set-Moves ts j asleep ready at)
    at_point outside at = wake_first-Woken ts
    at_point storing at = wake_first-Woken ts
    at_point waking at = wake_first-Woken ts
    at_point storing_all at = wake_first-Woken ts
    at_point waking_all at = wake_first-Woken ts
    at_point ready at = wake_first-Woken ts
    at_point found_none at = wake_first-Woken ts
    at_point waiting at = wake_first-Woken ts

wake_every-Woken : (ts : List Point) → Woken ts (wake_every ts)
wake_every-Woken [] = (refl, refl, omega arith, refl, omega arith, λ h. absurd (omega arith))
wake_every-Woken (asleep ∷ ts) =
    let (a, b, c, d, e, f) = wake_every-Woken ts in
    (omega arith, omega arith, omega arith, omega arith, omega arith, λ h. omega arith)
wake_every-Woken (outside ∷ ts) = Woken-cons outside ts _ (wake_every-Woken ts) refl
wake_every-Woken (storing ∷ ts) = Woken-cons storing ts _ (wake_every-Woken ts) refl
wake_every-Woken (waking ∷ ts) = Woken-cons waking ts _ (wake_every-Woken ts) refl
wake_every-Woken (storing_all ∷ ts) = Woken-cons storing_all ts _ (wake_every-Woken ts) refl
wake_every-Woken (waking_all ∷ ts) = Woken-cons waking_all ts _ (wake_every-Woken ts) refl
wake_every-Woken (ready ∷ ts) = Woken-cons ready ts _ (wake_every-Woken ts) refl
wake_every-Woken (found_none ∷ ts) = Woken-cons found_none ts _ (wake_every-Woken ts) refl
wake_every-Woken (waiting ∷ ts) = Woken-cons waiting ts _ (wake_every-Woken ts) refl

pub kernel_wake-IsWake : IsWake kernel_wake
kernel_wake-IsWake zero j ts one = absurd (omega arith)
kernel_wake-IsWake (suc zero) j ts one = wake_one-Woken j ts
kernel_wake-IsWake (suc (suc n)) j ts one = wake_every-Woken ts
