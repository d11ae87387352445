-- ===== src/CircularList/Ring.antt =====
-- The ring of a list: live, distinct nodes, linked both ways from the dummy back to it; and what
-- insertion and removal of a node make of a ring.
use universal_system_program.Prelude.{
  ℕ, ◌≡◌, refl, ap₂, true, false, Bool-cases, inl, inr, ◌⊎◌, List, [], ◌∷◌, ◌++◌, map,
  if◌then◌else◌, ◌==◌, arith,
}
use universal_system_program.CircularList.Nodes.{Heap, Name}
use universal_system_program.CircularList.Path.{
  has, has-append, Distinct, Linked, last_of, first_of, IsSpliced, IsCut, Linked-splice, Linked-cut,
}

pub record IsRing (h : Heap) (d : ℕ) (ps : List ℕ) : Type 0 where
  pub linked : Linked h d ps d
  pub distinct : Distinct (d ∷ ps)
  pub live : (x : ℕ) → has x (d ∷ ps) ≡ true → h.live x ≡ true

-- `g` is `h` with the new node `n`, of the name `name`, between `a` and `b`.
pub record IsInserted (h : Heap) (a n b : ℕ) (name : Name) (g : Heap) : Type 0 where
  pub spliced : IsSpliced h a n b g
  pub named : (x : ℕ) → g.name x ≡ (if x == n then name else h.name x)
  pub live : (x : ℕ) → g.live x ≡ (if x == n then true else h.live x)

-- `g` is `h` without the node `t`, which was between `a` and `b`.
pub record IsRemoved (h : Heap) (a t b : ℕ) (g : Heap) : Type 0 where
  pub cut : IsCut h a b g
  pub named : (x : ℕ) → g.name x ≡ h.name x
  pub live : (x : ℕ) → g.live x ≡ (if x == t then false else h.live x)

pub Distinct-insert :
    (n : ℕ) (ps qs : List ℕ)
    → Distinct (ps ++ qs)
    → has n (ps ++ qs) ≡ false
    → Distinct (ps ++ n ∷ qs)
Distinct-insert n [] qs d out = (out, d)
Distinct-insert n (p ∷ ps) qs (p_out, d) out = (
  ground (arith, has-append p ps qs, has-append p ps (n ∷ qs)),
  Distinct-insert n ps qs d (ground arith),
)

pub Distinct-remove :
    (t : ℕ) (ps qs : List ℕ)
    → Distinct (ps ++ t ∷ qs)
    → Distinct (ps ++ qs) × (has t (ps ++ qs) ≡ false)
Distinct-remove t [] qs (out, d) = (d, out)
Distinct-remove t (p ∷ ps) qs (p_out, d) =
    let (rest, out) = Distinct-remove t ps qs d in
    (
      (ground (arith, has-append p ps qs, has-append p ps (t ∷ qs)), rest),
      ground (arith, has-append p ps (t ∷ qs)),
    )

-- Names of nodes that keep them.
pub names-same :
    (f g : ℕ → Name) (ps : List ℕ) → ((x : ℕ) → has x ps ≡ true → g x ≡ f x) → map g ps ≡ map f ps
names-same f g [] same = refl
names-same f g (p ∷ ps) same =
    ap₂ ◌∷◌ (same p (ground arith)) (names-same f g ps (λ x i. same x (ground (arith, i))))

pub names-insert :
    (f g : ℕ → Name) (n : ℕ) (name : Name) (ps qs : List ℕ)
    → ((x : ℕ) → g x ≡ (if x == n then name else f x))
    → has n (ps ++ qs) ≡ false
    → map g (ps ++ n ∷ qs) ≡ map f ps ++ name ∷ map f qs
names-insert f g n name [] qs same out =
    ap₂ ◌∷◌ (ground (arith, same n)) (names-same f g qs (λ x i. ground (arith, same x)))
names-insert f g n name (p ∷ ps) qs same out =
    ap₂ ◌∷◌ (ground (arith, same p)) (names-insert f g n name ps qs same (ground arith))

pub IsRing-insert :
    (h g : Heap) (d : ℕ) (ps qs : List ℕ) (n : ℕ) (name : Name)
    → IsRing h d (ps ++ qs)
    → h.live n ≡ false
    → IsInserted h (last_of d ps) n (first_of qs d) name g
    → IsRing g d (ps ++ n ∷ qs)
      × (map g.name (ps ++ n ∷ qs) ≡ map h.name ps ++ name ∷ map h.name qs)
IsRing-insert h g d ps qs n name r fresh i =
    let out : has n (d ∷ (ps ++ qs)) ≡ false = absent (Bool-cases (has n (d ∷ (ps ++ qs)))) in
    (
      record {
        linked =
            Linked-splice d ps qs d n i.spliced r.distinct r.distinct.0 out (ground arith) r.linked;
        distinct = Distinct-insert n (d ∷ ps) qs r.distinct out;
        live = λ x at.
            ground (arith, i.live x, r.live x, has-append x ps qs, has-append x ps (n ∷ qs));
      },
      names-insert h.name g.name n name ps qs i.named (ground arith),
    )
  where
    absent :
        (has n (d ∷ (ps ++ qs)) ≡ true) ⊎ (has n (d ∷ (ps ++ qs)) ≡ false)
        → has n (d ∷ (ps ++ qs)) ≡ false
    absent (inl e) = cc (r.live n e)
    absent (inr e) = e

pub IsRing-remove :
    (h g : Heap) (d : ℕ) (ps : List ℕ) (t : ℕ) (qs : List ℕ)
    → IsRing h d (ps ++ t ∷ qs)
    → IsRemoved h (last_of d ps) t (first_of qs d) g
    → IsRing g d (ps ++ qs) × (map g.name (ps ++ qs) ≡ map h.name (ps ++ qs))
IsRing-remove h g d ps t qs r i =
    let (rest, out) = Distinct-remove t (d ∷ ps) qs r.distinct in
    (
      record {
        linked = Linked-cut d ps t qs d i.cut r.distinct r.distinct.0 r.linked;
        distinct = rest;
        live = λ x at.
            ground (arith, i.live x, r.live x, has-append x ps qs, has-append x ps (t ∷ qs));
      },
      names-same h.name g.name (ps ++ qs) (λ x at. i.named x),
    )
