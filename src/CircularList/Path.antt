-- ===== src/CircularList/Path.antt =====
-- Linked nodes: a path from one node to another through nodes in between.
use universal_system_program.Prelude.{
  ℕ, ◌≡◌, ◌≢◌, refl, ap, ◌∙◌, Bool, true, false, ◌||◌, List, [], ◌∷◌, ◌++◌, if◌then◌else◌, ◌==◌,
  arith,
}
use universal_system_program.CircularList.Nodes.{Heap}

abbrev pub has : ℕ → List ℕ → Bool
has x [] = false
has x (p ∷ ps) = (x == p) || has x ps

abbrev pub Distinct : List ℕ → Type 0
Distinct [] = Unit {0}
Distinct (p ∷ ps) = (has p ps ≡ false) × Distinct ps

-- Neighbours name one another.
abbrev pub Link : Heap → ℕ → ℕ → Type 0
Link h a b = (h.next a ≡ b) × (h.prev b ≡ a)

-- From `a` through `ps` to `b`.
abbrev pub Linked : Heap → ℕ → List ℕ → ℕ → Type 0
Linked h a [] b = Link h a b
Linked h a (p ∷ ps) b = Link h a p × Linked h p ps b

-- The node before, and the one after, a place between two lists of nodes.
abbrev pub last_of : ℕ → List ℕ → ℕ
last_of a [] = a
last_of a (p ∷ ps) = last_of p ps

abbrev pub first_of : List ℕ → ℕ → ℕ
first_of [] b = b
first_of (p ∷ ps) b = p

pub has-append : (x : ℕ) (ps qs : List ℕ) → has x (ps ++ qs) ≡ (has x ps || has x qs)
has-append x [] qs = refl
has-append x (p ∷ ps) qs = ground (arith, has-append x ps qs)

pub Link-at :
    (h : Heap) (a : ℕ) (ps qs : List ℕ) (b : ℕ)
    → Linked h a (ps ++ qs) b
    → Link h (last_of a ps) (first_of qs b)
Link-at h a [] [] b l = l
Link-at h a [] (q ∷ qs) b l = l.0
Link-at h a (p ∷ ps) qs b l = Link-at h p ps qs b l.1

-- The link behind the node `t`.
pub Link-beyond :
    (h : Heap) (a : ℕ) (ps : List ℕ) (t : ℕ) (qs : List ℕ) (b : ℕ)
    → Linked h a (ps ++ t ∷ qs) b
    → Link h t (first_of qs b)
Link-beyond h a [] t qs b l = Link-at h t [] qs b l.1
Link-beyond h a (p ∷ ps) t qs b l = Link-beyond h p ps t qs b l.1

pub Link-end : (h : Heap) (a : ℕ) (ps : List ℕ) (b : ℕ) → Linked h a ps b → Link h (last_of a ps) b
Link-end h a [] b l = l
Link-end h a (p ∷ ps) b l = Link-end h p ps b l.1

pub has-last_of : (a : ℕ) (ps : List ℕ) → has (last_of a ps) (a ∷ ps) ≡ true
has-last_of a [] = ground arith
has-last_of a (p ∷ ps) = ground (arith, has-last_of p ps)

-- Both neighbours of a place in a ring are nodes of it.
pub last_of-in : (a : ℕ) (ps qs : List ℕ) → has (last_of a ps) (a ∷ (ps ++ qs)) ≡ true
last_of-in a [] qs = ground arith
last_of-in a (p ∷ ps) qs = ground (arith, last_of-in p ps qs)

pub first_of-in : (a : ℕ) (ps qs : List ℕ) → has (first_of qs a) (a ∷ (ps ++ qs)) ≡ true
first_of-in a ps [] = ground arith
first_of-in a ps (q ∷ qs) = ground (arith, has-append q ps (q ∷ qs))

-- A path is as it was where its links are.
pub Linked-same :
    (h g : Heap) (a : ℕ) (ps : List ℕ) (b : ℕ)
    → Linked h a ps b
    → ((x : ℕ) → has x (a ∷ ps) ≡ true → g.next x ≡ h.next x)
    → ((x : ℕ) → (has x ps || (x == b)) ≡ true → g.prev x ≡ h.prev x)
    → Linked g a ps b
Linked-same h g a [] b (n, p) next prev = (next a (ground arith) ∙ n, prev b (ground arith) ∙ p)
Linked-same h g a (q ∷ ps) b ((n, p), l) next prev = (
  (next a (ground arith) ∙ n, prev q (ground arith) ∙ p),
  Linked-same h g q ps b l (λ x i. next x (ground (arith, i))) (λ x i. prev x (ground (arith, i))),
)

-- `g` is `h` with the node `n` put between `a` and `b`.
pub record IsSpliced (h : Heap) (a n b : ℕ) (g : Heap) : Type 0 where
  pub next : (x : ℕ) → g.next x ≡ (if x == a then n else (if x == n then b else h.next x))
  pub prev : (x : ℕ) → g.prev x ≡ (if x == b then n else (if x == n then a else h.prev x))

-- `g` is `h` with the links between `a` and `b` put past a node between them.
pub record IsCut (h : Heap) (a b : ℕ) (g : Heap) : Type 0 where
  pub next : (x : ℕ) → g.next x ≡ (if x == a then b else h.next x)
  pub prev : (x : ℕ) → g.prev x ≡ (if x == b then a else h.prev x)

last_of-ne : (a p : ℕ) (ps qs : List ℕ) → has a (p ∷ (ps ++ qs)) ≡ false → a ≢ last_of p ps
last_of-ne a p ps qs out e =
    ground (arith, has-append a ps qs, has-last_of p ps, ap (λ x. has x (p ∷ ps)) e)

first_of-ne :
    (p : ℕ) (ps qs : List ℕ) (b : ℕ) → has p (ps ++ qs) ≡ false → p ≢ b → p ≢ first_of qs b
first_of-ne p ps [] b out ne = ne
first_of-ne p ps (q ∷ qs) b out ne = ground (arith, has-append p ps (q ∷ qs))

module _ {h g : Heap} where
  pub Linked-splice :
      (a : ℕ) (ps qs : List ℕ) (b n : ℕ)
      → IsSpliced h (last_of a ps) n (first_of qs b) g
      → Distinct (a ∷ (ps ++ qs))
      → has b (ps ++ qs) ≡ false
      → has n (a ∷ (ps ++ qs)) ≡ false
      → n ≢ b
      → Linked h a (ps ++ qs) b
      → Linked g a (ps ++ n ∷ qs) b
  Linked-splice a [] [] b n s d nb nn ne l = (
    (ground (arith, s.next a), ground (arith, s.prev n)),
    (ground (arith, s.next n), ground (arith, s.prev b)),
  )
  Linked-splice a [] (q ∷ qs) b n s d nb nn ne l = (
    (ground (arith, s.next a), ground (arith, s.prev n)),
    (
      (ground (arith, s.next n), ground (arith, s.prev q)),
      Linked-same h g q qs b l.1 (λ x i. ground (arith, s.next x))
          (λ x i. ground (arith, s.prev x)),
    ),
  )
  Linked-splice a (p ∷ ps) qs b n s d nb nn ne l =
      let far = last_of-ne a p ps qs d.0 in
      let near = first_of-ne p ps qs b d.1.0 (ground arith) in
      (
        (ground (arith, s.next a, l.0), ground (arith, s.prev p, l.0)),
        Linked-splice p ps qs b n s d.1 (ground arith) (ground arith) ne l.1,
      )

  pub Linked-cut :
      (a : ℕ) (ps : List ℕ) (t : ℕ) (qs : List ℕ) (b : ℕ)
      → IsCut h (last_of a ps) (first_of qs b) g
      → Distinct (a ∷ (ps ++ t ∷ qs))
      → has b (ps ++ t ∷ qs) ≡ false
      → Linked h a (ps ++ t ∷ qs) b
      → Linked g a (ps ++ qs) b
  Linked-cut a [] t [] b c d nb l = (ground (arith, c.next a), ground (arith, c.prev b))
  Linked-cut a [] t (q ∷ qs) b c d nb l = (
    (ground (arith, c.next a), ground (arith, c.prev q)),
    Linked-same h g q qs b l.1.1 (λ x i. ground (arith, c.next x))
        (λ x i. ground (arith, c.prev x)),
  )
  Linked-cut a (p ∷ ps) t qs b c d nb l =
      let far = last_of-ne a p ps (t ∷ qs) d.0 in
      let out : has p (ps ++ qs) ≡ false =
        ground (arith, has-append p ps qs, has-append p ps (t ∷ qs)) in
      let near = first_of-ne p ps qs b out (ground arith) in
      (
        (ground (arith, c.next a, l.0), ground (arith, c.prev p, l.0)),
        Linked-cut p ps t qs b c d.1 (ground arith) l.1,
      )
