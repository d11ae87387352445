-- ===== src/CircularList/Search.antt =====
-- The loops over a ring: the search for a name, and the deletion of all nodes.
use universal_system_program.Prelude.{
  ℕ, zero, suc, ◌<◌, ◌≡◌, inl, inr, refl, ap, true, false, Bool-cases, Option, none, some, List, [],
  ◌∷◌, ◌++◌, map, length, if◌then◌else◌, ◌==◌, arith,
}
use universal_system_program.CircularList.Nodes.{
  Heap, Name, update, ◌>>=◌, ◌>>◌, load_name, load_next, delete,
}
use universal_system_program.CircularList.{same_name, find, delete_from}
use universal_system_program.CircularList.Path.{has, Distinct, Linked, first_of, Link-at}
use universal_system_program.CircularList.Names.{has_name}

-- The outcome of a search among the nodes `ps`: the first whose name is the target, or none.
pub data Found (h : Heap) (target : Name) (ps : List ℕ) : Option ℕ → Type 0 where
  missing : has_name target (map h.name ps) ≡ false → Found h target ps none
  hit :
      (before : List ℕ) (t : ℕ) (after : List ℕ)
      → ps ≡ before ++ t ∷ after
      → has_name target (map h.name before) ≡ false
      → same_name target (h.name t) ≡ true
      → Found h target ps (some t)

Found-cons :
    {h : Heap} {target : Name} {ps : List ℕ} {r : Option ℕ} (p : ℕ)
    → same_name target (h.name p) ≡ false
    → Found h target ps r
    → Found h target (p ∷ ps) r
Found-cons p no_match (missing m) = missing (ground (arith, no_match, m))
Found-cons p no_match (hit before t after e m same) =
    hit (p ∷ before) t after (ap (λ qs. p ∷ qs) e) (ground (arith, no_match, m)) same

module _ (h : Heap) (d : ℕ) (target : Name) where
  pub find_lem :
      (fuel a : ℕ) (ps : List ℕ)
      → length ps < fuel
      → Linked h a ps d
      → has d ps ≡ false
      → ((x : ℕ) → has x ps ≡ true → h.live x ≡ true)
      → (r : Option ℕ) × (find d fuel target (first_of ps d) h ≡ some (r, h)) × Found h target ps r
  unfolding find
  find_lem zero a ps enough l out live = absurd (omega arith)
  find_lem (suc f) a [] enough l out live = (none, ground arith, missing refl)
  find_lem (suc f) a (p ∷ ps) enough l out live =
      let p_live = live p (ground arith) in
      let on : (p == d) ≡ false = ground arith in
      elim (Bool-cases (same_name target (h.name p))) [
        | inl same ↦
            (some p, rw (on, p_live, same, load_name, ◌>>=◌) refl, hit [] p ps refl refl same)
        | inr other ↦
            let (r, run, found) =
              find_lem f p ps (omega arith) l.1 (ground arith)
                (λ x i. live x (ground (arith, i))) in
            let next = (Link-at h p [] ps d l.1).0 in
            (
              r,
              rw (on, p_live, other, load_name, ◌>>=◌)
                  (rw (p_live, load_next, ◌>>=◌) (rw next run)),
              Found-cons p other found,
            )
      ]

-- The nodes of the path are deleted, each once, and nothing else changes.
pub record IsCleared (h : Heap) (ps : List ℕ) (g : Heap) : Type 0 where
  pub live : (x : ℕ) → g.live x ≡ (if has x ps then false else h.live x)
  pub same : (g.name ≡ h.name) × (g.next ≡ h.next) × (g.prev ≡ h.prev)

pub delete_from_lem :
    (fuel d a : ℕ) (ps : List ℕ) (h : Heap)
    → length ps < fuel
    → Linked h a ps d
    → has d ps ≡ false
    → Distinct ps
    → ((x : ℕ) → has x ps ≡ true → h.live x ≡ true)
    → (g : Heap) × (delete_from d fuel (first_of ps d) h ≡ some (tt, g)) × IsCleared h ps g
unfolding delete_from
delete_from_lem zero d a ps h enough l out ne live = absurd (omega arith)
delete_from_lem (suc f) d a [] h enough l out ne live =
    (h, ground arith, record { live = λ x. refl; same = (refl, refl, refl) })
delete_from_lem (suc f) d a (p ∷ ps) h enough l out ne live =
    let p_live = live p (ground arith) in
    let on : (p == d) ≡ false = ground arith in
    let h' : Heap = record h { live = update h.live p false } in
    let (g, run, cleared) =
      delete_from_lem f d p ps h' (omega arith) l.1 (ground arith) ne.1
        (λ x i. ground (arith, i, live x, ne.0)) in
    let next = (Link-at h p [] ps d l.1).0 in
    (
      g,
      rw (on, p_live, load_next, ◌>>=◌) (rw (p_live, delete, ◌>>◌, ◌>>=◌) (rw next run)),
      record { live = λ x. ground (arith, cleared.live x); same = cleared.same },
    )
