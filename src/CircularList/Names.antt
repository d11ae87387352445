-- ===== src/CircularList/Names.antt =====
-- What a list of names should do at each call of a `CircularLinkedList`: the operations on the
-- names alone, in the order of the ring.
use universal_system_program.Prelude.{
  ◌≡◌, refl, Bool, true, false, ◌||◌, List, [], ◌∷◌, ◌++◌, if◌then◌else◌, arith,
}
use universal_system_program.CircularList.Nodes.{Name}
use universal_system_program.CircularList.{same_name, copy_name}

abbrev pub has_name : Name → List Name → Bool
has_name target [] = false
has_name target (n ∷ ns) = same_name target n || has_name target ns

-- Each acts at the first name that is the target.
unfoldable pub insert_after : Name → Name → List Name → List Name
insert_after name target [] = []
insert_after name target (n ∷ ns) =
    if same_name target n then n ∷ name ∷ ns else n ∷ insert_after name target ns

unfoldable pub insert_before : Name → Name → List Name → List Name
insert_before name target [] = []
insert_before name target (n ∷ ns) =
    if same_name target n then name ∷ n ∷ ns else n ∷ insert_before name target ns

unfoldable pub erase : Name → List Name → List Name
erase target [] = []
erase target (n ∷ ns) = if same_name target n then ns else n ∷ erase target ns

pub data Op : Type 0 where
  add_back add_front delete search : Name → Op
  add_after add_before : (name target : Name) → Op
  clear : Op

-- The names after a call, and whether it found its target.
unfoldable pub step : Op → List Name → Bool × List Name
unfolding insert_after insert_before erase
step (add_back name) ns = (true, ns ++ copy_name name ∷ [])
step (add_front name) ns = (true, copy_name name ∷ ns)
step (delete target) ns = (has_name target ns, erase target ns)
step (search target) ns = (has_name target ns, ns)
step (add_after name target) ns = (has_name target ns, insert_after (copy_name name) target ns)
step (add_before name target) ns = (has_name target ns, insert_before (copy_name name) target ns)
step clear ns = (true, [])

-- The first name that is the target, and the names around it.
module _ (target n : Name) (ms : List Name) (hit : same_name target n ≡ true) where
  pub has_name_hit : (ns : List Name) → has_name target (ns ++ n ∷ ms) ≡ true
  has_name_hit [] = ground (arith, hit)
  has_name_hit (m ∷ ns) = ground (arith, has_name_hit ns)

  pub insert_after_hit :
      (name : Name) (ns : List Name)
      → has_name target ns ≡ false
      → insert_after name target (ns ++ n ∷ ms) ≡ ns ++ n ∷ name ∷ ms
  unfolding insert_after
  insert_after_hit name [] miss = ground (arith, hit)
  insert_after_hit name (m ∷ ns) miss = ground (arith, insert_after_hit name ns)

  pub insert_before_hit :
      (name : Name) (ns : List Name)
      → has_name target ns ≡ false
      → insert_before name target (ns ++ n ∷ ms) ≡ ns ++ name ∷ n ∷ ms
  unfolding insert_before
  insert_before_hit name [] miss = ground (arith, hit)
  insert_before_hit name (m ∷ ns) miss = ground (arith, insert_before_hit name ns)

  pub erase_hit :
      (ns : List Name) → has_name target ns ≡ false → erase target (ns ++ n ∷ ms) ≡ ns ++ ms
  unfolding erase
  erase_hit [] miss = ground (arith, hit)
  erase_hit (m ∷ ns) miss = ground (arith, erase_hit ns)

-- Without the target nothing changes.
pub miss_lem :
    (name target : Name) (ns : List Name)
    → has_name target ns ≡ false
    → (insert_after name target ns ≡ ns)
      × (insert_before name target ns ≡ ns)
      × (erase target ns ≡ ns)
unfolding insert_after insert_before erase
miss_lem name target [] miss = (refl, refl, refl)
miss_lem name target (n ∷ ns) miss = ground (arith, miss_lem name target ns)
