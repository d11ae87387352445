-- ===== src/CircularList/Tests.antt =====
-- A list with the dummy 1 and the nodes 2 and 3, of the names `a` and `b`.
use universal_system_program.Prelude.{
  ℕ, ◌≡◌, refl, Bool, true, false, ◌||◌, Option, none, some, List, [], ◌∷◌, arith,
}
use universal_system_program.CircularList.Nodes.{Heap, Name, update, M, ◌>>=◌, ◌>>◌}
use universal_system_program.CircularList.{
  construct, add_node_back, add_node_before, del_node, search_node, destruct, del_node_at,
}
use universal_system_program.CircularList.Path.{has}
use universal_system_program.CircularList.Names.{add_after, step}
use universal_system_program.CircularList.Owned.{Holds}
use universal_system_program.CircularList.Refine.{Refines}
use universal_system_program.CircularList.Calls.{
  exec, call-Refines, destruct_lem, construct_lem, del_node_at_lem,
}

abbrev a : Name
a = b'a' ∷ []

abbrev b : Name
b = b'b' ∷ []

abbrev c : Name
c = b'c' ∷ []

abbrev others : ℕ → Bool
others x = false

abbrev nothing : Heap
nothing = record { live = λ x. false; name = λ x. []; prev = λ x. 0; next = λ x. 0 }

abbrev two : Heap
two = record {
  live = update (update (update (λ x. false) 1 true) 2 true) 3 true;
  name = update (update (λ x. []) 2 a) 3 b;
  prev = update (update (update (λ x. 0) 1 3) 2 1) 3 2;
  next = update (update (update (λ x. 0) 1 2) 2 3) 3 1;
}

two_live : (x : ℕ) → has x (1 ∷ 2 ∷ 3 ∷ []) ≡ true → two.live x ≡ true
two_live x i = ground (arith, i)

two_owned : (x : ℕ) → two.live x ≡ (has x (1 ∷ 2 ∷ 3 ∷ []) || others x)
two_owned x = ground arith

none_apart : (x : ℕ) → others x ≡ true → has x (1 ∷ 2 ∷ 3 ∷ []) ≡ false
none_apart x o = cc

abbrev two-Holds : Holds two 1 others (a ∷ b ∷ [])
two-Holds = record {
  nodes = 2 ∷ 3 ∷ [];
  ring = record {
    linked = ((refl, refl), ((refl, refl), (refl, refl)));
    distinct = (refl, (refl, (refl, tt)));
    live = two_live;
  };
  names = refl;
  owned = two_owned;
  apart = none_apart;
}

-- The names in the ring, read from the front.
abbrev script : M (Option ℕ)
script = do
  construct 1
  add_node_back 1 2 a
  add_node_back 1 3 c
  _ ← add_node_before 1 9 4 b c
  _ ← del_node 1 9 a
  search_node 1 9 c

script_finds : Option ℕ
unfolding construct add_node_back add_node_before del_node search_node
script_finds = elim (script nothing) [ none ↦ none | some (r, h) ↦ r ]

finds_c : script_finds ≡ some 3
unfolding script_finds
finds_c = refl

-- After the destructor the same search is a use of freed memory.
after_destructor : (destruct 1 9 >> search_node 1 9 a) two ≡ none
unfolding destruct search_node
after_destructor = refl

call-Refines_example :
    Refines 1 others (exec 1 3 4 (add_after c a) two) (step (add_after c a) (a ∷ b ∷ []))
call-Refines_example = call-Refines two-Holds 3 (omega arith) 4 (add_after c a) refl

destruct_lem_example :
    (g : Heap) × (destruct 1 3 two ≡ some (tt, g)) × ((x : ℕ) → g.live x ≡ others x)
destruct_lem_example = destruct_lem two-Holds 3 (omega arith)

makes_empty : (g : Heap) × (construct 1 nothing ≡ some (tt, g)) × Holds g 1 others []
makes_empty = construct_lem nothing 1 others refl (λ x. refl)

del_node_at_lem_example :
    Refines 1 others (del_node_at 1 2 two) (true, b ∷ [])
    × ◌≡◌ {A = List Name} (a ∷ b ∷ []) (a ∷ b ∷ [])
    × (del_node_at 1 1 two ≡ some (false, two))
del_node_at_lem_example = del_node_at_lem two-Holds [] 2 (3 ∷ []) refl
