-- ===== src/CircularList.antt =====
-- logical-datastructure/circularlinkedlist.cpp: `CircularLinkedList`, a ring of nodes linked both
-- ways, with a dummy node. The dummy is the object's only member, so it is a parameter; an
-- operation that allocates takes the address that `new` returns. The loops take fuel.
pub mod Nodes
pub mod Path
pub mod Ring
pub mod Links
pub mod Names
pub mod Search
pub mod Owned
pub mod Refine
pub mod Calls
mod Tests
use universal_system_program.Prelude.{
  ℕ, zero, suc, Bool, true, false, ◌&&◌, Option, none, some, List, [], ◌∷◌, if◌then◌else◌, ◌==◌,
  take,
}
use universal_system_program.CircularList.Nodes.{
  Name, Heap, M, pure, ◌>>=◌, ◌>>◌, load_name, load_prev, load_next, store_name, store_prev,
  store_next, new_node, delete,
}

-- `strcmp(a, b) == 0`. The second name is one in the list, which has its terminator within the
-- array, so no read passes either array.
abbrev pub same_name : Name → Name → Bool
same_name [] [] = true
same_name (x ∷ xs) (y ∷ ys) = (x == y) && same_name xs ys
same_name _ _ = false

-- `strncpy`, and the terminator in the last of 20 places.
abbrev pub copy_name : Name → Name
copy_name name = take 19 name

-- The body of the `if` in `add_node_after`, and in `add_node_before`.
unfoldable pub link_after : (fresh : ℕ) → Name → (target : ℕ) → M (Unit {0})
link_after fresh new_data target = do
  new_node fresh
  store_name fresh (copy_name new_data)
  store_prev fresh target
  next ← load_next target
  store_next fresh next
  next ← load_next target
  store_prev next fresh
  store_next target fresh

unfoldable pub link_before : (fresh : ℕ) → Name → (target : ℕ) → M (Unit {0})
link_before fresh new_data target = do
  new_node fresh
  store_name fresh (copy_name new_data)
  prev ← load_prev target
  store_prev fresh prev
  store_next fresh target
  prev ← load_prev target
  store_next prev fresh
  store_prev target fresh

-- The body of the `if` in `del_node(Data*)`, and the `else` of `del_node(Node*)`.
unfoldable pub unlink : (target : ℕ) → M (Unit {0})
unlink target = do
  prev ← load_prev target
  next ← load_next target
  store_next prev next
  next ← load_next target
  prev ← load_prev target
  store_prev next prev
  delete target

abbrev pub when_found : (ℕ → M (Unit {0})) → Option ℕ → M Bool
when_found act none = pure false
when_found act (some target) = do act target; pure true

module _ (dummy : ℕ) where
  unfoldable pub construct : M (Unit {0})
  construct = do new_node dummy; store_name dummy []; store_next dummy dummy; store_prev dummy dummy

  unfoldable pub add_node_back : (fresh : ℕ) → Name → M (Unit {0})
  add_node_back fresh new_data = do
    new_node fresh
    store_name fresh (copy_name new_data)
    temp ← load_prev dummy
    store_next fresh dummy
    store_prev fresh temp
    store_next temp fresh
    store_prev dummy fresh

  unfoldable pub add_node_front : (fresh : ℕ) → Name → M (Unit {0})
  add_node_front fresh new_data = do
    new_node fresh
    store_name fresh (copy_name new_data)
    temp ← load_next dummy
    store_next fresh temp
    store_prev fresh dummy
    store_prev temp fresh
    store_next dummy fresh

  -- `while (temp != dummy_) { if (strcmp(...) == 0) ... else temp = temp->next_; }`, which five
  -- functions repeat, up to the node that they act on.
  unfoldable pub find : (fuel : ℕ) → Name → (temp : ℕ) → M (Option ℕ)
  find zero target temp = λ h. none
  find (suc f) target temp = if temp == dummy then pure none else (do
    name ← load_name temp
    if same_name target name
        then pure (some temp)
        else (do next ← load_next temp; find f target next))

  unfoldable pub search_node : (fuel : ℕ) → Name → M (Option ℕ)
  unfolding find
  search_node fuel target = do temp ← load_next dummy; find fuel target temp

  unfoldable pub add_node_after : (fuel fresh : ℕ) → Name → Name → M Bool
  unfolding search_node link_after
  add_node_after fuel fresh new_data target_data =
      search_node fuel target_data >>= when_found (link_after fresh new_data)

  unfoldable pub add_node_before : (fuel fresh : ℕ) → Name → Name → M Bool
  unfolding search_node link_before
  add_node_before fuel fresh new_data target_data =
      search_node fuel target_data >>= when_found (link_before fresh new_data)

  -- `del_node(Data*)`
  unfoldable pub del_node : (fuel : ℕ) → Name → M Bool
  unfolding search_node unlink
  del_node fuel target_data = search_node fuel target_data >>= when_found unlink

  -- `del_node(Node*)`
  unfoldable pub del_node_at : (target : ℕ) → M Bool
  unfolding unlink
  del_node_at target = if target == dummy then pure false else (do unlink target; pure true)

  -- `while (temp != dummy_) { old = temp; temp = temp->next_; delete old; }`
  unfoldable pub delete_from : (fuel temp : ℕ) → M (Unit {0})
  delete_from zero temp = λ h. none
  delete_from (suc f) temp =
      if temp == dummy then pure tt else (do next ← load_next temp; delete temp; delete_from f next)

  unfoldable pub clear_list : (fuel : ℕ) → M (Unit {0})
  unfolding delete_from
  clear_list fuel = do
    temp ← load_next dummy
    delete_from fuel temp
    store_next dummy dummy
    store_prev dummy dummy

  -- `~CircularLinkedList()`
  unfoldable pub destruct : (fuel : ℕ) → M (Unit {0})
  unfolding delete_from
  destruct fuel = do temp ← load_next dummy; delete_from fuel temp; delete dummy
