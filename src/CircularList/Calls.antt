-- ===== src/CircularList/Calls.antt =====
-- The calls of a `CircularLinkedList`, from its constructor to its destructor.
use universal_system_program.Prelude.{
  ℕ, ◌<◌, ◌≡◌, refl, ap, sym, ◌∙◌, Bool, true, false, some, List, [], ◌∷◌, ◌++◌, map, length,
  length-map, ◌==◌, arith,
}
use universal_system_program.CircularList.Nodes.{
  Heap, Name, update, M, pure, ◌>>=◌, ◌>>◌, load_next,
}
use universal_system_program.CircularList.{
  construct, add_node_back, add_node_front, search_node, add_node_after, add_node_before, del_node,
  del_node_at, clear_list, delete_from, destruct, when_found,
}
use universal_system_program.CircularList.Path.{has, has-append, last_of, first_of, Link-at}
use universal_system_program.CircularList.Links.{removed}
use universal_system_program.CircularList.Names.{
  Op, add_back, add_front, add_after, add_before, delete, search, clear, step,
}
use universal_system_program.CircularList.Search.{IsCleared, delete_from_lem}
use universal_system_program.CircularList.Owned.{Holds, remove_at, unlink_at, names_at, search_lem}
use universal_system_program.CircularList.Refine.{
  Refines, back-Refines, front-Refines, after-Refines, before-Refines, delete-Refines,
  search-Refines,
}

-- The call of an operation, with the address that `new` returns if it is called.
abbrev pub exec : (d fuel fresh : ℕ) → Op → M Bool
exec d fuel fresh (add_back name) = add_node_back d fresh name >> pure true
exec d fuel fresh (add_front name) = add_node_front d fresh name >> pure true
exec d fuel fresh (delete target) = del_node d fuel target
exec d fuel fresh (search target) = search_node d fuel target >>= when_found (λ t. pure tt)
exec d fuel fresh (add_after name target) = add_node_after d fuel fresh name target
exec d fuel fresh (add_before name target) = add_node_before d fuel fresh name target
exec d fuel fresh clear = clear_list d fuel >> pure true

module _ {h : Heap} {d : ℕ} {others : ℕ → Bool} {ns : List Name} (held : Holds h d others ns)
    (fuel : ℕ) (enough : length ns < fuel) where
  open held use {nodes, ring, owned, apart}

  all_deleted :
      (g : Heap) × (delete_from d fuel (first_of nodes d) h ≡ some (tt, g)) × IsCleared h nodes g
  all_deleted =
      let size : length nodes ≡ length ns = sym (length-map h.name nodes) ∙ ap length held.names in
      delete_from_lem fuel d d nodes h (omega arith) ring.linked ring.distinct.0 ring.distinct.1
        (λ x i. ring.live x (ground (arith, i)))

  clear-Refines : Refines d others ((clear_list d fuel >> pure true) h) (step clear ns)
  unfolding clear_list step
  clear-Refines =
      let (g, run, cleared) = all_deleted in
      let live_d = ring.live d (ground arith) in
      let still : g.live d ≡ true = ground (arith, cleared.live d, ring.distinct.0, live_d) in
      let first = (Link-at h d [] nodes d ring.linked).0 in
      (
        record g { next = update g.next d d; prev = update g.prev d d },
        rw (live_d, load_next, ◌>>=◌) (rw (first, run, still) (ground arith)),
        record {
          nodes = [];
          ring = record {
            linked = (ground arith, ground arith);
            distinct = (refl, tt);
            live = λ x i. ground (arith, i, still);
          };
          names = refl;
          owned = λ x. ground (arith, cleared.live x, owned x, apart x, ring.distinct.0);
          apart = λ x o. ground (arith, o, apart x);
        },
      )

  -- Every call on a list, with more rounds than it has names and an address that is free: it does
  -- not fault, returns and leaves what the operation on the names says, and the list then owns
  -- exactly the live nodes that are not of others, so that no node leaks or is freed twice.
  pub call-Refines :
      (fresh : ℕ) (op : Op)
      → h.live fresh ≡ false
      → Refines d others (exec d fuel fresh op h) (step op ns)
  unfolding add_node_after add_node_before del_node
  call-Refines fresh (add_back name) new = back-Refines held fresh new name
  call-Refines fresh (add_front name) new = front-Refines held fresh new name
  call-Refines fresh clear new = clear-Refines
  call-Refines fresh (delete target) new =
      let (r, run, found) = search_lem held fuel target enough in
      rw (run, ◌>>=◌) (delete-Refines held fresh new target r found)
  call-Refines fresh (search target) new =
      let (r, run, found) = search_lem held fuel target enough in
      rw (run, ◌>>=◌) (search-Refines held fresh new target r found)
  call-Refines fresh (add_after name target) new =
      let (r, run, found) = search_lem held fuel target enough in
      rw (run, ◌>>=◌) (after-Refines held fresh new target name r found)
  call-Refines fresh (add_before name target) new =
      let (r, run, found) = search_lem held fuel target enough in
      rw (run, ◌>>=◌) (before-Refines held fresh new target name r found)

  -- The destructor frees exactly the nodes of its list: what is live after it is what others own.
  pub destruct_lem :
      (g : Heap) × (destruct d fuel h ≡ some (tt, g)) × ((x : ℕ) → g.live x ≡ others x)
  unfolding destruct
  destruct_lem =
      let (g, run, cleared) = all_deleted in
      let live_d = ring.live d (ground arith) in
      let still : g.live d ≡ true = ground (arith, cleared.live d, ring.distinct.0, live_d) in
      let first = (Link-at h d [] nodes d ring.linked).0 in
      (
        record g { live = update g.live d false },
        rw (live_d, load_next, ◌>>=◌) (rw first (rw (run, ◌>>◌, ◌>>=◌) (rw still (ground arith)))),
        λ x. ground (arith, cleared.live x, owned x, apart x),
      )

-- The constructor makes an empty list.
pub construct_lem :
    (h : Heap) (d : ℕ) (others : ℕ → Bool)
    → h.live d ≡ false
    → ((x : ℕ) → h.live x ≡ others x)
    → (g : Heap) × (construct d h ≡ some (tt, g)) × Holds g d others []
unfolding construct
construct_lem h d others new known = (
  record {
    live = update h.live d true;
    name = update (update h.name d []) d [];
    prev = update (update h.prev d 0) d d;
    next = update (update h.next d 0) d d;
  },
  ground arith,
  record {
    nodes = [];
    ring = record {
      linked = (ground arith, ground arith);
      distinct = (refl, tt);
      live = λ x i. ground (arith, i);
    };
    names = refl;
    owned = λ x. ground (arith, known x);
    apart = λ x o. ground (arith, o, known x, new);
  },
)

-- `del_node(Node*)` on a node of the list drops the name at its place, and frees it; on the dummy it
-- does nothing and returns false.
pub del_node_at_lem :
    {h : Heap} {d : ℕ} {others : ℕ → Bool} {ns : List Name} (held : Holds h d others ns)
    (before : List ℕ) (t : ℕ) (after : List ℕ)
    → held.nodes ≡ before ++ t ∷ after
    → Refines d others (del_node_at d t h) (true, map h.name before ++ map h.name after)
      × (ns ≡ map h.name before ++ h.name t ∷ map h.name after)
      × (del_node_at d d h ≡ some (false, h))
unfolding del_node_at
del_node_at_lem {h} {d} {others} held before t after e =
    let out : has d (before ++ t ∷ after) ≡ false = ap (has d) (sym e) ∙ held.ring.distinct.0 in
    let off : (t == d) ≡ false = ground (arith, out, has-append d before (t ∷ after)) in
    (
      (
        removed h (last_of d before) t (first_of after d),
        rw off (rw (unlink_at held before t after e, ◌>>◌, ◌>>=◌) refl),
        remove_at held before t after e,
      ),
      names_at held before t after e,
      ground arith,
    )
