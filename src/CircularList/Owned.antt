-- ===== src/CircularList/Owned.antt =====
-- A list with its names and the nodes that it owns; what insertion and removal make of it.
use mathlib.Core.List.{map-append}
use universal_system_program.Prelude.{
  ℕ, ◌<◌, ◌≡◌, ap, sym, ◌∙◌, subst, Bool, true, false, ◌||◌, Option, some, List, [], ◌∷◌, ◌++◌, map,
  length, length-map, arith,
}
use universal_system_program.CircularList.Nodes.{Heap, Name, ◌>>=◌, load_next}
use universal_system_program.CircularList.{search_node, unlink}
use universal_system_program.CircularList.Path.{
  has, has-append, Link, last_of, first_of, Link-at, Link-beyond, last_of-in, first_of-in,
}
use universal_system_program.CircularList.Ring.{
  Distinct-remove, IsRing, IsRing-insert, IsRing-remove,
}
use universal_system_program.CircularList.Links.{
  inserted, inserted-IsInserted, removed, removed-IsRemoved, unlink_lem,
}
use universal_system_program.CircularList.Search.{Found, find_lem}

-- The list at `d` has the names `ns`, and owns exactly the live nodes that are not of `others`.
pub record Holds (h : Heap) (d : ℕ) (others : ℕ → Bool) (ns : List Name) : Type 0 where
  pub nodes : List ℕ
  pub ring : IsRing h d nodes
  pub names : map h.name nodes ≡ ns
  pub owned : (x : ℕ) → h.live x ≡ (has x (d ∷ nodes) || others x)
  pub apart : (x : ℕ) → others x ≡ true → has x (d ∷ nodes) ≡ false

module _ (h : Heap) (d : ℕ) (others : ℕ → Bool) where
  Holds-insert :
      (ps qs : List ℕ) (n : ℕ) (name : Name)
      → IsRing h d (ps ++ qs)
      → ((x : ℕ) → h.live x ≡ (has x (d ∷ (ps ++ qs)) || others x))
      → ((x : ℕ) → others x ≡ true → has x (d ∷ (ps ++ qs)) ≡ false)
      → h.live n ≡ false
      → Holds
          (inserted h (last_of d ps) n (first_of qs d) name)
          d
          others
          (map h.name ps ++ name ∷ map h.name qs)
  Holds-insert ps qs n name ring owned apart fresh =
      let g = inserted h (last_of d ps) n (first_of qs d) name in
      let i = inserted-IsInserted h (last_of d ps) n (first_of qs d) name in
      let (ring', names) = IsRing-insert h g d ps qs n name ring fresh i in
      record {
        nodes = ps ++ n ∷ qs;
        ring = ring';
        names = names;
        owned =
            λ x. ground (arith, i.live x, owned x, has-append x ps qs, has-append x ps (n ∷ qs));
        apart = λ x o.
            ground
              (arith, o, apart x, owned x, fresh, has-append x ps qs, has-append x ps (n ∷ qs));
      }

  Holds-remove :
      (ps : List ℕ) (t : ℕ) (qs : List ℕ)
      → IsRing h d (ps ++ t ∷ qs)
      → ((x : ℕ) → h.live x ≡ (has x (d ∷ (ps ++ t ∷ qs)) || others x))
      → ((x : ℕ) → others x ≡ true → has x (d ∷ (ps ++ t ∷ qs)) ≡ false)
      → Holds (removed h (last_of d ps) t (first_of qs d)) d others (map h.name ps ++ map h.name qs)
  Holds-remove ps t qs ring owned apart =
      let g = removed h (last_of d ps) t (first_of qs d) in
      let i = removed-IsRemoved h (last_of d ps) t (first_of qs d) in
      let (ring', names) = IsRing-remove h g d ps t qs ring i in
      let (_, out) = Distinct-remove t (d ∷ ps) qs ring.distinct in
      record {
        nodes = ps ++ qs;
        ring = ring';
        names = names ∙ map-append h.name ps qs;
        owned = λ x. ground (
          arith,
          i.live x,
          owned x,
          apart x,
          out,
          ap others,
          has-append x ps qs,
          has-append x ps (t ∷ qs),
        );
        apart = λ x o. ground (arith, o, apart x, has-append x ps qs, has-append x ps (t ∷ qs));
      }

  -- The neighbours of a node of the ring, which are live and not the node.
  unlink-IsRing :
      (ps : List ℕ) (t : ℕ) (qs : List ℕ)
      → IsRing h d (ps ++ t ∷ qs)
      → unlink t h ≡ some (tt, removed h (last_of d ps) t (first_of qs d))
  unlink-IsRing ps t qs ring =
      let (_, out) = Distinct-remove t (d ∷ ps) qs ring.distinct in
      unlink_lem h (last_of d ps) t (first_of qs d) (Link-at h d ps (t ∷ qs) d ring.linked)
        (Link-beyond h d ps t qs d ring.linked)
        (λ e. ground (arith, out, last_of-in d ps qs, ap (λ x. has x (d ∷ (ps ++ qs))) e))
        (λ e. ground (arith, out, first_of-in d ps qs, ap (λ x. has x (d ∷ (ps ++ qs))) e))
        (ring.live _ (last_of-in d ps (t ∷ qs)))
        (ring.live t (ground (arith, has-append t ps (t ∷ qs))))
        (ring.live _ (
          let x = first_of qs d in
          ground (arith, first_of-in d ps qs, has-append x ps qs, has-append x ps (t ∷ qs))))

module _ {h : Heap} {d : ℕ} {others : ℕ → Bool} {ns : List Name} (held : Holds h d others ns) where
  -- The ring seen as two lists of nodes, with a place between them.
  module _ (ps qs : List ℕ) (e : held.nodes ≡ ps ++ qs) where
    pub IsRing-at : IsRing h d (ps ++ qs)
    IsRing-at = subst (λ xs. IsRing h d xs) e held.ring

    pub Link-here : Link h (last_of d ps) (first_of qs d)
    Link-here = Link-at h d ps qs d IsRing-at.linked

    pub live_before : h.live (last_of d ps) ≡ true
    live_before = IsRing-at.live _ (last_of-in d ps qs)

    pub live_behind : h.live (first_of qs d) ≡ true
    live_behind = IsRing-at.live _ (first_of-in d ps qs)

    pub insert_at :
        (n : ℕ) (name : Name)
        → h.live n ≡ false
        → Holds
            (inserted h (last_of d ps) n (first_of qs d) name)
            d
            others
            (map h.name ps ++ name ∷ map h.name qs)
    insert_at n name fresh =
        Holds-insert h d others ps qs n name IsRing-at
          (subst (λ xs. (x : ℕ) → h.live x ≡ (has x (d ∷ xs) || others x)) e held.owned)
          (subst (λ xs. (x : ℕ) → others x ≡ true → has x (d ∷ xs) ≡ false) e held.apart) fresh

  module _ (ps : List ℕ) (t : ℕ) (qs : List ℕ) (e : held.nodes ≡ ps ++ t ∷ qs) where
    pub remove_at :
        Holds (removed h (last_of d ps) t (first_of qs d)) d others (map h.name ps ++ map h.name qs)
    remove_at =
        Holds-remove h d others ps t qs (IsRing-at ps (t ∷ qs) e)
          (subst (λ xs. (x : ℕ) → h.live x ≡ (has x (d ∷ xs) || others x)) e held.owned)
          (subst (λ xs. (x : ℕ) → others x ≡ true → has x (d ∷ xs) ≡ false) e held.apart)

    pub unlink_at : unlink t h ≡ some (tt, removed h (last_of d ps) t (first_of qs d))
    unlink_at = unlink-IsRing h d others ps t qs (IsRing-at ps (t ∷ qs) e)

    pub names_at : ns ≡ map h.name ps ++ h.name t ∷ map h.name qs
    names_at = sym held.names ∙ ap (map h.name) e ∙ map-append h.name ps (t ∷ qs)

  pub search_lem :
      (fuel : ℕ) (target : Name)
      → length ns < fuel
      → (r : Option ℕ) × (search_node d fuel target h ≡ some (r, h)) × Found h target held.nodes r
  unfolding search_node
  search_lem fuel target enough =
      let ring = held.ring in
      let size : length held.nodes ≡ length ns =
        sym (length-map h.name held.nodes) ∙ ap length held.names in
      let (r, run, found) =
        find_lem h d target fuel d held.nodes (omega arith) ring.linked ring.distinct.0
          (λ x i. ring.live x (ground (arith, i))) in
      let live_d = ring.live d (ground arith) in
      let first = (Link-at h d [] held.nodes d ring.linked).0 in
      (r, rw (live_d, load_next, ◌>>=◌) (rw first run), found)
