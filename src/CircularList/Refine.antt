-- ===== src/CircularList/Refine.antt =====
-- A `CircularLinkedList` does to its ring what the operations on the names say.
use mathlib.Core.List.{append-nil, map-append, append_assoc}
use universal_system_program.Prelude.{
  ℕ, ◌≡◌, refl, ap, sym, ◌∙◌, subst, Bool, true, false, Option, none, some, List, [], ◌∷◌, ◌++◌,
  map,
}
use universal_system_program.CircularList.Nodes.{Heap, Name, M, pure, ◌>>=◌, ◌>>◌}
use universal_system_program.CircularList.{
  same_name, copy_name, add_node_back, add_node_front, when_found, link_after, link_before, unlink,
}
use universal_system_program.CircularList.Path.{last_of, first_of}
use universal_system_program.CircularList.Links.{
  inserted, back_lem, front_lem, after_lem, before_lem,
}
use universal_system_program.CircularList.Names.{
  add_back, add_front, add_after, add_before, delete, search, step, insert_after, insert_before,
  erase, has_name, has_name_hit, insert_after_hit, insert_before_hit, erase_hit, miss_lem,
}
use universal_system_program.CircularList.Search.{Found, missing, hit}
use universal_system_program.CircularList.Owned.{
  Holds, Link-here, live_before, live_behind, insert_at, remove_at, unlink_at, names_at,
}

-- What a call returns and leaves: the result and the names that the specification says.
abbrev pub Refines : (d : ℕ) → (ℕ → Bool) → Option (Bool × Heap) → Bool × List Name → Type 0
Refines d others run (b, ns) = (g : Heap) × (run ≡ some (b, g)) × Holds g d others ns

module _ {h : Heap} {d : ℕ} {others : ℕ → Bool} {ns : List Name} (held : Holds h d others ns)
    (fresh : ℕ) (new : h.live fresh ≡ false) where
  pub back-Refines :
      (name : Name)
      → Refines d others ((add_node_back d fresh name >> pure true) h) (step (add_back name) ns)
  unfolding step
  back-Refines name =
      let e = sym (append-nil held.nodes) in
      let run =
        back_lem h (last_of d held.nodes) fresh d name (Link-here held held.nodes [] e)
          (live_before held held.nodes [] e) (live_behind held held.nodes [] e) new in
      (
        _,
        rw (run, ◌>>◌, ◌>>=◌) refl,
        subst (Holds _ d others) (ap (λ ms. ms ++ copy_name name ∷ []) held.names)
            (insert_at held held.nodes [] e fresh (copy_name name) new),
      )

  pub front-Refines :
      (name : Name)
      → Refines d others ((add_node_front d fresh name >> pure true) h) (step (add_front name) ns)
  unfolding step
  front-Refines name =
      let run =
        front_lem h d fresh (first_of held.nodes d) name (Link-here held [] held.nodes refl)
          (live_before held [] held.nodes refl) (live_behind held [] held.nodes refl) new in
      (
        _,
        rw (run, ◌>>◌, ◌>>=◌) refl,
        subst (Holds _ d others) (ap (λ ms. copy_name name ∷ ms) held.names)
            (insert_at held [] held.nodes refl fresh (copy_name name) new),
      )

last_of_snoc : (a : ℕ) (ps : List ℕ) (t : ℕ) → last_of a (ps ++ t ∷ []) ≡ t
last_of_snoc a [] t = refl
last_of_snoc a (p ∷ ps) t = last_of_snoc p ps t

module _ {h : Heap} {d : ℕ} {others : ℕ → Bool} {ns : List Name} (held : Holds h d others ns)
    (fresh : ℕ) (new : h.live fresh ≡ false) (target : Name) where
  -- A call that did not find its target leaves the names as they are.
  not_found :
      (act : ℕ → M (Unit {0})) (ms : List Name)
      → has_name target (map h.name held.nodes) ≡ false
      → (has_name target ns ≡ false → ms ≡ ns)
      → Refines d others (when_found act none h) (has_name target ns, ms)
  not_found act ms miss keep =
      let absent : has_name target ns ≡ false = ap (has_name target) (sym held.names) ∙ miss in
      (h, rw absent refl, subst (Holds h d others) (sym (keep absent)) held)

  module _ (before : List ℕ) (t : ℕ) (after : List ℕ) (e : held.nodes ≡ before ++ t ∷ after)
      (miss : has_name target (map h.name before) ≡ false)
      (same : same_name target (h.name t) ≡ true) where
    present : has_name target ns ≡ true
    present =
        ap (has_name target) (names_at held before t after e)
        ∙ has_name_hit target (h.name t) (map h.name after) same (map h.name before)

    found_here :
        (act : ℕ → M (Unit {0})) (g : Heap) (ms : List Name) {ms' : List Name}
        → act t h ≡ some (tt, g)
        → Holds g d others ms'
        → ms' ≡ ms
        → Refines d others (when_found act (some t) h) (has_name target ns, ms)
    found_here act g ms run h' names =
        (g, rw (run, ◌>>◌, ◌>>=◌, present) refl, subst (Holds g d others) names h')

    -- What an operation `f` on the names does to the names around the target.
    by_names :
        (f : List Name → List Name) {ms : List Name}
        → f (map h.name before ++ h.name t ∷ map h.name after) ≡ ms
        → ms ≡ f ns
    by_names f hits = sym hits ∙ ap f (sym (names_at held before t after e))

    after_hit :
        (name : Name)
        → Refines d others
            (when_found (link_after fresh name) (some t) h)
            (step (add_after name target) ns)
    unfolding step
    after_hit name =
        let at = e ∙ sym (append_assoc before (t ∷ []) after) in
        let run =
          after_lem h (last_of d (before ++ t ∷ [])) fresh (first_of after d) name
            (Link-here held (before ++ t ∷ []) after at)
            (live_before held (before ++ t ∷ []) after at)
            (live_behind held (before ++ t ∷ []) after at) new in
        let names = map-append h.name before (t ∷ []) in
        found_here (link_after fresh name) _ _
          (subst
            (λ a.
              link_after fresh name a h
              ≡ some (
                tt,
                inserted h (last_of d (before ++ t ∷ [])) fresh (first_of after d) (copy_name name),
              ))
            (last_of_snoc d before t) run)
          (insert_at held (before ++ t ∷ []) after at fresh (copy_name name) new)
          (ap (λ ms. ms ++ copy_name name ∷ map h.name after) names
            ∙ append_assoc (map h.name before) (h.name t ∷ []) (copy_name name ∷ map h.name after)
            ∙ by_names (insert_after (copy_name name) target) (
                insert_after_hit target (h.name t) (map h.name after) same (copy_name name)
                  (map h.name before) miss))

    before_hit :
        (name : Name)
        → Refines d others
            (when_found (link_before fresh name) (some t) h)
            (step (add_before name target) ns)
    unfolding step
    before_hit name =
        found_here (link_before fresh name) _ _
          (before_lem h (last_of d before) fresh t name (Link-here held before (t ∷ after) e)
            (live_before held before (t ∷ after) e) (live_behind held before (t ∷ after) e) new)
          (insert_at held before (t ∷ after) e fresh (copy_name name) new)
          (by_names (insert_before (copy_name name) target) (
            insert_before_hit target (h.name t) (map h.name after) same (copy_name name)
              (map h.name before) miss))

    delete_hit : Refines d others (when_found unlink (some t) h) (step (delete target) ns)
    unfolding step
    delete_hit =
        found_here unlink _ _ (unlink_at held before t after e) (remove_at held before t after e) (
          by_names (erase target)
            (erase_hit target (h.name t) (map h.name after) same (map h.name before) miss))

    search_hit : Refines d others (when_found (λ t. pure tt) (some t) h) (step (search target) ns)
    unfolding step
    search_hit = found_here (λ t. pure tt) h ns refl held refl

  pub after-Refines :
      (name : Name) (r : Option ℕ)
      → Found h target held.nodes r
      → Refines d others (when_found (link_after fresh name) r h) (step (add_after name target) ns)
  unfolding step
  after-Refines name r (missing m) =
      not_found (link_after fresh name) _ m
        (λ absent. (miss_lem (copy_name name) target ns absent).0)
  after-Refines name r (hit before t after e m same) = after_hit before t after e m same name

  pub before-Refines :
      (name : Name) (r : Option ℕ)
      → Found h target held.nodes r
      → Refines d others
          (when_found (link_before fresh name) r h)
          (step (add_before name target) ns)
  unfolding step
  before-Refines name r (missing m) =
      not_found (link_before fresh name) _ m
        (λ absent. (miss_lem (copy_name name) target ns absent).1)
  before-Refines name r (hit before t after e m same) = before_hit before t after e m same name

  pub delete-Refines :
      (r : Option ℕ)
      → Found h target held.nodes r
      → Refines d others (when_found unlink r h) (step (delete target) ns)
  unfolding step
  delete-Refines r (missing m) =
      not_found unlink _ m (λ absent. (miss_lem target target ns absent).2)
  delete-Refines r (hit before t after e m same) = delete_hit before t after e m same

  pub search-Refines :
      (r : Option ℕ)
      → Found h target held.nodes r
      → Refines d others (when_found (λ t. pure tt) r h) (step (search target) ns)
  unfolding step
  search-Refines r (missing m) = not_found (λ t. pure tt) _ m (λ absent. refl)
  search-Refines r (hit before t after e m same) = search_hit before t after e m same
