-- ===== src/CircularList/Links.antt =====
-- The heaps that the straight-line parts of the operations leave.
use universal_system_program.Prelude.{
  ℕ, ◌≡◌, ◌≢◌, refl, ap, true, false, some, [], if◌then◌else◌, ◌==◌, arith,
}
use universal_system_program.CircularList.Nodes.{
  Heap, Name, update, ◌>>=◌, ◌>>◌, load_prev, load_next, store_prev, store_next, delete,
}
use universal_system_program.CircularList.{
  copy_name, add_node_back, add_node_front, link_after, link_before, unlink,
}
use universal_system_program.CircularList.Path.{Link}
use universal_system_program.CircularList.Ring.{IsInserted, IsRemoved}

abbrev pub inserted : Heap → (a n b : ℕ) → Name → Heap
inserted h a n b name = record {
  live = update h.live n true;
  name = update (update h.name n []) n name;
  prev = update (update (update h.prev n 0) n a) b n;
  next = update (update (update h.next n 0) n b) a n;
}

pub inserted-IsInserted :
    (h : Heap) (a n b : ℕ) (name : Name) → IsInserted h a n b name (inserted h a n b name)
inserted-IsInserted h a n b name = record {
  spliced = record { next = λ x. ground arith; prev = λ x. ground arith };
  named = λ x. ground arith;
  live = λ x. ground arith;
}

module _ (h : Heap) (a n b : ℕ) (data_name : Name) (link : Link h a b) (live_a : h.live a ≡ true)
    (live_b : h.live b ≡ true) (fresh : h.live n ≡ false) where
  a_old : a ≢ n
  a_old e = cc (ap h.live e)

  b_old : b ≢ n
  b_old e = cc (ap h.live e)

  pub back_lem : add_node_back b n data_name h ≡ some (tt, inserted h a n b (copy_name data_name))
  unfolding add_node_back
  back_lem = ground (arith, a_old, b_old, link)

  pub front_lem : add_node_front a n data_name h ≡ some (tt, inserted h a n b (copy_name data_name))
  unfolding add_node_front
  front_lem = ground (arith, a_old, b_old, link)

  pub after_lem : link_after n data_name a h ≡ some (tt, inserted h a n b (copy_name data_name))
  unfolding link_after
  after_lem = ground (arith, a_old, b_old, link)

  pub before_lem : link_before n data_name b h ≡ some (tt, inserted h a n b (copy_name data_name))
  unfolding link_before
  before_lem = ground (arith, a_old, b_old, link)

abbrev pub removed : Heap → (a t b : ℕ) → Heap
removed h a t b = record h {
  live = update h.live t false;
  prev = update h.prev b a;
  next = update h.next a b;
}

pub removed-IsRemoved : (h : Heap) (a t b : ℕ) → IsRemoved h a t b (removed h a t b)
removed-IsRemoved h a t b = record {
  cut = record { next = λ x. ground arith; prev = λ x. ground arith };
  named = λ x. refl;
  live = λ x. ground arith;
}

-- Where neither neighbour is the node itself.
pub unlink_lem :
    (h : Heap) (a t b : ℕ)
    → Link h a t
    → Link h t b
    → a ≢ t
    → b ≢ t
    → h.live a ≡ true
    → h.live t ≡ true
    → h.live b ≡ true
    → unlink t h ≡ some (tt, removed h a t b)
unfolding unlink
unlink_lem h a t b before after a_ne b_ne live_a live_t live_b =
    let moved : (if t == a then b else h.next t) ≡ b = ground (arith, after.0) in
    rw (live_t, load_prev, ◌>>=◌, unlink)
      (rw (live_t, load_next, ◌>>=◌)
        (rw (before.1, after.0, live_a, store_next, ◌>>◌, ◌>>=◌)
          (rw (live_t, load_next, ◌>>=◌)
            (rw (live_t, load_prev, ◌>>=◌)
              (rw (moved, before.1, live_b, store_prev, ◌>>◌, ◌>>=◌) (rw (live_t, delete) refl))))))
