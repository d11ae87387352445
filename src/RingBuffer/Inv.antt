-- ===== src/RingBuffer/Inv.antt =====
-- The representation invariant of `RingBuffer`, and that the parts of the operations keep it.
use native.Mathlib.Nat.{mod-lt, mod-add-mod, mod-eq_of_lt, mod-mod}
use native.Mathlib.Numerals.{add-one}
use universal_system_program.Prelude.{
  ℕ, zero, suc, ◌+◌, ◌-◌, ◌%◌, ◌^◌, ◌≤◌, ◌<◌, ◌≡◌, ◌≢◌, refl, sym, ap, ap₂, ◌∙◌, some, List, [],
  ◌∷◌, ◌++◌, ltb, if◌then◌else◌, length, get_or, set, arith, take, pos, to_int32_small,
  bytes_from-eq-take, get_elem?-eq-get_or, length-set, le→leb,
}
use universal_system_program.Capacity.Defs.{add_size, sub_size}
use universal_system_program.Capacity.Powers.{pow_le_pow}
use universal_system_program.Capacity.Rounding.{mask_index-add_size}
use universal_system_program.RingBuffer.{
  RingBuffer, Slot, zero_slot, max_slot_size, next_index, store, evict,
}
use universal_system_program.RingBuffer.View.{
  payload, view, view_append, view_of_mod, view_cons, length-view,
}
use universal_system_program.RingBuffer.Queue.{Queue}

pub record IsValid (r : RingBuffer) : Type 0 where
  pub width : ℕ
  pub narrow : width ≤ 63
  pub sized : r.size ≡ 2 ^ width
  pub storage : length r.buf ≡ r.size
  pub head_in : r.head < r.size
  pub cnt_in : r.cnt ≤ r.size
  pub tail_at : r.tail ≡ (r.head + r.cnt) % r.size
  pub lens : (i : ℕ) → (get_or r.buf i zero_slot).len ≤ max_slot_size

-- The blocks in the ring, oldest first.
abbrev pub contents : RingBuffer → Queue
contents r = view r.buf r.size r.head r.cnt

-- What `store` writes: the slot that holds the first `len` bytes.
abbrev filled : Slot → List ℕ → ℕ → Slot
filled old bytes len = record {
  len = len % 2 ^ 16;
  slot = λ i. if ltb i len then get_or bytes i 0 else old.slot i;
}

payload-filled :
    (old : Slot) (bytes : List ℕ) (len : ℕ)
    → len ≤ max_slot_size
    → len ≤ length bytes
    → payload (filled old bytes len) ≡ take len bytes
payload-filled old bytes len fits given =
    let e : len % 2 ^ 16 ≡ len = omega arith in
    rw e (bytes_from-eq-take (filled old bytes len).slot 0 len bytes given (λ j lt. ground arith))

get_or-set_bound :
    (xs : List Slot) (i : ℕ) (s : Slot) (n : ℕ)
    → s.len ≤ n
    → ((j : ℕ) → (get_or xs j zero_slot).len ≤ n)
    → (j : ℕ) → (get_or (set xs i s) j zero_slot).len ≤ n
get_or-set_bound [] i s n h hs j = omega arith
get_or-set_bound (x ∷ xs) zero s n h hs zero = h
get_or-set_bound (x ∷ xs) zero s n h hs (suc j) = hs (suc j)
get_or-set_bound (x ∷ xs) (suc i) s n h hs zero = hs 0
get_or-set_bound (x ∷ xs) (suc i) s n h hs (suc j) = get_or-set_bound xs i s n h (λ k. hs (suc k)) j

-- The ring that `store` leaves.
abbrev stored : RingBuffer → List ℕ → ℕ → RingBuffer
stored r bytes len = record r {
  buf = set r.buf r.tail (filled (get_or r.buf r.tail zero_slot) bytes len);
  tail = next_index r r.tail;
  cnt = add_size r.cnt 1;
}

module _ {r : RingBuffer} (v : IsValid r) where
  open v use {width, narrow, sized, storage, head_in, cnt_in, tail_at, lens}

  pub size_pos : 0 < r.size
  size_pos = omega arith

  pub next_index-mod : (i : ℕ) → i < r.size → next_index r i ≡ (i + 1) % r.size
  next_index-mod i lt = mask_index-add_size i r.size width sized narrow lt

  pub size_small : r.size ≤ 2 ^ 63
  size_small = omega (arith, pow_le_pow width 63 narrow)

  pub length-contents : length (contents r) ≡ r.cnt
  length-contents = length-view r.buf r.size r.head r.cnt

  tail_in : r.tail < r.size
  tail_in = omega (arith, mod-lt (r.head + r.cnt) {m = r.size})

  store-eq-stored :
      (bytes : List ℕ) (len : ℕ)
      → len ≤ max_slot_size
      → len ≤ length bytes
      → store r bytes len ≡ some (pos len, stored r bytes len)
  unfolding store
  store-eq-stored bytes len fits given = rw (
    get_elem?-eq-get_or r.buf r.tail zero_slot (omega (arith, tail_in)),
    le→leb len (length bytes) given,
    le→leb len 65535 fits,
    to_int32_small len (omega arith),
  )

  cnt_up : r.cnt ≢ r.size → add_size r.cnt 1 ≡ r.cnt + 1
  cnt_up room = omega (arith, size_small)

  tail_up : next_index r r.tail ≡ (r.head + (r.cnt + 1)) % r.size
  tail_up =
      next_index-mod r.tail tail_in
      ∙ ap (λ t. (t + 1) % r.size) tail_at
      ∙ mod-add-mod (r.head + r.cnt) r.size 1
      ∙ ap (λ t. t % r.size) (omega arith)

  stored-IsValid :
      (bytes : List ℕ) (len : ℕ)
      → r.cnt ≢ r.size
      → len ≤ max_slot_size
      → IsValid (stored r bytes len)
  stored-IsValid bytes len room fits = record {
    width = width;
    narrow = narrow;
    sized = sized;
    storage = length-set r.buf r.tail _ ∙ storage;
    head_in = head_in;
    cnt_in = omega (arith, cnt_up room);
    tail_at = tail_up ∙ ap (λ c. (r.head + c) % r.size) (sym (cnt_up room));
    lens = get_or-set_bound r.buf r.tail _ max_slot_size (omega arith) lens;
  }

  contents-stored :
      (bytes : List ℕ) (len : ℕ)
      → r.cnt ≢ r.size
      → len ≤ max_slot_size
      → len ≤ length bytes
      → contents (stored r bytes len) ≡ contents r ++ (take len bytes ∷ [])
  contents-stored bytes len room fits given =
      let s = filled (get_or r.buf r.tail zero_slot) bytes len in
      ap₂ (λ c t. view (set r.buf t s) r.size r.head c) (cnt_up room ∙ add-one r.cnt) tail_at
      ∙ view_append r.buf r.size r.head r.cnt s (omega arith) (omega arith)
      ∙ ap (λ b. contents r ++ (b ∷ []))
          (payload-filled (get_or r.buf r.tail zero_slot) bytes len fits given)

  -- `store` runs without fault on a ring with room, returns the length and appends the block.
  pub store_lem :
      (bytes : List ℕ) (len : ℕ)
      → r.cnt ≢ r.size
      → len ≤ max_slot_size
      → len ≤ length bytes
      → (r' : RingBuffer) × (store r bytes len ≡ some (pos len, r'))
        × IsValid r'
        × (contents r' ≡ contents r ++ (take len bytes ∷ []))
        × (r'.size ≡ r.size)
  store_lem bytes len room fits given = (
    stored r bytes len,
    store-eq-stored bytes len fits given,
    stored-IsValid bytes len room fits,
    contents-stored bytes len room fits given,
    refl,
  )

  cnt_down : 0 < r.cnt → sub_size r.cnt 1 ≡ r.cnt - 1
  cnt_down some_left = omega (arith, size_small)

  evict-IsValid : 0 < r.cnt → IsValid (evict r)
  unfolding evict
  evict-IsValid some_left = record {
    width = width;
    narrow = narrow;
    sized = sized;
    storage = storage;
    head_in = omega (arith, next_index-mod r.head head_in, mod-lt (r.head + 1) {m = r.size});
    cnt_in = omega (arith, cnt_down some_left);
    tail_at =
        tail_at
        ∙ ap (λ n. n % r.size) (omega (arith, cnt_down some_left))
        ∙ sym (mod-add-mod (r.head + 1) r.size (sub_size r.cnt 1))
        ∙ ap (λ h. (h + sub_size r.cnt 1) % r.size) (sym (next_index-mod r.head head_in));
    lens = lens;
  }

  contents-evict :
      0 < r.cnt → contents r ≡ payload (get_or r.buf r.head zero_slot) ∷ contents (evict r)
  unfolding evict
  contents-evict some_left =
      view_cons r.buf r.size r.head r.cnt some_left
      ∙ ap₂ ◌∷◌ (ap (λ i. payload (get_or r.buf i zero_slot)) (mod-eq_of_lt head_in)) (
          view_of_mod r.buf r.size (r.head + 1) (next_index r r.head) (r.cnt - 1) (
            sym (mod-mod (r.head + 1) r.size)
            ∙ ap (λ i. i % r.size) (sym (next_index-mod r.head head_in)))
          ∙ ap (view r.buf r.size (next_index r r.head)) (sym (cnt_down some_left)))

  -- `evict` drops the oldest block.
  pub evict_lem :
      0 < r.cnt
      → IsValid (evict r)
        × (contents r ≡ payload (get_or r.buf r.head zero_slot) ∷ contents (evict r))
        × ((evict r).size ≡ r.size)
        × ((evict r).cnt ≡ r.cnt - 1)
  unfolding evict
  evict_lem some_left =
      (evict-IsValid some_left, contents-evict some_left, refl, cnt_down some_left)
