-- ===== src/RingBuffer/Store/Copies.antt =====
-- Copies of rings between objects.
use universal_system_program.Prelude.{
  ℕ, zero, suc, ◌≡◌, ◌≢◌, refl, sym, ap, ap₂, ◌∙◌, Option, none, some, List, [], ◌∷◌, ◌==◌,
  if◌then◌else◌, ℕ_discrete, length, replicate, of_some, arith,
}
use universal_system_program.Prelude.Monad.{◌>>=◌}
use universal_system_program.RingBuffer.{RingBuffer, Slot, zero_slot}
use universal_system_program.RingBuffer.Store.{
  Ring, Memory, assign, slots, renew, copy_members, overwrite, put, copy_slots, copy_assign,
  with_slots, value, IsOwned,
}
use universal_system_program.RingBuffer.Store.Moves.{
  assign_same, assign_other, free_other, kept_array, null_differs, if_equal, if_unequal,
}

overwrite_all :
    (n : ℕ) (bs : List Slot) → length bs ≡ n → overwrite n (replicate n zero_slot) bs ≡ some bs
overwrite_all zero [] e = refl
overwrite_all zero (x ∷ bs) e = absurd (omega arith)
overwrite_all (suc n) [] e = absurd (omega arith)
overwrite_all (suc n) (x ∷ bs) e = rw (overwrite_all n bs (omega arith), ◌>>=◌) refl

copy_slots_lem :
    (this oth a : ℕ) (m : Memory) (to from bs : List Slot)
    → (m.ring this).buf ≡ some a
    → m.array a ≡ some to
    → slots m.array (m.ring oth).buf ≡ some from
    → overwrite (m.ring this).size to from ≡ some bs
    → copy_slots this oth m ≡ some (put (some a) bs m)
copy_slots_lem this oth a m to from bs p t f o = rw (p, slots, t, f, ◌>>=◌, o) refl

-- What the objects are worth after a copy.
abbrev pub copied : Memory → (this oth : ℕ) → ℕ → Option RingBuffer
copied m this oth i = if i == this then value m oth else value m i

module _ (m : Memory) (own : IsOwned m) (this oth a : ℕ) (ne : this ≢ oth) (new : m.array a ≡ none)
    (bs : List Slot) (held : slots m.array (m.ring oth).buf ≡ some bs)
    (long : length bs ≡ (m.ring oth).size) where
  abbrev p : Option ℕ
  p = (m.ring this).buf

  abbrev before : Memory
  before = copy_members this oth (renew this a (m.ring oth).size m)

  abbrev after : Memory
  after = put (some a) bs before

  -- No object has the new address.
  not_new : (i : ℕ) → (m.ring i).buf ≢ some a
  not_new i e = let (xs, there) = own.live i a e in null_differs xs (sym new ∙ there)

  abbrev renewed : Ring
  renewed = record (m.ring this) { buf = some a }

  abbrev rings : ℕ → Ring
  rings = assign m.ring this renewed

  abbrev joined : Ring → Ring → Ring
  joined o t = record o { buf = t.buf }

  at_this : after.ring this ≡ record (m.ring oth) { buf = some a }
  at_this =
      assign_same rings this (joined (rings oth) (rings this))
      ∙ ap₂ joined (assign_other m.ring this renewed oth (λ e. ne (sym e)))
          (assign_same m.ring this renewed)

  at_other : (i : ℕ) → i ≢ this → after.ring i ≡ m.ring i
  at_other i other =
      assign_other rings this (joined (rings oth) (rings this)) i other
      ∙ assign_other m.ring this renewed i other

  at_new : after.array a ≡ some bs
  at_new = assign_same before.array a (some bs)

  elsewhere : (x : ℕ) → x ≢ a → p ≢ some x → before.array x ≡ m.array x
  elsewhere x other spared =
      free_other p (assign m.array a (some (replicate (m.ring oth).size zero_slot))) x spared
      ∙ assign_other m.array a (some (replicate (m.ring oth).size zero_slot)) x other

  -- The array of an object is another than the new one, and than the one freed unless it is the target's.
  array_at : (i x : ℕ) → this ≢ i → (m.ring i).buf ≡ some x → (x ≢ a) × (p ≢ some x)
  array_at i x other at =
      ((λ e. not_new i (at ∙ ap some e)), (λ e. other (own.apart this i x e at)))

  same_slots : (i : ℕ) → this ≢ i → slots before.array (m.ring i).buf ≡ slots m.array (m.ring i).buf
  same_slots i other = by_pointer (m.ring i).buf refl
    where
      by_pointer : (q : Option ℕ) → (m.ring i).buf ≡ q → slots before.array q ≡ slots m.array q
      by_pointer none e = refl
      by_pointer (some x) e = let (not_a, spared) = array_at i x other e in elsewhere x not_a spared

  slots_after : (i : ℕ) → this ≢ i → slots after.array (m.ring i).buf ≡ slots m.array (m.ring i).buf
  slots_after i other = by_pointer (m.ring i).buf refl
    where
      by_pointer : (q : Option ℕ) → (m.ring i).buf ≡ q → slots after.array q ≡ slots m.array q
      by_pointer none e = refl
      by_pointer (some x) e =
          let (not_a, spared) = array_at i x other e in
          assign_other before.array a (some bs) x not_a ∙ elsewhere x not_a spared

  copies : copy_slots this oth before ≡ some after
  copies =
      let oth_ne = λ (e : oth ≡ this). ne (sym e) in
      copy_slots_lem this oth a before (replicate (m.ring oth).size zero_slot) bs bs
        (ap (λ x. x.buf) at_this)
        (free_other p (assign m.array a (some (replicate (m.ring oth).size zero_slot))) a
            (not_new this)
          ∙ assign_same m.array a (some (replicate (m.ring oth).size zero_slot)))
        (ap (λ x. slots before.array x.buf) (at_other oth oth_ne) ∙ same_slots oth ne ∙ held)
        (ap (λ x. overwrite x.size (replicate (m.ring oth).size zero_slot) bs) at_this
          ∙ overwrite_all (m.ring oth).size bs long)

  copy-live : (i x : ℕ) → (after.ring i).buf ≡ some x → (xs : List Slot) × (after.array x ≡ some xs)
  copy-live i x e = elim (ℕ_discrete i this) [
    | yes t ↦
        let same : x ≡ a = of_some (sym e ∙ ap (λ r. r.buf) (ap after.ring t ∙ at_this)) in
        (bs, ap after.array same ∙ at_new)
    | no other ↦
        let at = ap (λ r. r.buf) (sym (at_other i other)) ∙ e in
        let (not_a, spared) = array_at i x (λ t. other (sym t)) at in
        let (xs, there) = own.live i x at in
        (xs, assign_other before.array a (some bs) x not_a ∙ elsewhere x not_a spared ∙ there)
  ]

  -- An object with the new address is the target.
  only_this : (i : ℕ) → (after.ring i).buf ≡ some a → i ≡ this
  only_this i e = elim (ℕ_discrete i this) [
    | yes t ↦ t
    | no other ↦ absurd (not_new i (ap (λ r. r.buf) (sym (at_other i other)) ∙ e))
  ]

  copy-apart : (i j x : ℕ) → (after.ring i).buf ≡ some x → (after.ring j).buf ≡ some x → i ≡ j
  copy-apart i j x e f = elim (ℕ_discrete x a) [
    | yes new_one ↦ only_this i (e ∙ ap some new_one) ∙ sym (only_this j (f ∙ ap some new_one))
    | no old ↦
        own.apart i j x (ap (λ r. r.buf) (sym (at_other i (old_one i e old))) ∙ e)
          (ap (λ r. r.buf) (sym (at_other j (old_one j f old))) ∙ f)
  ]
    where
      old_one : (k : ℕ) → (after.ring k).buf ≡ some x → x ≢ a → k ≢ this
      old_one k e old t = old (of_some (sym e ∙ ap (λ r. r.buf) (ap after.ring t ∙ at_this)))

  copy-owner :
      (x : ℕ) (xs : List Slot) → after.array x ≡ some xs → (i : ℕ) × ((after.ring i).buf ≡ some x)
  copy-owner x xs e = elim (ℕ_discrete x a) [
    | yes new_one ↦ (this, ap (λ r. r.buf) at_this ∙ ap some (sym new_one))
    | no old ↦
        let (not_freed, there) =
          kept_array p (assign m.array a (some (replicate (m.ring oth).size zero_slot))) x xs
            (sym (assign_other before.array a (some bs) x old) ∙ e) in
        let (i, at) = own.owner x xs (
          sym (assign_other m.array a (some (replicate (m.ring oth).size zero_slot)) x old)
          ∙ there) in
        (
          i,
          ap (λ r. r.buf) (at_other i (λ t. not_freed (ap (λ k. (m.ring k).buf) (sym t) ∙ at)))
              ∙ at,
        )
  ]

  value_at :
      (i : ℕ) (o : Ring) → after.ring i ≡ o → value after i ≡ with_slots o (slots after.array o.buf)
  value_at i o e = ap (λ x. with_slots x (slots after.array x.buf)) e

  copy-value : (i : ℕ) → value after i ≡ copied m this oth i
  copy-value i = elim (ℕ_discrete i this) [
    | yes t ↦
        value_at i (record (m.ring oth) { buf = some a }) (ap after.ring t ∙ at_this)
        ∙ ap (with_slots (record (m.ring oth) { buf = some a })) at_new
        ∙ sym (if_equal i this (value m oth) (value m i) t ∙ ap (with_slots (m.ring oth)) held)
    | no other ↦
        value_at i (m.ring i) (at_other i other)
        ∙ ap (with_slots (m.ring i)) (slots_after i (λ e. other (sym e)))
        ∙ sym (if_unequal i this (value m oth) (value m i) other)
  ]

-- Whatever two rings copy assignment is called on, the same ring on both sides included, in a memory where each
-- array is owned by one ring and each ring's array is there, where the source has as many slots as its
-- size says and the allocator gives a free address: it does not fault; ownership stays so, hence
-- nothing leaks, is freed twice or shared; the target is what the source was, with an array of its
-- own, and all other rings, the source among them, are what they were.
pub copy_assign-IsOwned :
    (m : Memory) (this oth a : ℕ) (bs : List Slot)
    → IsOwned m
    → m.array a ≡ none
    → slots m.array (m.ring oth).buf ≡ some bs
    → length bs ≡ (m.ring oth).size
    → (m' : Memory) × (copy_assign this oth a m ≡ some m')
      × IsOwned m'
      × ((i : ℕ) → value m' i ≡ copied m this oth i)
copy_assign-IsOwned m this oth a bs own new held long = elim (ℕ_discrete this oth) [
  | yes same ↦ (m, if_equal this oth (some m) _ same, own, λ i. self i same)
  | no ne ↦ (
    after m own this oth a ne new bs held long,
    if_unequal this oth (some m) _ ne ∙ copies m own this oth a ne new bs held long,
    record {
      live = copy-live m own this oth a ne new bs held long;
      apart = copy-apart m own this oth a ne new bs held long;
      owner = copy-owner m own this oth a ne new bs held long;
    },
    copy-value m own this oth a ne new bs held long,
  )
]
  where
    self : (i : ℕ) → this ≡ oth → value m i ≡ copied m this oth i
    self i same = elim (ℕ_discrete i this) [
      | yes t ↦ ap (value m) (t ∙ same) ∙ sym (if_equal i this (value m oth) (value m i) t)
      | no other ↦ sym (if_unequal i this (value m oth) (value m i) other)
    ]
