-- ===== src/RingBuffer/Store/Moves.antt =====
-- Moves of rings between objects.
use universal_system_program.Prelude.{
  ℕ, ◌≡◌, ◌≢◌, refl, sym, ap, ◌∙◌, subst, false, Option, none, some, List, ◌==◌, if◌then◌else◌,
  ℕ_discrete, inl, inr, ◌⊎◌, Bool-cases, ==_iff, of_some, arith,
}
use universal_system_program.RingBuffer.{RingBuffer, Slot, moved_from}
use universal_system_program.RingBuffer.Store.{
  Ring, Memory, assign, slots, free, cleared, move_assign, with_slots, value, IsOwned,
}

pub assign_same : {A : Type 0} (f : ℕ → A) (x : ℕ) (v : A) → assign f x v x ≡ v
assign_same f x v = rw ((==_iff x x).1 refl) refl

pub assign_other : {A : Type 0} (f : ℕ → A) (x : ℕ) (v : A) (y : ℕ) → y ≢ x → assign f x v y ≡ f y
assign_other f x v y ne = elim (Bool-cases (y == x)) [
  | inl e ↦ absurd (ne ((==_iff y x).0 e))
  | inr e ↦ rw e refl
]

-- What is not at a pointer is there after the pointer is freed.
pub free_other :
    (old : Option ℕ) (array : ℕ → Option (List Slot)) (x : ℕ)
    → old ≢ some x
    → free old array x ≡ array x
free_other none array x ne = refl
free_other (some a) array x ne = assign_other array a none x (λ e. ne (ap some (sym e)))

pub free_same : (array : ℕ → Option (List Slot)) (x : ℕ) → free (some x) array x ≡ none
free_same array x = assign_same array x none

pub null_differs : {A : Type 0} (x : A) → ◌≡◌ {A = Option A} none (some x) → ⊥
null_differs x e = cc

pub unequal : (a b : ℕ) → a ≢ b → (a == b) ≡ false
unequal a b ne = ground (arith, ne)

-- A test on numbers that are equal, and on others.
pub if_equal : {A : Type 0} (a b : ℕ) (x y : A) → a ≡ b → (if a == b then x else y) ≡ x
if_equal a b x y e = rw ((==_iff a b).1 e) refl

pub if_unequal : {A : Type 0} (a b : ℕ) (x y : A) → a ≢ b → (if a == b then x else y) ≡ y
if_unequal a b x y ne = rw (unequal a b ne) refl

-- Whether a pointer points at an array.
points : (p : Option ℕ) (a : ℕ) → (p ≡ some a) ⊎ (p ≢ some a)
points none a = inr (λ e. cc)
points (some x) a = elim (ℕ_discrete x a) [
  | yes e ↦ inl (ap some e)
  | no ne ↦ inr (λ e. ne (of_some e))
]

-- What stays of an array that is there after the pointer `p` is freed.
pub kept_array :
    (p : Option ℕ) (array : ℕ → Option (List Slot)) (a : ℕ) (bs : List Slot)
    → free p array a ≡ some bs
    → (p ≢ some a) × (array a ≡ some bs)
kept_array p array a bs e = elim (points p a) [
  | inl at ↦
      absurd
        (null_differs bs (sym (free_same array a) ∙ subst (λ x. free x array a ≡ some bs) at e))
  | inr ne ↦ (ne, sym (free_other p array a ne) ∙ e)
]

-- What the objects are worth after a move.
abbrev pub moved : Memory → (this oth : ℕ) → ℕ → Option RingBuffer
moved m this oth i =
    if i == this then value m oth else (if i == oth then some moved_from else value m i)

module _ (m : Memory) (own : IsOwned m) (this oth : ℕ) (ne : this ≢ oth) where
  abbrev p : Option ℕ
  p = (m.ring this).buf

  abbrev after : Memory
  after = record {
    array = free p m.array;
    ring = assign (assign m.ring this (m.ring oth)) oth cleared;
  }

  at_oth : after.ring oth ≡ cleared
  at_oth = assign_same (assign m.ring this (m.ring oth)) oth cleared

  at_this : after.ring this ≡ m.ring oth
  at_this =
      assign_other (assign m.ring this (m.ring oth)) oth cleared this ne
      ∙ assign_same m.ring this (m.ring oth)

  at_other : (i : ℕ) → i ≢ this → i ≢ oth → after.ring i ≡ m.ring i
  at_other i a b =
      assign_other (assign m.ring this (m.ring oth)) oth cleared i b
      ∙ assign_other m.ring this (m.ring oth) i a

  -- Where the array of an object comes from.
  Origin : ℕ → ℕ → Type 0
  Origin i a =
      ((i ≡ this) × ((m.ring oth).buf ≡ some a))
      ⊎ ((i ≢ this) × (i ≢ oth) × ((m.ring i).buf ≡ some a))

  origin : (i a : ℕ) → (after.ring i).buf ≡ some a → Origin i a
  unfolding Origin
  origin i a e = elim (ℕ_discrete i oth) [
    | yes o ↦ absurd (null_differs a (ap (λ x. x.buf) (sym (ap after.ring o ∙ at_oth)) ∙ e))
    | no not_oth ↦ elim (ℕ_discrete i this) [
      | yes t ↦ inl (t, ap (λ x. x.buf) (sym (ap after.ring t ∙ at_this)) ∙ e)
      | no not_this ↦
          inr (not_this, not_oth, ap (λ x. x.buf) (sym (at_other i not_this not_oth)) ∙ e)
    ]
  ]

  -- The array of another object is not the one that is freed.
  spared : (o a : ℕ) → this ≢ o → (m.ring o).buf ≡ some a → p ≢ some a
  spared o a other e at = other (own.apart this o a at e)

  move-live : (i a : ℕ) → (after.ring i).buf ≡ some a → (bs : List Slot) × (after.array a ≡ some bs)
  unfolding Origin
  move-live i a e = elim (origin i a e) [
    | inl (t, from) ↦
        let (bs, there) = own.live oth a from in
        (bs, free_other p m.array a (spared oth a ne from) ∙ there)
    | inr (not_this, not_oth, from) ↦
        let (bs, there) = own.live i a from in
        (bs, free_other p m.array a (spared i a (λ x. not_this (sym x)) from) ∙ there)
  ]

  move-apart : (i j a : ℕ) → (after.ring i).buf ≡ some a → (after.ring j).buf ≡ some a → i ≡ j
  unfolding Origin
  move-apart i j a e f = elim (origin i a e) [
    | inl (t, from) ↦ elim (origin j a f) [
      | inl (t', from') ↦ t ∙ sym t'
      | inr (not_this, not_oth, from') ↦ absurd (not_oth (own.apart j oth a from' from))
    ]
    | inr (not_this, not_oth, from) ↦ elim (origin j a f) [
      | inl (t', from') ↦ absurd (not_oth (own.apart i oth a from from'))
      | inr (not_this', not_oth', from') ↦ own.apart i j a from from'
    ]
  ]

  move-owner :
      (a : ℕ) (bs : List Slot) → after.array a ≡ some bs → (i : ℕ) × ((after.ring i).buf ≡ some a)
  move-owner a bs e =
      let (not_freed, there) = kept_array p m.array a bs e in
      let (i, at) = own.owner a bs there in
      elim (ℕ_discrete i oth) [
        | yes o ↦ (this, ap (λ x. x.buf) (at_this ∙ ap m.ring (sym o)) ∙ at)
        | no not_oth ↦ (
          i,
          ap (λ x. x.buf)
                (at_other i (λ t. not_freed (ap (λ x. (m.ring x).buf) (sym t) ∙ at)) not_oth)
              ∙ at,
        )
      ]

  -- The slots of an object whose array is not freed.
  same_slots : (i : ℕ) → this ≢ i → slots after.array (m.ring i).buf ≡ slots m.array (m.ring i).buf
  same_slots i other = by_pointer (m.ring i).buf refl
    where
      by_pointer : (q : Option ℕ) → (m.ring i).buf ≡ q → slots after.array q ≡ slots m.array q
      by_pointer none e = refl
      by_pointer (some a) e = free_other p m.array a (spared i a other e)

  value_at :
      (i : ℕ) (o : Ring) → after.ring i ≡ o → value after i ≡ with_slots o (slots after.array o.buf)
  value_at i o e = ap (λ x. with_slots x (slots after.array x.buf)) e

  move-value : (i : ℕ) → value after i ≡ moved m this oth i
  move-value i = elim (ℕ_discrete i this) [
    | yes t ↦
        value_at i (m.ring oth) (ap after.ring t ∙ at_this)
        ∙ ap (with_slots (m.ring oth)) (same_slots oth ne)
        ∙ sym (if_equal i this (value m oth) _ t)
    | no not_this ↦ elim (ℕ_discrete i oth) [
      | yes o ↦
          value_at i cleared (ap after.ring o ∙ at_oth)
          ∙ sym (
              if_unequal i this (value m oth) _ not_this
              ∙ if_equal i oth (some moved_from) (value m i) o)
      | no not_oth ↦
          value_at i (m.ring i) (at_other i not_this not_oth)
          ∙ ap (with_slots (m.ring i)) (same_slots i (λ e. not_this (sym e)))
          ∙ sym (
              if_unequal i this (value m oth) _ not_this
              ∙ if_unequal i oth (some moved_from) (value m i) not_oth)
    ]
  ]

-- Whatever two rings move assignment is called on, the same ring on both sides included, in a memory where each
-- array is owned by one ring and each ring's array is there: that stays so, hence nothing leaks, is
-- freed twice or shared; the target is what the source was, a source that is another object is left
-- with no slots and every number 0, and all other rings are what they were.
pub move_assign-IsOwned :
    (m : Memory) (this oth : ℕ)
    → IsOwned m
    → IsOwned (move_assign this oth m)
      × ((i : ℕ) → value (move_assign this oth m) i ≡ moved m this oth i)
move_assign-IsOwned m this oth own = elim (ℕ_discrete this oth) [
  | yes same ↦ subst Sound (sym (if_equal this oth m _ same)) (own, λ i. self i same)
  | no ne ↦ subst Sound (sym (if_unequal this oth m (after m own this oth ne) ne)) (
    record {
      live = move-live m own this oth ne;
      apart = move-apart m own this oth ne;
      owner = move-owner m own this oth ne;
    },
    move-value m own this oth ne,
  )
]
  where
    Sound : Memory → Type 0
    Sound m' = IsOwned m' × ((i : ℕ) → value m' i ≡ moved m this oth i)

    self : (i : ℕ) → this ≡ oth → value m i ≡ moved m this oth i
    self i same = elim (ℕ_discrete i this) [
      | yes t ↦ ap (value m) (t ∙ same) ∙ sym (if_equal i this (value m oth) _ t)
      | no not_this ↦ sym (
          if_unequal i this (value m oth) _ not_this
          ∙ if_unequal i oth (some moved_from) (value m i) (λ e. not_this (e ∙ sym same)))
    ]
