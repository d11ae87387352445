-- ===== src/CircularList/Nodes.antt =====
-- The nodes of logical-datastructure/circularlinkedlist.h on an explicit heap: each field is a map
-- from addresses, and only the fields of a live node may be read or written.
use universal_system_program.Prelude.{
  ℕ, Bool, true, false, Option, none, some, List, [], if◌then◌else◌, ◌==◌,
}

-- `char name_[20]`: the characters before the terminator.
abbrev pub Name : Type 0
Name = List ℕ

pub record Heap : Type 0 where
  pub live : ℕ → Bool
  pub name : ℕ → Name
  pub prev : ℕ → ℕ
  pub next : ℕ → ℕ

abbrev pub update {ℓ} : {A : Type ℓ} → (ℕ → A) → ℕ → A → ℕ → A
update f p v x = if x == p then v else f x

-- `none` is a fault: an access through a pointer to no node, or fuel that ran out.
abbrev pub M : Type 0 → Type 0
M A = Heap → Option (A × Heap)

-- A run goes on, with the value and the nodes that it has left, unless it has faulted.
abbrev pub go_on : {A B : Type 0} → Option (A × Heap) → (A → M B) → Option (B × Heap)
go_on none rest = none
go_on (some (value, nodes)) rest = rest value nodes

infixl 5 ◌>>=◌ ◌>>◌
abbrev pub ◌>>=◌ : {A B : Type 0} → M A → (A → M B) → M B
◌>>=◌ first rest = λ nodes. go_on (first nodes) rest

abbrev pub ◌>>◌ : {B : Type 0} → M (Unit {0}) → M B → M B
◌>>◌ first second = λ nodes. go_on (first nodes) (λ done. second)

abbrev pub pure : {A : Type 0} → A → M A
pure value = λ nodes. some (value, nodes)

-- The access `f` at the node `p`.
abbrev pub at_node : {A : Type 0} → ℕ → (Heap → A × Heap) → M A
at_node p f h = if h.live p then some (f h) else none

abbrev pub load_name : ℕ → M Name
load_name p = at_node p (λ h. (h.name p, h))

abbrev pub load_prev : ℕ → M ℕ
load_prev p = at_node p (λ h. (h.prev p, h))

abbrev pub load_next : ℕ → M ℕ
load_next p = at_node p (λ h. (h.next p, h))

abbrev pub store_name : ℕ → Name → M (Unit {0})
store_name p n = at_node p (λ h. (tt, record h { name = update h.name p n }))

abbrev pub store_prev : ℕ → ℕ → M (Unit {0})
store_prev p q = at_node p (λ h. (tt, record h { prev = update h.prev p q }))

abbrev pub store_next : ℕ → ℕ → M (Unit {0})
store_next p q = at_node p (λ h. (tt, record h { next = update h.next p q }))

-- `new Node()` that returns the address `p`: all fields are zero.
abbrev pub new_node : (p : ℕ) → M (Unit {0})
new_node p h = some (
  tt,
  record {
    live = update h.live p true;
    name = update h.name p [];
    prev = update h.prev p 0;
    next = update h.next p 0;
  },
)

abbrev pub delete : ℕ → M (Unit {0})
delete p = at_node p (λ h. (tt, record h { live = update h.live p false }))
