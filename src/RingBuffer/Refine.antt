-- ===== src/RingBuffer/Refine.antt =====
-- `RingBuffer` behaves as the bounded queue of the blocks that it holds.
use universal_system_program.Prelude.{
  ℕ, ◌≤◌, ◌≡◌, refl, ◌∙◌, Option, some, List, [], ◌∷◌, length, get_or, arith, pos, min, minus_one,
  length-bytes_from, take-bytes_from, get_elem?-eq-get_or, ℕ_discrete, bytes_from,
}
use universal_system_program.RingBuffer.{
  RingBuffer, zero_slot, max_slot_size, clamp_len, evict, push_infinite, push_finite, pop, step,
  run,
}
use universal_system_program.RingBuffer.Inv.{
  IsValid, contents, store_lem, evict_lem, length-contents, size_pos,
}
use universal_system_program.RingBuffer.Queue
use universal_system_program.RingBuffer.Queue.{Queue, Op, Reply, kept, drop_oldest}

-- The caller hands over at least as many bytes as are copied.
abbrev pub IsFed : Op → Type 0
IsFed (Op.push_infinite bytes len) = kept len ≤ length bytes
IsFed (Op.push_finite bytes len) = kept len ≤ length bytes
IsFed (Op.pop len) = Unit {0}

abbrev pub AllFed : List Op → Type 0
AllFed [] = Unit {0}
AllFed (op ∷ ops) = IsFed op × AllFed ops

clamp_len-kept : (len : ℕ) → clamp_len len ≡ kept len
clamp_len-kept len = ground arith

-- `out` is what the call gives at `r`: no fault, the reply and the blocks of the bounded queue,
-- and a valid ring of the same size.
abbrev pub Agrees : RingBuffer → Op → Option (Reply × RingBuffer) → Type 0
Agrees r op out =
    (reply : Reply) × (r' : RingBuffer) × (out ≡ some (reply, r'))
    × IsValid r'
    × ((reply, contents r') ≡ Queue.step r.size (contents r) op)
    × (r'.size ≡ r.size)

module _ {r : RingBuffer} (v : IsValid r) where
  kept_le : (len : ℕ) → kept len ≤ max_slot_size
  kept_le len = omega arith

  push_finite-Agrees :
      (bytes : List ℕ) (len : ℕ)
      → kept len ≤ length bytes
      → Agrees r (Op.push_finite bytes len) (step r (Op.push_finite bytes len))
  unfolding step push_finite Queue.step
  push_finite-Agrees bytes len fed = elim (ℕ_discrete r.cnt r.size) [
    | yes full ↦ ((minus_one, []), r, ground arith, v, ground (arith, length-contents v), refl)
    | no room ↦
        let (r', e, v', c, same) = store_lem v bytes (kept len) room (kept_le len) fed in
        (
          (pos (kept len), []),
          r',
          ground (arith, clamp_len-kept len),
          v',
          ground (arith, length-contents v),
          same,
        )
  ]

  push_infinite-Agrees :
      (bytes : List ℕ) (len : ℕ)
      → kept len ≤ length bytes
      → Agrees r (Op.push_infinite bytes len) (step r (Op.push_infinite bytes len))
  unfolding step push_infinite Queue.step
  push_infinite-Agrees bytes len fed = elim (ℕ_discrete r.cnt r.size) [
    | yes full ↦
        let (ve, ce, se, ne) = evict_lem v (omega (arith, size_pos v)) in
        let (r', e, v', c, same) =
          store_lem ve bytes (kept len) (omega (arith, size_pos v)) (kept_le len) fed in
        (
          (pos (kept len), []),
          r',
          ground (arith, clamp_len-kept len),
          v',
          ground (arith, length-contents v),
          same ∙ se,
        )
    | no room ↦
        let (r', e, v', c, same) = store_lem v bytes (kept len) room (kept_le len) fed in
        (
          (pos (kept len), []),
          r',
          ground (arith, clamp_len-kept len),
          v',
          ground (arith, length-contents v),
          same,
        )
  ]

  -- What `pop` takes: no more than the oldest slot holds.
  abbrev taken : ℕ → ℕ
  taken len = min len (get_or r.buf r.head zero_slot).len

  pop-Agrees : (len : ℕ) → Agrees r (Op.pop len) (step r (Op.pop len))
  unfolding step pop Queue.step
  pop-Agrees len = elim (ℕ_discrete r.cnt 0) [
    | yes none_left ↦ ((pos 0, []), r, ground arith, v, ground (arith, length-contents v), refl)
    | no some_left ↦
        let (ve, ce, se, ne) = evict_lem v (omega arith) in
        let n = (get_or r.buf r.head zero_slot).len in
        let f = (get_or r.buf r.head zero_slot).slot in
        (
          (pos (taken len), bytes_from (get_or r.buf r.head zero_slot).slot 0 (taken len)),
          evict r,
          ground (
            arith,
            get_elem?-eq-get_or r.buf r.head zero_slot,
            v.lens r.head,
            v.storage,
            v.head_in,
          ),
          ve,
          rw ce (ground (arith, length-bytes_from f 0 n, take-bytes_from f 0 (taken len) n)),
          se,
        )
  ]

  -- Every call on a valid ring, by a caller whose bytes are as long as stated, runs without fault,
  -- returns what the bounded queue of the ring's blocks returns, and leaves a valid ring of the
  -- same size that holds the queue's blocks.
  pub step_refines : (op : Op) → IsFed op → Agrees r op (step r op)
  step_refines (Op.push_infinite bytes len) fed = push_infinite-Agrees bytes len fed
  step_refines (Op.push_finite bytes len) fed = push_finite-Agrees bytes len fed
  step_refines (Op.pop len) fed = pop-Agrees len

-- No sequence of such calls tells a valid ring from the bounded queue of its blocks.
pub run_refines :
    (ops : List Op) {r : RingBuffer}
    → IsValid r
    → AllFed ops
    → run r ops ≡ some (Queue.run r.size (contents r) ops)
unfolding run Queue.run
run_refines [] v fed = refl
run_refines (op ∷ ops) {r} v fed =
    let (reply, r', e, v', agrees, same) = step_refines v op fed.0 in
    rw e (ground (arith, run_refines ops v' fed.1))
