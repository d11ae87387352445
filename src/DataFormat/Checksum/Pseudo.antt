-- ===== src/DataFormat/Checksum/Pseudo.antt =====
-- The pseudo-header that TCP and UDP put before the segment.
use universal_system_program.Prelude.{
  ℕ, ◌+◌, ◌*◌, ◌/◌, ◌%◌, ◌^◌, ◌≤◌, ◌≡◌, ◌∙◌, ap, List, [], ◌∷◌, Bytes, get_or, Option, some, pos,
  arith,
}
use universal_system_program.DataFormat.Wire.{
  Endian, IsBytes, be16, be32, ntohl-load32, put16, be16-put16_ne,
}
use universal_system_program.DataFormat.IpHdr.{sip, dip, proto}
use universal_system_program.DataFormat.Checksum.Defs.{sum_words, sum_bytes}
use universal_system_program.DataFormat.Checksum.Sum.{words, sum_bytes-eq-total}

-- `buf[0]` to `buf[11]`
abbrev pub pseudo_header : ℕ → ℕ → ℕ → ℕ → List ℕ
pseudo_header src dst prot len =
    src / 2 ^ 24 % 256
    ∷ src / 2 ^ 16 % 256
    ∷ src / 2 ^ 8 % 256
    ∷ src % 256
    ∷ dst / 2 ^ 24 % 256
    ∷ dst / 2 ^ 16 % 256
    ∷ dst / 2 ^ 8 % 256
    ∷ dst % 256
    ∷ 0
    ∷ prot
    ∷ len / 2 ^ 8 % 256
    ∷ len % 256
    ∷ []

-- The loop over the pseudo-header of the packet's addresses and protocol.
unfoldable pub sum_pseudo : Endian → Bytes → ℕ → ℕ → ℕ → Option ℕ
sum_pseudo e m ip len ret =
    let buf = pseudo_header (sip e m ip) (dip e m ip) (proto m ip) len in
    sum_bytes (λ i. get_or buf i 0) 0 (pos 12) ret

-- The words of the pseudo-header.
abbrev pub pseudo_total : Bytes → ℕ → ℕ → ℕ
pseudo_total m ip len =
    be16 m (ip + 12)
    + be16 m (ip + 12 + 2)
    + be16 m (ip + 16)
    + be16 m (ip + 16 + 2)
    + m (ip + 9)
    + len % 2 ^ 16

-- The four bytes of an address are two words.
address_words :
    (m : Bytes) (p : ℕ)
    → IsBytes m
    → let a = be32 m p in
      (a / 2 ^ 24 % 256 * 256 + a / 2 ^ 16 % 256 ≡ be16 m p)
      × (a / 2 ^ 8 % 256 * 256 + a % 256 ≡ be16 m (p + 2))
address_words m p h =
    let next : m (p + 2 + 1) ≡ m (p + 3) = ap m (omega arith) in
    omega (arith, next, h p, h (p + 1), h (p + 2), h (p + 3))

buffer_words :
    (src dst prot len : ℕ)
    → words (λ i. get_or (pseudo_header src dst prot len) i 0) 0 6
      ≡ (src / 2 ^ 24 % 256 * 256 + src / 2 ^ 16 % 256)
        + (src / 2 ^ 8 % 256 * 256 + src % 256)
        + (dst / 2 ^ 24 % 256 * 256 + dst / 2 ^ 16 % 256)
        + (dst / 2 ^ 8 % 256 * 256 + dst % 256)
        + prot
        + (len / 2 ^ 8 % 256 * 256 + len % 256)
unfolding words
buffer_words src dst prot len = omega arith

pub pseudo_total-le : (m : Bytes) (ip len : ℕ) → IsBytes m → pseudo_total m ip len ≤ 0xFFFF * 6
pseudo_total-le m ip len h = omega (
  arith,
  h (ip + 9),
  h (ip + 12),
  h (ip + 12 + 1),
  h (ip + 12 + 2),
  h (ip + 12 + 2 + 1),
  h (ip + 16),
  h (ip + 16 + 1),
  h (ip + 16 + 2),
  h (ip + 16 + 2 + 1),
)

-- The loop over the pseudo-header adds its words.
pub sum_pseudo-eq :
    (e : Endian) (m : Bytes) (ip len : ℕ)
    → IsBytes m
    → sum_pseudo e m ip len 0 ≡ some (pseudo_total m ip len)
unfolding sum_pseudo sum_bytes sum_words
sum_pseudo-eq e m ip len h =
    let buf = λ (i : ℕ).
      get_or (pseudo_header (be32 m (ip + 12)) (be32 m (ip + 16)) (m (ip + 9)) len) i 0 in
    let v : words buf 0 6 ≡ pseudo_total m ip len = omega (
      arith,
      buffer_words (be32 m (ip + 12)) (be32 m (ip + 16)) (m (ip + 9)) len,
      address_words m (ip + 12) h,
      address_words m (ip + 16) h,
    ) in
    rw (ntohl-load32 e m (ip + 12) h, ntohl-load32 e m (ip + 16) h)
      (sum_bytes-eq-total buf 0 12 0 (omega (arith, v, pseudo_total-le m ip len h))
        ∙ ap some (omega (arith, v)))

-- A word written behind the addresses leaves the pseudo-header alone.
pub pseudo_total-put16 :
    (m : Bytes) (ip len q v : ℕ)
    → ip + 20 ≤ q
    → pseudo_total (put16 m q v) ip len ≡ pseudo_total m ip len
pseudo_total-put16 m ip len q v out =
    let prot : put16 m q v (ip + 9) ≡ m (ip + 9) = ground arith in
    omega (
      arith,
      prot,
      be16-put16_ne m q (ip + 12) v (omega arith) (omega arith) (omega arith),
      be16-put16_ne m q (ip + 12 + 2) v (omega arith) (omega arith) (omega arith),
      be16-put16_ne m q (ip + 16) v (omega arith) (omega arith) (omega arith),
      be16-put16_ne m q (ip + 16 + 2) v (omega arith) (omega arith) (omega arith),
    )
