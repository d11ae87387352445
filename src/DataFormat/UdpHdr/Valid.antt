-- ===== src/DataFormat/UdpHdr/Valid.antt =====
-- The UDP checksum: what `calc_checksum` computes is what `verify_checksum` accepts.
use universal_system_program.Prelude.{
  ℕ, ◌+◌, ◌-◌, ◌%◌, ◌^◌, ◌≤◌, ◌<◌, ◌≡◌, ◌↔◌, refl, ap, ◌∙◌, true, ◌==◌, ==_iff, le→ltb, Bytes, some,
  arith,
}
use universal_system_program.DataFormat.Wire.{
  Endian, little, big, IsBytes, be16, put16, htons, ntohs-load16, store16-eq-put16, store16-zero,
  put16-IsBytes, be16-put16, be16-put16_ne,
}
use universal_system_program.DataFormat.Checksum.Defs.{fold_carries, not32, low16}
use universal_system_program.DataFormat.Checksum.Fold.{
  fold_carries-IsFolded, fold_carries-add_not, fold_carries-eq-full, nonzero_complement-eq,
}
use universal_system_program.DataFormat.Checksum.Sum.{
  total, total-le, total-put16, total-put16_below, sum_bytes-eq-total,
}
use universal_system_program.DataFormat.Checksum.Pseudo.{
  pseudo_total, pseudo_total-le, pseudo_total-put16, sum_pseudo-eq,
}
use universal_system_program.DataFormat.UdpHdr.{
  len, set_checksum, datagram_sum, calc_checksum, verify_checksum,
}

-- The words of the pseudo-header, the header and the payload of `n` bytes in all.
abbrev pub datagram_total : Bytes → ℕ → ℕ → ℕ → ℕ
datagram_total m ip uh n = pseudo_total m ip n + total m uh 8 + total m (uh + 8) (n - 8)

module _ (e : Endian) (m : Bytes) (ip uh n : ℕ) (h : IsBytes m) where
  datagram_total-le : n < 2 ^ 16 → datagram_total m ip uh n ≤ 2 ^ 31 + 2 ^ 20
  datagram_total-le short =
      omega (arith, pseudo_total-le m ip n h, total-le m uh 8 h, total-le m (uh + 8) (n - 8) h)

  datagram_sum-eq :
      be16 m (uh + 4) ≡ n
      → 8 ≤ n
      → n < 2 ^ 16
      → datagram_sum e m ip uh ≡ some (datagram_total m ip uh n)
  unfolding datagram_sum
  datagram_sum-eq stated long short =
      let l : len e m uh ≡ n = ntohs-load16 e m (uh + 4) h ∙ stated in
      let small = datagram_total-le short in
      rw
        (
          l,
          sum_pseudo-eq e m ip n h,
          sum_bytes-eq-total m uh 8 (pseudo_total m ip n) (omega arith),
          le→ltb n 8 long,
        )
        (sum_bytes-eq-total m (uh + 8) (n - 8) (pseudo_total m ip n + total m uh 8) (omega arith))

  -- Storing a checksum moves the datagram's sum by the difference.
  datagram_total-put16 :
      (v : ℕ)
      → ip + 20 ≤ uh
      → v < 2 ^ 16
      → datagram_total (put16 m (uh + 6) v) ip uh n + be16 m (uh + 6) ≡ datagram_total m ip uh n + v
  datagram_total-put16 v behind small = omega (
    arith,
    pseudo_total-put16 m ip n (uh + 6) v (omega arith),
    total-put16 m uh 8 3 (uh + 6) v refl (omega arith) small,
    total-put16_below m (uh + 8) (n - 8) (uh + 6) v (omega arith),
  )

  len-put16 : (v : ℕ) → be16 (put16 m (uh + 6) v) (uh + 4) ≡ be16 m (uh + 4)
  len-put16 v = be16-put16_ne m (uh + 6) (uh + 4) v (omega arith) (omega arith) (omega arith)

  datagram_total_pos : 8 ≤ n → n < 2 ^ 16 → 0 < datagram_total m ip uh n
  datagram_total_pos long short = omega arith

-- The memory with the checksum cleared, and the complement that `calc_checksum` computes there.
abbrev cleared : Bytes → ℕ → Bytes
cleared m uh = put16 m (uh + 6) 0

abbrev complement : Bytes → ℕ → ℕ → ℕ → ℕ
complement m ip uh n = low16 (not32 (fold_carries (datagram_total (cleared m uh) ip uh n)))

-- A datagram that `calc_checksum` and `verify_checksum` are meant for: the UDP header lies behind
-- the 20 fixed bytes of the IPv4 header, and states a length that includes itself.
pub record IsDatagram (m : Bytes) (ip uh : ℕ) : Type 0 where
  pub bytes : IsBytes m
  pub behind : ip + 20 ≤ uh
  pub long : 8 ≤ be16 m (uh + 4)

stated-lt : (m : Bytes) (p : ℕ) → IsBytes m → be16 m p < 2 ^ 16
stated-lt m p h = omega (arith, h p, h (p + 1))

module _ (e : Endian) (m : Bytes) (ip uh n : ℕ) (h : IsBytes m) where
  calc_checksum-eq :
      be16 m (uh + 4) ≡ n
      → 8 ≤ n
      → n < 2 ^ 16
      → calc_checksum e m ip uh ≡ some (htons e (complement m ip uh n), cleared m uh)
  unfolding calc_checksum
  calc_checksum-eq stated long short =
      let h0 = put16-IsBytes m (uh + 6) 0 h in
      let f =
        fold_carries-IsFolded (datagram_total (cleared m uh) ip uh n)
          (omega (arith, datagram_total-le e (cleared m uh) ip uh n h0 short)) in
      rw (
        store16-zero e m (uh + 6),
        datagram_sum-eq e (cleared m uh) ip uh n h0 (len-put16 e m ip uh n h 0 ∙ stated) long short,
        nonzero_complement-eq (fold_carries (datagram_total (cleared m uh) ip uh n)) f.short,
      )

  verify_checksum-eq :
      be16 m (uh + 4) ≡ n
      → 8 ≤ n
      → n < 2 ^ 16
      → verify_checksum e m ip uh ≡ some (fold_carries (datagram_total m ip uh n) == 0xFFFF)
  unfolding verify_checksum
  verify_checksum-eq stated long short = rw (datagram_sum-eq e m ip uh n h stated long short)

complement-lt : (m : Bytes) (ip uh n : ℕ) → complement m ip uh n < 2 ^ 16
complement-lt m ip uh n = omega arith

-- The complement, stored, completes the sum.
datagram_total_complete :
    (e : Endian) (m : Bytes) (ip uh n : ℕ)
    → IsBytes m
    → n < 2 ^ 16
    → ip + 20 ≤ uh
    → fold_carries (datagram_total (put16 (cleared m uh) (uh + 6) (complement m ip uh n)) ip uh n)
      ≡ 0xFFFF
datagram_total_complete e m ip uh n h short behind =
    let m0 = cleared m uh in
    let h0 = put16-IsBytes m (uh + 6) 0 h in
    let c = complement m ip uh n in
    let up : datagram_total (put16 m0 (uh + 6) c) ip uh n ≡ datagram_total m0 ip uh n + c = omega (
      arith,
      datagram_total-put16 e m0 ip uh n h0 c behind (complement-lt m ip uh n),
      be16-put16 m (uh + 6) 0 (omega arith),
    ) in
    ap fold_carries up
    ∙ fold_carries-add_not (datagram_total m0 ip uh n)
        (omega (arith, datagram_total-le e m0 ip uh n h0 short))

-- For a datagram whose stated length includes its header, `calc_checksum` returns a checksum, and
-- storing it makes `verify_checksum` accept the datagram, on a host of either byte order.
pub udp_verify-calc :
    (e : Endian) {m : Bytes} {ip uh : ℕ}
    → IsDatagram m ip uh
    → (c : ℕ) × (m' : Bytes) × (calc_checksum e m ip uh ≡ some (c, m'))
      × (verify_checksum e (set_checksum e m' uh c) ip uh ≡ some true)
udp_verify-calc e {m} {ip} {uh} d =
    let h = d.bytes in
    let n = be16 m (uh + 4) in
    let short = stated-lt m (uh + 4) h in
    let m0 = cleared m uh in
    let c = complement m ip uh n in
    let h0 = put16-IsBytes m (uh + 6) 0 h in
    let lens = len-put16 e m0 ip uh n h0 c ∙ len-put16 e m ip uh n h 0 in
    (
      htons e c,
      m0,
      calc_checksum-eq e m ip uh n h refl d.long short,
      rw (store16-eq-put16 e m0 (uh + 6) c (complement-lt m ip uh n)) (
          verify_checksum-eq e (put16 m0 (uh + 6) c) ip uh n (put16-IsBytes m0 (uh + 6) c h0) lens
            d.long short
          ∙ ap some ((==_iff _ 0xFFFF).1 (datagram_total_complete e m ip uh n h short d.behind))),
    )

htons-eq-zero : (e : Endian) (v : ℕ) → v < 2 ^ 16 → (htons e v ≡ 0) ↔ (v ≡ 0)
htons-eq-zero little v h = (λ q. omega arith, λ q. omega arith)
htons-eq-zero big v h = (λ q. q, λ q. q)

-- The guard against a zero checksum never fires: `calc_checksum` returns 0, which over IPv4 says
-- that there is no checksum, exactly for the datagrams whose other words add up to a multiple of
-- 0xFFFF.
pub udp_calc-zero_iff :
    (e : Endian) {m : Bytes} {ip uh : ℕ}
    → IsDatagram m ip uh
    → (c : ℕ) × (m' : Bytes) × (calc_checksum e m ip uh ≡ some (c, m'))
      × ((c ≡ 0) ↔ (datagram_total m' ip uh (be16 m (uh + 4)) % 0xFFFF ≡ 0))
udp_calc-zero_iff e {m} {ip} {uh} d =
    let h = d.bytes in
    let n = be16 m (uh + 4) in
    let short = stated-lt m (uh + 4) h in
    let m0 = cleared m uh in
    let c = complement m ip uh n in
    let small = datagram_total-le e m0 ip uh n (put16-IsBytes m (uh + 6) 0 h) short in
    let f = fold_carries-IsFolded (datagram_total m0 ip uh n) (omega arith) in
    let full = fold_carries-eq-full (datagram_total m0 ip uh n) (omega arith) in
    let z = htons-eq-zero e c (complement-lt m ip uh n) in
    (
      htons e c,
      m0,
      calc_checksum-eq e m ip uh n h refl d.long short,
      (
        λ q. let q' = z.0 q in (full.0 (omega (arith, f.short))).1,
        λ q.
            let g =
              full.1
                (datagram_total_pos e m0 ip uh n (put16-IsBytes m (uh + 6) 0 h) d.long short, q) in
            z.1 (omega arith),
      ),
    )
