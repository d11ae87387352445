-- ===== src/DataFormat/TcpHdr/Valid.antt =====
-- The TCP checksum: what `calc_checksum` computes is what `verify_checksum` accepts.
use universal_system_program.Prelude.{
  ℕ, ◌+◌, ◌-◌, ◌*◌, ◌/◌, ◌%◌, ◌^◌, ◌≤◌, ◌<◌, ◌≡◌, ◌↔◌, refl, ap, ◌∙◌, true, ◌==◌, ==_iff, of_some,
  Bytes, some, arith,
}
use universal_system_program.DataFormat.Wire.{
  Endian, IsBytes, be16, put16, ntohs, htons, ntohs-load16, store16-eq-put16, store16-zero,
  ntohs-htons, put16-IsBytes, be16-put16, be16-put16_ne,
}
use universal_system_program.DataFormat.Checksum.Defs.{fold_carries, not32, low16}
use universal_system_program.DataFormat.Checksum.Fold.{
  fold_carries-IsFolded, fold_carries-add_not, fold_carries-eq-full, nonzero_complement-eq,
}
use universal_system_program.DataFormat.Checksum.Sum.{
  total, word-le-words, total-le, total-put16, total-put16_below, sum_bytes-eq-total,
}
use universal_system_program.DataFormat.Checksum.Pseudo.{
  pseudo_total, pseudo_total-le, pseudo_total-put16, sum_pseudo-eq,
}
use universal_system_program.DataFormat.IpHdr.{hdr_len}
use universal_system_program.DataFormat.TcpHdr.{
  data_offset, checksum, set_checksum, segment_sum, calc_checksum, verify_checksum,
}

-- `payload_len` by the bytes on the wire.
abbrev pub wire_payload : Bytes → ℕ → ℕ → ℕ
wire_payload m ip th = (be16 m (ip + 2) + 2 ^ 16 - hdr_len m ip * 4 - data_offset m th * 4) % 2 ^ 16

-- The words of the pseudo-header, of a header of `hdr` bytes and a payload of `pay`.
abbrev parts_total : Bytes → ℕ → ℕ → ℕ → ℕ → ℕ
parts_total m ip th hdr pay =
    pseudo_total m ip (hdr + pay) + total m th hdr + total m (th + hdr) pay

-- The words of the segment.
pub segment_total : Bytes → ℕ → ℕ → ℕ
segment_total m ip th = parts_total m ip th (data_offset m th * 4) (wire_payload m ip th)

-- A segment that the checksum functions are meant for: the TCP header lies behind the 20 fixed
-- bytes of the IPv4 header, and states a length of at least its own 20 fixed bytes.
pub record IsSegment (m : Bytes) (ip th : ℕ) : Type 0 where
  pub bytes : IsBytes m
  pub behind : ip + 20 ≤ th
  pub long : 5 ≤ data_offset m th

segment_total-le : (m : Bytes) (ip th : ℕ) → IsBytes m → segment_total m ip th ≤ 2 ^ 31 + 2 ^ 23
unfolding segment_total
segment_total-le m ip th h =
    let hdr = data_offset m th * 4 in
    let pay = wire_payload m ip th in
    omega (
      arith,
      h (th + 12),
      pseudo_total-le m ip (hdr + pay) h,
      total-le m th hdr h,
      total-le m (th + hdr) pay h,
    )

segment_sum-eq :
    (e : Endian) (m : Bytes) (ip th : ℕ)
    → IsBytes m
    → segment_sum e m ip th ≡ some (segment_total m ip th)
unfolding segment_sum segment_total
segment_sum-eq e m ip th h =
    let hdr = data_offset m th * 4 in
    let pay = wire_payload m ip th in
    let small = segment_total-le m ip th h in
    let le : parts_total m ip th hdr pay ≤ 2 ^ 31 + 2 ^ 23 = unfold segment_total in small in
    rw
      (
        ntohs-load16 e m (ip + 2) h,
        sum_pseudo-eq e m ip (hdr + pay) h,
        sum_bytes-eq-total m th hdr (pseudo_total m ip (hdr + pay)) (omega arith),
      )
      (sum_bytes-eq-total m (th + hdr) pay (pseudo_total m ip (hdr + pay) + total m th hdr)
        (omega arith))

-- Storing a checksum moves the segment's sum by the difference.
segment_total-put16 :
    (m : Bytes) (ip th v : ℕ)
    → ip + 20 ≤ th
    → 5 ≤ data_offset m th
    → v < 2 ^ 16
    → segment_total (put16 m (th + 16) v) ip th + be16 m (th + 16) ≡ segment_total m ip th + v
unfolding segment_total
segment_total-put16 m ip th v behind long small =
    let hdr = data_offset m th * 4 in
    let pay = wire_payload m ip th in
    let off : put16 m (th + 16) v (th + 12) ≡ m (th + 12) = ground arith in
    let ihl : put16 m (th + 16) v ip ≡ m ip = ground arith in
    let len = be16-put16_ne m (th + 16) (ip + 2) v (omega arith) (omega arith) (omega arith) in
    rw (off, ihl, len)
      (omega (
        arith,
        pseudo_total-put16 m ip (hdr + pay) (th + 16) v (omega arith),
        total-put16 m th hdr 8 (th + 16) v refl (omega arith) small,
        total-put16_below m (th + hdr) pay (th + 16) v (omega arith),
      ))

-- The memory with the checksum cleared, and the complement that `calc_checksum` computes there.
abbrev cleared : Bytes → ℕ → Bytes
cleared m th = put16 m (th + 16) 0

abbrev complement : Bytes → ℕ → ℕ → ℕ
complement m ip th = low16 (not32 (fold_carries (segment_total (cleared m th) ip th)))

complement-lt : (m : Bytes) (ip th : ℕ) → complement m ip th < 2 ^ 16
complement-lt m ip th = omega arith

cleared-IsBytes : (m : Bytes) (th : ℕ) → IsBytes m → IsBytes (cleared m th)
cleared-IsBytes m th h = put16-IsBytes m (th + 16) 0 h

calc_checksum-eq :
    (e : Endian) (m : Bytes) (ip th : ℕ)
    → IsBytes m
    → calc_checksum e m ip th ≡ some (htons e (complement m ip th), cleared m th)
unfolding calc_checksum
calc_checksum-eq e m ip th h =
    let h0 = cleared-IsBytes m th h in
    let f =
      fold_carries-IsFolded (segment_total (cleared m th) ip th)
        (omega (arith, segment_total-le (cleared m th) ip th h0)) in
    rw (
      store16-zero e m (th + 16),
      segment_sum-eq e (cleared m th) ip th h0,
      nonzero_complement-eq (fold_carries (segment_total (cleared m th) ip th)) f.short,
    )

verify_checksum-eq :
    (e : Endian) (m : Bytes) (ip th : ℕ)
    → IsBytes m
    → verify_checksum e m ip th ≡ some (fold_carries (segment_total m ip th) == 0xFFFF)
unfolding verify_checksum
verify_checksum-eq e m ip th h = rw (segment_sum-eq e m ip th h)

-- The whole sum is that of the cleared segment and the field.
segment_total_split :
    {m : Bytes} {ip th : ℕ}
    → IsSegment m ip th
    → segment_total m ip th ≡ segment_total (cleared m th) ip th + be16 m (th + 16)
segment_total_split {m} {ip} {th} s =
    omega (arith, segment_total-put16 m ip th 0 s.behind s.long (omega arith))

-- A header that states its length is not all zero.
segment_total_pos :
    {m : Bytes} {ip th : ℕ} → IsSegment m ip th → 0 < segment_total (cleared m th) ip th
unfolding segment_total
segment_total_pos {m} {ip} {th} s =
    let same : cleared m th (th + 12) ≡ m (th + 12) = ground arith in
    let long = s.long in
    omega (
      arith,
      word-le-words (cleared m th) th (data_offset (cleared m th) th * 4 / 2) 6 (th + 12) refl
          (omega arith),
    )

-- For a TCP header of at least 20 bytes behind the IPv4 header, `calc_checksum` returns a
-- checksum, and storing it makes `verify_checksum` accept the segment, on a host of either byte
-- order.
pub tcp_verify-calc :
    (e : Endian) {m : Bytes} {ip th : ℕ}
    → IsSegment m ip th
    → (c : ℕ) × (m' : Bytes) × (calc_checksum e m ip th ≡ some (c, m'))
      × (verify_checksum e (set_checksum e m' th c) ip th ≡ some true)
tcp_verify-calc e {m} {ip} {th} s =
    let m0 = cleared m th in
    let c = complement m ip th in
    let h0 = cleared-IsBytes m th s.bytes in
    let long = s.long in
    let same : cleared m th (th + 12) ≡ m (th + 12) = ground arith in
    let up : segment_total (put16 m0 (th + 16) c) ip th ≡ segment_total m0 ip th + c = omega (
      arith,
      segment_total-put16 m0 ip th c s.behind (omega arith) (complement-lt m ip th),
      be16-put16 m (th + 16) 0 (omega arith),
    ) in
    (
      htons e c,
      m0,
      calc_checksum-eq e m ip th s.bytes,
      rw (store16-eq-put16 e m0 (th + 16) c (complement-lt m ip th)) (
          verify_checksum-eq e (put16 m0 (th + 16) c) ip th (put16-IsBytes m0 (th + 16) c h0)
          ∙ ap some (
              (==_iff _ 0xFFFF).1 (
                ap fold_carries up
                ∙ fold_carries-add_not (segment_total m0 ip th)
                    (omega (arith, segment_total-le m0 ip th h0))))),
    )

-- `verify_checksum` accepts such a segment exactly when its checksum field is, modulo 65535, the
-- one that `calc_checksum` computes for it.
pub tcp_verify_iff :
    (e : Endian) {m : Bytes} {ip th : ℕ}
    → IsSegment m ip th
    → (c : ℕ) × (m' : Bytes) × (calc_checksum e m ip th ≡ some (c, m'))
      × ((verify_checksum e m ip th ≡ some true) ↔ (checksum e m th % 0xFFFF ≡ ntohs e c % 0xFFFF))
tcp_verify_iff e {m} {ip} {th} s =
    let h = s.bytes in
    let h0 = cleared-IsBytes m th h in
    let small = segment_total-le m ip th h in
    let f =
      fold_carries-IsFolded (segment_total (cleared m th) ip th)
        (omega (arith, segment_total-le (cleared m th) ip th h0)) in
    let full = fold_carries-eq-full (segment_total m ip th) (omega arith) in
    let split = segment_total_split s in
    (
      htons e (complement m ip th),
      cleared m th,
      calc_checksum-eq e m ip th h,
      rw
          (
            verify_checksum-eq e m ip th h,
            ntohs-load16 e m (th + 16) h,
            ntohs-htons e (complement m ip th) (complement-lt m ip th),
          )
          (
            λ t.
                let g = full.0 ((==_iff _ 0xFFFF).0 (of_some t)) in
                omega (arith, g.1, f.short, f.same),
            λ t. ap some (
                (==_iff _ 0xFFFF).1
                  (full.1 (omega (arith, segment_total_pos s), omega (arith, f.short, f.same)))),
          ),
    )
