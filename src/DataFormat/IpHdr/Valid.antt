-- ===== src/DataFormat/IpHdr/Valid.antt =====
-- The IPv4 checksum: what `calc_checksum` computes is what `verify_checksum` accepts.
use universal_system_program.Prelude.{
  ℕ, zero, suc, ◌+◌, ◌*◌, ◌/◌, ◌%◌, ◌^◌, ◌≤◌, ◌<◌, ◌≡◌, ◌↔◌, refl, ap, ◌∙◌, true, ◌==◌, ==_iff,
  Bytes, arith,
}
use universal_system_program.DataFormat.Wire.{
  Endian, IsBytes, be16, put16, ntohs, htons, ntohs-load16, store16-eq-put16, store16-zero,
  ntohs-htons, put16-IsBytes, be16-put16,
}
use universal_system_program.DataFormat.Checksum.Defs.{add32, fold_carries, not32, low16, sum_words}
use universal_system_program.DataFormat.Checksum.Fold.{
  fold_carries-IsFolded, fold_carries-add_not, fold_carries-eq-full,
}
use universal_system_program.DataFormat.Checksum.Sum.{
  words, words-le, be16-le-words, words-put16, sum_words-eq-words,
}
use universal_system_program.DataFormat.IpHdr.{
  hdr_len, sum_fields, set_checksum, calc_checksum, verify_checksum, checksum,
}

sum_fields-eq-sum_words :
    (e : Endian) (m : Bytes) (p n ret : ℕ)
    → IsBytes m
    → sum_fields e m p n ret ≡ sum_words m p n ret
unfolding sum_fields sum_words
sum_fields-eq-sum_words e m p zero ret h = refl
sum_fields-eq-sum_words e m p (suc n) ret h =
    rw (ntohs-load16 e m p h) (sum_fields-eq-sum_words e m (p + 2) n (add32 ret (be16 m p)) h)

-- The sum of the header's words.
abbrev header_sum : Bytes → ℕ → ℕ
header_sum m ip = words m ip (hdr_len m ip * 4 / 2)

header_sum-le : (m : Bytes) (ip : ℕ) → IsBytes m → header_sum m ip ≤ 0xFFFF * 30
header_sum-le m ip h = omega (arith, words-le m ip (hdr_len m ip * 4 / 2) h)

sum_fields-eq-header_sum :
    (e : Endian) (m : Bytes) (ip : ℕ)
    → IsBytes m
    → sum_fields e m ip (hdr_len m ip * 4 / 2) 0 ≡ header_sum m ip
sum_fields-eq-header_sum e m ip h =
    sum_fields-eq-sum_words e m ip (hdr_len m ip * 4 / 2) 0 h
    ∙ sum_words-eq-words m ip (hdr_len m ip * 4 / 2) 0 (omega (arith, header_sum-le m ip h))
    ∙ omega arith

-- Storing a checksum moves the header's sum by the difference.
header_sum-put16 :
    (m : Bytes) (ip v : ℕ)
    → 3 ≤ hdr_len m ip
    → v < 2 ^ 16
    → header_sum (put16 m (ip + 10) v) ip + be16 m (ip + 10) ≡ header_sum m ip + v
header_sum-put16 m ip v long h =
    let same : put16 m (ip + 10) v ip ≡ m ip = ground arith in
    rw same (words-put16 m ip (hdr_len m ip * 4 / 2) 5 (ip + 10) v (omega arith) (omega arith) h)

verify_checksum-eq :
    (e : Endian) (m : Bytes) (ip : ℕ)
    → IsBytes m
    → verify_checksum e m ip ≡ (fold_carries (header_sum m ip) == 0xFFFF)
unfolding verify_checksum
verify_checksum-eq e m ip h = ap (λ s. fold_carries s == 0xFFFF) (sum_fields-eq-header_sum e m ip h)

-- The memory that `calc_checksum` leaves, and the number that it returns in network order.
abbrev cleared : Bytes → ℕ → Bytes
cleared m ip = put16 m (ip + 10) 0

abbrev complement : Bytes → ℕ → ℕ
complement m ip = low16 (not32 (fold_carries (header_sum (cleared m ip) ip)))

calc_checksum-eq :
    (e : Endian) (m : Bytes) (ip : ℕ)
    → IsBytes m
    → calc_checksum e m ip ≡ (htons e (complement m ip), cleared m ip)
unfolding calc_checksum
calc_checksum-eq e m ip h = rw store16-zero (
    ap (λ s. (htons e (low16 (not32 (fold_carries s))), cleared m ip))
      (sum_fields-eq-header_sum e (cleared m ip) ip (put16-IsBytes m (ip + 10) 0 h)))

complement-lt : (m : Bytes) (ip : ℕ) → complement m ip < 2 ^ 16
complement-lt m ip = omega arith

-- The whole sum is that of the cleared header and the field.
header_sum_split :
    (m : Bytes) (ip : ℕ)
    → IsBytes m
    → 3 ≤ hdr_len m ip
    → header_sum m ip ≡ header_sum (cleared m ip) ip + be16 m (ip + 10)
header_sum_split m ip h long = omega (arith, header_sum-put16 m ip 0 long (omega arith))

-- Storing the result of `calc_checksum` in a header of at least 12 bytes makes
-- `verify_checksum` accept it, on a host of either byte order.
pub ip_verify-calc :
    (e : Endian) (m : Bytes) (ip : ℕ)
    → IsBytes m
    → 3 ≤ hdr_len m ip
    → let (c, m') = calc_checksum e m ip in verify_checksum e (set_checksum e m' ip c) ip ≡ true
ip_verify-calc e m ip h long =
    let m0 = cleared m ip in
    let c = complement m ip in
    let h0 = put16-IsBytes m (ip + 10) 0 h in
    let same : hdr_len m0 ip ≡ hdr_len m ip = ground arith in
    let up : header_sum (put16 m0 (ip + 10) c) ip ≡ header_sum m0 ip + c = omega (
      arith,
      header_sum-put16 m0 ip c (omega arith) (complement-lt m ip),
      be16-put16 m (ip + 10) 0 (omega arith),
    ) in
    rw (calc_checksum-eq e m ip h, store16-eq-put16 e m0 (ip + 10) c (complement-lt m ip))
      (verify_checksum-eq e (put16 m0 (ip + 10) c) ip (put16-IsBytes m0 (ip + 10) c h0)
        ∙ (==_iff _ 0xFFFF).1 (
            ap fold_carries up
            ∙ fold_carries-add_not (header_sum m0 ip) (omega (arith, header_sum-le m0 ip h0))))

-- A header with a length is not all zero.
header_sum_pos : (m : Bytes) (ip : ℕ) → 3 ≤ hdr_len m ip → 0 < header_sum (cleared m ip) ip
header_sum_pos m ip long =
    let same : cleared m ip ip ≡ m ip = ground arith in
    omega (arith, be16-le-words (cleared m ip) ip (hdr_len (cleared m ip) ip * 4 / 2) (omega arith))

-- `verify_checksum` accepts a header of at least 12 bytes exactly when its checksum field is,
-- modulo 65535, the one that `calc_checksum` computes for it.
pub ip_verify_iff :
    (e : Endian) (m : Bytes) (ip : ℕ)
    → IsBytes m
    → 3 ≤ hdr_len m ip
    → (verify_checksum e m ip ≡ true)
      ↔ (checksum e m ip % 0xFFFF ≡ ntohs e (calc_checksum e m ip).0 % 0xFFFF)
ip_verify_iff e m ip h long =
    let h0 = put16-IsBytes m (ip + 10) 0 h in
    let f =
      fold_carries-IsFolded (header_sum (cleared m ip) ip)
        (omega (arith, header_sum-le (cleared m ip) ip h0)) in
    let full = fold_carries-eq-full (header_sum m ip) (omega (arith, header_sum-le m ip h)) in
    rw
      (
        verify_checksum-eq e m ip h,
        ntohs-load16 e m (ip + 10) h,
        calc_checksum-eq e m ip h,
        ntohs-htons e (complement m ip) (complement-lt m ip),
      )
      (
        λ t.
            let g = full.0 ((==_iff _ 0xFFFF).0 t) in
            omega (arith, g.1, header_sum_split m ip h long, f.short, f.same),
        λ t. (==_iff _ 0xFFFF).1 (
            full.1 (
              omega (arith, header_sum_pos m ip long, header_sum_split m ip h long),
              omega (arith, header_sum_split m ip h long, f.short, f.same),
            )),
      )
