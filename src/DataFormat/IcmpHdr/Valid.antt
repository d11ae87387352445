-- ===== src/DataFormat/IcmpHdr/Valid.antt =====
-- The ICMP checksum: accepted after being computed for a short message, never for a long one.
use universal_system_program.Prelude.{
  ℕ, ◌+◌, ◌-◌, ◌*◌, ◌%◌, ◌^◌, ◌≤◌, ◌<◌, ◌≡◌, ◌≢◌, ◌⊎◌, inl, inr, refl, ap, ◌∙◌, sym, true, ◌==◌,
  ==_iff, of_some, leb, Bool-cases, Bytes, some, none, pos, negsuc, arith,
}
use universal_system_program.DataFormat.Wire.{
  Endian, IsBytes, be16, put16, htons, ntohs-load16, store16-eq-put16, store16-zero, put16-IsBytes,
  be16-put16, be16-put16_ne,
}
use universal_system_program.DataFormat.Checksum.Defs.{
  sum_bytes, sum_words, fold_carries, not32, low16, add32,
}
use universal_system_program.DataFormat.Checksum.Fold.{fold_carries-add_not, fold_carries-eq-full}
use universal_system_program.DataFormat.Checksum.Sum.{
  total, total-le, total-put16, sum_bytes-eq-total,
}
use universal_system_program.DataFormat.IpHdr.{hdr_len}
use universal_system_program.DataFormat.IcmpHdr.{
  icmp_len, set_checksum, calc_checksum, verify_checksum,
}

-- A packet with an ICMP message of `n` bytes: the message lies behind the 20 fixed bytes of the
-- IPv4 header, whose total length counts the header and the message.
pub record IsMessage (m : Bytes) (ip ic n : ℕ) : Type 0 where
  pub bytes : IsBytes m
  pub behind : ip + 20 ≤ ic
  pub counted : be16 m (ip + 2) ≡ hdr_len m ip * 4 + n

module _ (e : Endian) {m : Bytes} {ip ic n : ℕ} (g : IsMessage m ip ic n) where
  icmp_len_short : n < 2 ^ 15 → icmp_len e m ip ≡ pos n
  icmp_len_short short =
      let h = g.bytes in let c = g.counted in rw (ntohs-load16 e m (ip + 2) h) (ground arith)

  icmp_len_long : 2 ^ 15 ≤ n → icmp_len e m ip ≡ negsuc (2 ^ 16 - n - 1)
  icmp_len_long long =
      let h = g.bytes in
      let c = g.counted in
      rw (ntohs-load16 e m (ip + 2) h) (ground (arith, h (ip + 2), h (ip + 2 + 1)))

put16-IsMessage :
    {m : Bytes} {ip ic n : ℕ} (v : ℕ) → IsMessage m ip ic n → IsMessage (put16 m (ic + 2) v) ip ic n
put16-IsMessage {m} {ip} {ic} {n} v g =
    let behind = g.behind in
    let ihl : put16 m (ic + 2) v ip ≡ m ip = ground arith in
    record {
      bytes = put16-IsBytes m (ic + 2) v g.bytes;
      behind = g.behind;
      counted =
          be16-put16_ne m (ic + 2) (ip + 2) v (omega arith) (omega arith) (omega arith)
          ∙ g.counted
          ∙ ap (λ b. b % 16 * 4 + n) (sym ihl);
    }

abbrev cleared : Bytes → ℕ → Bytes
cleared m ic = put16 m (ic + 2) 0

abbrev complement : Bytes → ℕ → ℕ → ℕ
complement m ic n = low16 (not32 (fold_carries (total (cleared m ic) ic n)))

complement-lt : (m : Bytes) (ic n : ℕ) → complement m ic n < 2 ^ 16
complement-lt m ic n = omega arith

module _ (e : Endian) {m : Bytes} {ip ic n : ℕ} (g : IsMessage m ip ic n) (short : n < 2 ^ 15) where
  sum-eq-total : sum_bytes m ic (icmp_len e m ip) 0 ≡ some (total m ic n)
  sum-eq-total =
      ap (λ l. sum_bytes m ic l 0) (icmp_len_short e g short)
      ∙ sum_bytes-eq-total m ic n 0 (omega (arith, total-le m ic n g.bytes))
      ∙ ap some (omega arith)

  verify_checksum-eq : verify_checksum e m ip ic ≡ some (fold_carries (total m ic n) == 0xFFFF)
  unfolding verify_checksum
  verify_checksum-eq = rw sum-eq-total

calc_checksum-eq :
    (e : Endian) {m : Bytes} {ip ic n : ℕ}
    → IsMessage m ip ic n
    → n < 2 ^ 15
    → calc_checksum e m ip ic ≡ some (htons e (complement m ic n), cleared m ic)
unfolding calc_checksum
calc_checksum-eq e {m} {ip} {ic} {n} g short =
    rw (store16-zero e m (ic + 2), sum-eq-total e (put16-IsMessage 0 g) short)

-- For a message of 4 to 32767 bytes, `calc_checksum` returns a checksum, and storing it makes
-- `verify_checksum` accept the message, on a host of either byte order.
pub icmp_verify-calc :
    (e : Endian) {m : Bytes} {ip ic n : ℕ}
    → IsMessage m ip ic n
    → 4 ≤ n
    → n < 2 ^ 15
    → (c : ℕ) × (m' : Bytes) × (calc_checksum e m ip ic ≡ some (c, m'))
      × (verify_checksum e (set_checksum e m' ic c) ip ic ≡ some true)
icmp_verify-calc e {m} {ip} {ic} {n} g long short =
    let m0 = cleared m ic in
    let c = complement m ic n in
    let g0 = put16-IsMessage 0 g in
    let up : total (put16 m0 (ic + 2) c) ic n ≡ total m0 ic n + c = omega (
      arith,
      total-put16 m0 ic n 1 (ic + 2) c refl (omega arith) (complement-lt m ic n),
      be16-put16 m (ic + 2) 0 (omega arith),
    ) in
    (
      htons e c,
      m0,
      calc_checksum-eq e g short,
      rw (store16-eq-put16 e m0 (ic + 2) c (complement-lt m ic n)) (
          verify_checksum-eq e (put16-IsMessage c g0) short
          ∙ ap some (
              (==_iff _ 0xFFFF).1 (
                ap fold_carries up
                ∙ fold_carries-add_not (total m0 ic n)
                    (omega (arith, total-le m0 ic n g0.bytes))))),
    )

-- A sum of one high byte at most does not fold to 0xFFFF.
one_byte_never_full : (x : ℕ) → x < 256 → fold_carries (add32 0 (x * 256)) ≢ 0xFFFF
one_byte_never_full x h full =
    let g = (fold_carries-eq-full (add32 0 (x * 256)) (omega arith)).0 full in omega arith

-- For a negative length the loop makes no round: what is added is one byte at most.
sum_negative :
    (m : Bytes) (ic k : ℕ)
    → IsBytes m
    → (sum_bytes m ic (negsuc k) 0 ≡ none)
      ⊎ ((x : ℕ) × (x < 256) × (sum_bytes m ic (negsuc k) 0 ≡ some (add32 0 (x * 256))))
unfolding sum_bytes sum_words
sum_negative m ic k h = elim (Bool-cases (k % 2 == 0)) [
  | inl odd ↦ elim (Bool-cases (leb (k + 2) ic)) [
    | inl inside ↦ inr (m (ic - (k + 2)), h (ic - (k + 2)), rw (odd, inside))
    | inr outside ↦ inl (rw (odd, outside))
  ]
  | inr even ↦ inr (0, omega arith, rw even)
]

-- A message of 32768 bytes or more overflows the `int16_t` length: no checksum makes
-- `verify_checksum` accept it.
pub icmp_verify_long :
    (e : Endian) {m : Bytes} {ip ic n : ℕ}
    → IsMessage m ip ic n
    → 2 ^ 15 ≤ n
    → verify_checksum e m ip ic ≢ some true
unfolding verify_checksum
icmp_verify_long e {m} {ip} {ic} {n} g long =
    rw (icmp_len_long e g long) (elim (sum_negative m ic (2 ^ 16 - n - 1) g.bytes) [
      | inl fault ↦ rw fault (λ t. cc)
      | inr (x, byte, s) ↦ rw s (λ t. one_byte_never_full x byte ((==_iff _ 0xFFFF).0 (of_some t)))
    ])
