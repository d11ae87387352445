-- ===== src/DataFormat/Checksum/Defs.antt =====
-- The loops that the `calc_checksum` and `verify_checksum` functions share.
use mathlib.Core.Logic.{dite}
use mathlib.Core.WellFounded.{Acc}
use universal_system_program.Prelude.{
  ℕ, zero, suc, ◌+◌, ◌-◌, ◌*◌, ◌/◌, ◌%◌, ◌^◌, ◌<◌, Bool, Option, none, some, Bytes, if◌then◌else◌,
  ◌==◌, leb, ℤ, pos, negsuc, arith, dec_lt, lt_wf,
}
use universal_system_program.Prelude.Monad.{◌>>=◌}
use universal_system_program.DataFormat.Wire.{be16}

-- `ret += word;` in a `uint32_t`
abbrev pub add32 : ℕ → ℕ → ℕ
add32 a b = (a + b) % 2 ^ 32

-- The first `n` words from `p` on, added to `ret`.
unfoldable pub sum_words : Bytes → ℕ → ℕ → ℕ → ℕ
sum_words m p zero ret = ret
sum_words m p (suc n) ret = sum_words m (p + 2) n (add32 ret (be16 m p))

-- The rounds of `for (int i = 0; i < len - 1; i += 2)`, for an `int` len.
abbrev pub rounds : ℤ → ℕ
rounds (pos n) = n / 2
rounds (negsuc n) = 0

-- `len & 1`
abbrev pub is_odd : ℤ → Bool
is_odd (pos n) = n % 2 == 1
is_odd (negsuc n) = n % 2 == 0

-- The address of `p[len - 1]`, for an odd `len`; `none` lies before the packet.
abbrev pub last_index : ℕ → ℤ → Option ℕ
last_index p (pos n) = some (p + n - 1)
last_index p (negsuc n) = if leb (n + 2) p then some (p - (n + 2)) else none

-- The words of the `len` bytes from `p` on; an odd last byte counts as a high byte.
unfoldable pub sum_bytes : Bytes → ℕ → ℤ → ℕ → Option ℕ
sum_bytes m p len ret =
    let ret' = sum_words m p (rounds len) ret in
    if is_odd len then (do i ← last_index p len; some (add32 ret' (m i * 256))) else some ret'

-- `while (ret >> 16) ret = (ret & 0xFFFF) + (ret >> 16);`
unfoldable pub fold_acc : (ret : ℕ) → Acc ◌<◌ ret → ℕ
fold_acc ret (Acc.intro _ smaller) =
    dite (dec_lt 0 (ret / 2 ^ 16))
      (λ h.
        fold_acc (add32 (ret % 2 ^ 16) (ret / 2 ^ 16))
          (smaller (add32 (ret % 2 ^ 16) (ret / 2 ^ 16)) (omega arith)))
      (λ _. ret)

unfoldable pub fold_carries : ℕ → ℕ
unfolding fold_acc lt_wf dec_lt
fold_carries ret = fold_acc ret (lt_wf.apply ret)

-- `~ret` in a `uint32_t`, and `static_cast<uint16_t>` of it
abbrev pub not32 : ℕ → ℕ
not32 ret = 2 ^ 32 - 1 - ret

abbrev pub low16 : ℕ → ℕ
low16 x = x % 2 ^ 16

-- `(~ret) ? static_cast<uint16_t>(~ret) : 0xFFFF`
abbrev pub nonzero_complement : ℕ → ℕ
nonzero_complement ret = if not32 ret == 0 then 0xFFFF else low16 (not32 ret)
