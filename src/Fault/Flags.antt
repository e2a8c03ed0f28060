-- ===== src/Fault/Flags.antt =====
-- The flags that `do_page_fault` of kernel/page.c works with, as arithmetic.
use epos_arm.Base.{
  ℕ, zero, suc, ◌+◌, ◌*◌, ◌/◌, ◌%◌, ◌^◌, ◌<◌, ◌≡◌, refl, not, arith, ◌==◌, if◌then◌else◌, bit_or,
}
use epos_arm.Base.Bits.{bit_and-two_pow}
use epos_arm.Fault.{pte_flags}

flags_cases :
    (u w : ℕ)
    → u < 2
    → w < 2
    → (if not (w * 2 == 0) then bit_or (bit_or 1 (u * 4)) 2 else bit_or 1 (u * 4))
      ≡ 1 + 2 * w + 4 * u
flags_cases zero zero p q = refl
flags_cases zero (suc zero) p q = refl
flags_cases (suc zero) zero p q = refl
flags_cases (suc zero) (suc zero) p q = refl
flags_cases (suc (suc u)) w p q = absurd (omega arith)
flags_cases zero (suc (suc w)) p q = absurd (omega arith)
flags_cases (suc zero) (suc (suc w)) p q = absurd (omega arith)

-- A new entry is valid, writable exactly if the zone is, and the user's exactly if the access code
-- says so.
pub pte_flags_lem :
    (prot code : ℕ) → pte_flags prot code ≡ 1 + 2 * (prot / 2 % 2) + 4 * (code / 4 % 2)
unfolding pte_flags
pte_flags_lem prot code =
    rw (bit_and-two_pow 2 code, bit_and-two_pow 1 prot)
      (flags_cases (code / 2 ^ 2 % 2) (prot / 2 ^ 1 % 2) (omega arith) (omega arith))
