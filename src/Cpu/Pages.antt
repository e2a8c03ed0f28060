-- ===== src/Cpu/Pages.antt =====
-- The page macros of kernel/cpu.h as arithmetic.
use epos_arm.Base.{ℕ, ◌+◌, ◌-◌, ◌*◌, ◌/◌, ◌%◌, ◌^◌, ◌≤◌, ◌<◌, ◌≡◌, arith, ap, ◌∙◌, bit_and, bit_or}
use epos_arm.Base.Bits.{bit_or_fields, bit_and_mask, bit_and_shift}
use epos_arm.Base.Word.{u32}
use epos_arm.Cpu.{page_size, page_mask, page_roundup}

-- A word with its page offset masked off.
pub frame_bits : (a : ℕ) → a < 2 ^ 32 → bit_and a 0xffff_f000 ≡ a / 4096 * 4096
frame_bits a h =
    bit_and_shift 12 a (2 ^ 20 - 1)
    ∙ ap (λ (t : ℕ). t * 2 ^ 12) (bit_and_mask 20 (a / 2 ^ 12))
    ∙ omega arith

pub offset_bits : (a : ℕ) → bit_and a page_mask ≡ a % 4096
offset_bits a = bit_and_mask 12 a

-- Flags or an offset joined to an aligned address.
pub or_aligned : (a f : ℕ) → a % page_size ≡ 0 → f < page_size → bit_or a f ≡ a + f
or_aligned a f aligned small = ground (arith, bit_or_fields 12 (a / 4096) f)

-- PAGE_ROUNDUP yields a multiple of 16 KiB that is above its argument, also above one that is such a
-- multiple already, by 16 KiB at most.
pub page_roundup_bounds :
    (x : ℕ)
    → x + 2 ^ 14 < 2 ^ 32
    → (page_roundup x % 2 ^ 14 ≡ 0) × (x < page_roundup x) × (page_roundup x ≤ x + 2 ^ 14)
unfolding page_roundup
page_roundup_bounds x h = omega (arith, lem)
  where
    lem : bit_and (u32 (x + 1 * 2 ^ 14)) 0xffff_c000 ≡ (x + 2 ^ 14) / 2 ^ 14 * 2 ^ 14
    lem =
        bit_and_shift 14 (u32 (x + 1 * 2 ^ 14)) (2 ^ 18 - 1)
        ∙ ap (λ (t : ℕ). t * 2 ^ 14) (bit_and_mask 18 (u32 (x + 1 * 2 ^ 14) / 2 ^ 14))
        ∙ omega arith
