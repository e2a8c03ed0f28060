-- ===== src/Bitmap/Groups.antt =====
-- `bitmap_contains`, `bitmap_any`, `bitmap_none`, `bitmap_all` and `bitmap_count` of kernel/bitmap.c
-- against the bits that lie in the range.
use epos_arm.Base.{
  ℕ, zero, suc, ◌+◌, ◌<◌, ◌≤◌, ◌≡◌, refl, ap, ◌↔◌, ◌⊎◌, inl, inr, Bool, true, false, not, arith,
  if◌then◌else◌, same,
}
use epos_arm.Base.Word.{u32}
use epos_arm.Bitmap.{
  Bitmap, contains_loop, bitmap_contains, bitmap_any, bitmap_none, bitmap_all, count_loop,
  bitmap_count,
}
use epos_arm.Bitmap.Test.{bit_at, bitmap_test-bit_at}

-- The `cnt` bits from `start` on are all `value`.
abbrev pub IsGroup : Bitmap → (start cnt : ℕ) → Bool → Type 0
IsGroup b start cnt value = (k : ℕ) → k < cnt → bit_at b (u32 (start + k)) ≡ value

-- Among the `cnt` bits from `start` on there is one that is `value`.
abbrev pub Contains : Bitmap → (start cnt : ℕ) → Bool → Type 0
Contains b start cnt value = (k : ℕ) × (k < cnt) × (bit_at b (u32 (start + k)) ≡ value)

same_lem : (a b : Bool) → ((same a b ≡ true) × (a ≡ b)) ⊎ ((same a b ≡ false) × (a ≡ not b))
same_lem true true = inl (refl, refl)
same_lem true false = inr (refl, refl)
same_lem false true = inr (refl, refl)
same_lem false false = inl (refl, refl)

module _ (b : Bitmap) (start : ℕ) (value : Bool) where
  -- The two outcomes of the loop of `bitmap_contains` over the indices from `i` on.
  Outcome : (i left : ℕ) → Bool → Type 0
  Outcome i left r =
      ((r ≡ true) × ((k : ℕ) × (i ≤ k) × (k < i + left) × (bit_at b (u32 (start + k)) ≡ value)))
      ⊎ ((r ≡ false) × ((k : ℕ) → i ≤ k → k < i + left → bit_at b (u32 (start + k)) ≡ not value))

  contains_loop-Outcome : (i left : ℕ) → Outcome i left (contains_loop b start value i left)
  unfolding contains_loop Outcome
  contains_loop-Outcome i zero = inr (refl, λ k p q. absurd (omega arith))
  contains_loop-Outcome i (suc left) =
      rw bitmap_test-bit_at (elim (same_lem (bit_at b (u32 (start + i))) value) [
        | inl (e, h) ↦ rw e (inl (refl, (i, omega arith, omega arith, h)))
        | inr (e, h) ↦ rw e (later h (contains_loop-Outcome (i + 1) left))
      ])
    where
      later :
          {r : Bool}
          → bit_at b (u32 (start + i)) ≡ not value
          → Outcome (i + 1) left r
          → Outcome i (suc left) r
      later h (inl (r, (k, p, q, h'))) = inl (r, (k, omega arith, omega arith, h'))
      later h (inr (r, f)) = inr (r, λ k p q. ground (arith, f k))

  either_value :
      (cnt : ℕ)
      → ((bitmap_contains b start cnt value ≡ true) × Contains b start cnt value)
        ⊎ ((bitmap_contains b start cnt value ≡ false) × IsGroup b start cnt (not value))
  unfolding bitmap_contains Outcome
  either_value cnt = elim (contains_loop-Outcome 0 cnt) [
    | inl (r, (k, p, q, h)) ↦ inl (r, (k, omega arith, h))
    | inr (r, f) ↦ inr (r, λ k q. f k (omega arith) (omega arith))
  ]

-- A range either has a bit of the value or is a group of the other value, not both.
not-Contains :
    (b : Bitmap) (start cnt : ℕ) (value : Bool)
    → IsGroup b start cnt (not value)
    → ¬ Contains b start cnt value
not-Contains b start cnt true g (k, h, e) = ground (arith, g k)
not-Contains b start cnt false g (k, h, e) = ground (arith, g k)

-- `bitmap_contains` is true exactly when one of the `cnt` bits from `start` on is `value`, and false
-- exactly when all of them are the other value.
pub bitmap_contains_iff :
    (b : Bitmap) (start cnt : ℕ) (value : Bool)
    → ((bitmap_contains b start cnt value ≡ true) ↔ Contains b start cnt value)
      × ((bitmap_contains b start cnt value ≡ false) ↔ IsGroup b start cnt (not value))
bitmap_contains_iff b start cnt value = elim (either_value b start value cnt) [
  | inl (r, c) ↦ ((λ _. c, λ _. r), (λ f. cc, λ g. absurd (not-Contains b start cnt value g c)))
  | inr (r, g) ↦ ((λ t. cc, λ c. absurd (not-Contains b start cnt value g c)), (λ _. g, λ _. r))
]

-- `bitmap_all` is true exactly when every bit of the range is set, `bitmap_none` exactly when none
-- is, and `bitmap_any` is the negation of `bitmap_none`.
pub bitmap_all_iff :
    (b : Bitmap) (start cnt : ℕ)
    → ((bitmap_all b start cnt ≡ true) ↔ IsGroup b start cnt true)
      × ((bitmap_none b start cnt ≡ true) ↔ IsGroup b start cnt false)
      × (bitmap_any b start cnt ≡ not (bitmap_none b start cnt))
unfolding bitmap_all bitmap_none bitmap_any
bitmap_all_iff b start cnt = (
  (λ e. clear.0 (ground arith), λ g. ap not (clear.1 g)),
  (λ e. set.0 (ground arith), λ g. ap not (set.1 g)),
  ground arith,
)
  where
    clear : (bitmap_contains b start cnt false ≡ false) ↔ IsGroup b start cnt true
    clear = (bitmap_contains_iff b start cnt false).1

    set : (bitmap_contains b start cnt true ≡ false) ↔ IsGroup b start cnt false
    set = (bitmap_contains_iff b start cnt true).1

module _ (b : Bitmap) (start : ℕ) where
  -- How many of the bits with index from `i` to `i + left` are `value`.
  number : Bool → (i left : ℕ) → ℕ
  number value i zero = 0
  number value i (suc left) =
      (if same (bit_at b (u32 (start + i))) value then 1 else 0) + number value (i + 1) left

  count_loop-number :
      (value : Bool) (i left value_cnt : ℕ)
      → count_loop b start value i left value_cnt ≡ value_cnt + number value i left
  unfolding count_loop number
  count_loop-number value i zero value_cnt = omega arith
  count_loop-number value i (suc left) value_cnt = rw bitmap_test-bit_at (
      ground (
        arith,
        count_loop-number value (i + 1) left value_cnt,
        count_loop-number value (i + 1) left (value_cnt + 1),
      ))

  number-both : (i left : ℕ) → number true i left + number false i left ≡ left
  unfolding number
  number-both i zero = refl
  number-both i (suc left) = ground (arith, number-both (i + 1) left)

  number-zero :
      (value : Bool) (i left k : ℕ)
      → number value i left ≡ 0
      → i ≤ k
      → k < i + left
      → bit_at b (u32 (start + k)) ≡ not value
  unfolding number
  number-zero value i zero k e p q = absurd (omega arith)
  number-zero true i (suc left) k e p q = ground (arith, number-zero true (i + 1) left k)
  number-zero false i (suc left) k e p q = ground (arith, number-zero false (i + 1) left k)

  number-all :
      (value : Bool) (i left : ℕ)
      → ((k : ℕ) → i ≤ k → k < i + left → bit_at b (u32 (start + k)) ≡ not value)
      → number value i left ≡ 0
  unfolding number
  number-all value i zero f = refl
  number-all true i (suc left) f =
      ground (arith, f i, number-all true (i + 1) left (λ k p q. f k (omega arith) (omega arith)))
  number-all false i (suc left) f =
      ground (arith, f i, number-all false (i + 1) left (λ k p q. f k (omega arith) (omega arith)))

-- The set and the clear bits of a range add up to its length, and the count of one value is 0
-- exactly when all bits of the range are the other.
pub bitmap_count_lem :
    (b : Bitmap) (start cnt : ℕ) (value : Bool)
    → (bitmap_count b start cnt true + bitmap_count b start cnt false ≡ cnt)
      × ((bitmap_count b start cnt value ≡ 0) ↔ IsGroup b start cnt (not value))
unfolding bitmap_count
bitmap_count_lem b start cnt value = (
  omega (
    arith,
    count_loop-number b start true 0 cnt 0,
    count_loop-number b start false 0 cnt 0,
    number-both b start 0 cnt,
  ),
  (
    λ e k h.
        number-zero b start value 0 cnt k (omega (arith, count_loop-number b start value 0 cnt 0))
          (omega arith) (omega arith),
    λ g. omega (
      arith,
      count_loop-number b start value 0 cnt 0,
      number-all b start value 0 cnt (λ k p q. g k (omega arith)),
    ),
  ),
)
