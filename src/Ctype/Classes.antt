-- ===== src/Ctype/Classes.antt =====
-- How the classes of include/ctype.h divide the characters.
use epos_arm.Base.{◌≡◌, refl, false, not, ◌&&◌, ◌||◌, arith}
use epos_arm.Base.Word.{ℤ, pos, negsuc}
use epos_arm.Ctype.{
  at_least, at_most, above, below, equals, islower, isupper, isalpha, isdigit, isalnum, isxdigit,
  isspace, isprint, iscntrl, isascii, ispunct, tolower, toupper,
}

-- Each character of ASCII is of one of four classes and no other character is of any: the control characters, the
-- space, the letters and digits, and the punctuation; no letter is a digit, none is both small and
-- capital, and the hexadecimal digits are letters and digits.
isascii-isalnum :
    (c : ℤ)
    → (isascii c ≡ (iscntrl c || equals 0x20 c || isalnum c || ispunct c))
      × (iscntrl c && (equals 0x20 c || isalnum c || ispunct c) ≡ false)
      × (equals 0x20 c && (isalnum c || ispunct c) ≡ false)
      × (isalnum c && ispunct c ≡ false)
      × (isalpha c && isdigit c ≡ false)
      × (islower c && isupper c ≡ false)
      × (isxdigit c && not (isalnum c) ≡ false)
unfolding at_least at_most above below equals islower isupper isalpha isdigit isalnum isxdigit
    isspace isprint iscntrl isascii ispunct
isascii-isalnum (pos m) = (
  ground arith,
  ground arith,
  ground arith,
  ground arith,
  ground arith,
  ground arith,
  ground arith,
)
isascii-isalnum (negsuc m) = (refl, refl, refl, refl, refl, refl, refl)

-- The functions that change the case of letters: the class of a result, the two in sequence, and what they leave.
islower-tolower :
    (c : ℤ)
    → (islower (tolower c) ≡ isalpha c)
      × (isupper (toupper c) ≡ isalpha c)
      × (toupper (tolower c) ≡ toupper c)
      × (tolower (toupper c) ≡ tolower c)
      × (isalpha c ≡ false → (tolower c ≡ c) × (toupper c ≡ c))
unfolding at_least at_most islower isupper isalpha tolower toupper
islower-tolower (pos m) =
    (ground arith, ground arith, ground arith, ground arith, λ h. (ground arith, ground arith))
islower-tolower (negsuc m) = (refl, refl, refl, refl, λ h. (refl, refl))
