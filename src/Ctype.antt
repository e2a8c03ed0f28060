-- ===== src/Ctype.antt =====
-- include/ctype.h: the classes of characters. A character is an `int`; the constants are those of ASCII.
pub mod Classes
use epos_arm.Base.{ℕ, ◌+◌, ◌-◌, Bool, true, false, not, ◌&&◌, ◌||◌, leb, ltb, if◌then◌else◌}
use epos_arm.Base.Word.{ℤ, pos, negsuc}

-- `c >= n` and `c <= n`.
unfoldable pub at_least : ℕ → ℤ → Bool
at_least n (pos m) = leb n m
at_least n (negsuc m) = false

unfoldable pub at_most : ℕ → ℤ → Bool
at_most n (pos m) = leb m n
at_most n (negsuc m) = true

-- `c > n` and `c < n`.
unfoldable pub above : ℕ → ℤ → Bool
above n (pos m) = ltb n m
above n (negsuc m) = false

unfoldable pub below : ℕ → ℤ → Bool
below n (pos m) = ltb m n
below n (negsuc m) = true

unfoldable pub equals : ℕ → ℤ → Bool
unfolding at_least at_most
equals n c = at_least n c && at_most n c

unfoldable pub islower : ℤ → Bool
islower c = at_least 0x61 c && at_most 0x7A c

unfoldable pub isupper : ℤ → Bool
isupper c = at_least 0x41 c && at_most 0x5A c

unfoldable pub isalpha : ℤ → Bool
isalpha c = islower c || isupper c

unfoldable pub isdigit : ℤ → Bool
isdigit c = at_least 0x30 c && at_most 0x39 c

unfoldable pub isalnum : ℤ → Bool
isalnum c = isalpha c || isdigit c

unfoldable pub isxdigit : ℤ → Bool
isxdigit c = isdigit c || at_least 0x61 c && at_most 0x66 c || at_least 0x41 c && at_most 0x46 c

unfoldable pub isspace : ℤ → Bool
isspace c =
    equals 0x20 c
    || equals 0x0C c
    || equals 0x0A c
    || equals 0x0D c
    || equals 0x09 c
    || equals 0x0B c

unfoldable pub isblank : ℤ → Bool
isblank c = equals 0x20 c || equals 0x09 c

unfoldable pub isgraph : ℤ → Bool
isgraph c = above 32 c && below 127 c

unfoldable pub isprint : ℤ → Bool
isprint c = at_least 32 c && below 127 c

unfoldable pub iscntrl : ℤ → Bool
iscntrl c = at_least 0 c && below 32 c || equals 127 c

unfoldable pub isascii : ℤ → Bool
isascii c = at_least 0 c && below 128 c

unfoldable pub ispunct : ℤ → Bool
ispunct c = isprint c && not (isalnum c) && not (isspace c)

-- `c - 'A' + 'a'` and `c - 'a' + 'A'`, of a letter.
unfoldable pub tolower : ℤ → ℤ
tolower (pos m) = if isupper (pos m) then pos (m - 0x41 + 0x61) else pos m
tolower (negsuc m) = negsuc m

unfoldable pub toupper : ℤ → ℤ
toupper (pos m) = if islower (pos m) then pos (m - 0x61 + 0x41) else pos m
toupper (negsuc m) = negsuc m
