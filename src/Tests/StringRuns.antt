-- ===== src/Tests/StringRuns.antt =====
-- lib/string.c with the strings "abc" at 100 and "de" at 200.
use epos_arm.Base.{
  ◌⊎◌, ◌⊎◌, ℕ, ◌+◌, ◌-◌, ◌≡◌, refl, some, arith, ltb, leb, ◌==◌, ◌&&◌, if◌then◌else◌,
}
use epos_arm.Base.Word.{negsuc}
use epos_arm.Strings.{
  strchr, strrchr, memchr, strncmp, strstr, end_loop, strncpy, strcmp, strncmp, memmove, strcpy,
  strlen,
}
use epos_arm.Strings.Search.{IsFirstMatch, NoMatch, strstr-IsFirstMatch}
use epos_arm.Strings.Memory.{memmove_lem}
use epos_arm.Strings.Ends.{IsString, strlen_lem}
use mathlib.Core.Option
use epos_arm.Strings.Prefix.{sign, strncmp-strcmp}
use epos_arm.Strings.Copy.{IsCopy, strcpy-IsCopy}

abbrev mem : ℕ → ℕ
mem i =
    if i == 100
    then 97
    else (if i == 101
        then 98
        else (if i == 102 then 99 else (if i == 200 then 100 else (if i == 201 then 101 else 0))))

abc_here : IsString mem 100 3
abc_here = record { nul = refl; chars = λ i h. ground arith }

de_here : IsString mem 200 2
de_here = record { nul = refl; chars = λ i h. ground arith }

memmove_lem_example :
    memmove mem 101 100 3 102
    ≡ (if leb 101 102 && ltb 102 (101 + 3) then mem (100 + (102 - 101)) else mem 102)
memmove_lem_example = memmove_lem mem 101 100 3 102

strlen_runs : strlen mem 100 9 ≡ some 3
strlen_runs = strlen_lem mem 100 3 9 abc_here (omega arith)

copied : (mem' : ℕ → ℕ) × (strcpy mem 300 100 9 ≡ some mem') × IsCopy mem 300 100 3 mem'
copied = strcpy-IsCopy mem 300 100 3 9 abc_here (omega arith) (omega arith)

strcmp_runs : strcmp mem 100 200 9 ≡ some (negsuc 2)
unfolding strcmp
strcmp_runs = refl

searches :
    (strchr mem 100 98 9 ≡ some 101)
    × (strchr mem 100 120 9 ≡ some 0)
    × (strrchr mem 100 99 9 ≡ some 102)
    × (memchr mem 100 99 2 ≡ 0)
    × (strncmp mem 100 200 3 ≡ negsuc 0)
unfolding strchr strrchr memchr strncmp
searches = (refl, refl, refl, refl, refl)

found_within : (strstr mem 100 101 9 ≡ some 101) × (strstr mem 100 200 9 ≡ some 0)
unfolding strstr strlen end_loop
found_within = (refl, refl)

padded :
    (strncpy mem 300 200 4 301 ≡ 101)
    × (strncpy mem 300 200 4 303 ≡ 0)
    × (strncpy (λ i. 7) 300 200 1 301 ≡ 7)
unfolding strncpy
padded = (refl, refl, refl)

bc-IsString : IsString mem 101 2
bc-IsString = record { nul = refl; chars = λ i h. ground arith }

strstr-IsFirstMatch_example :
    (r : ℕ) × (strstr mem 100 101 9 ≡ some r)
    × (IsFirstMatch mem 100 3 101 2 r ⊎ ((r ≡ 0) × NoMatch mem 100 3 101 2))
strstr-IsFirstMatch_example =
    strstr-IsFirstMatch mem 100 3 101 2 9 abc_here bc-IsString (omega arith) (omega arith)

strncmp-strcmp_example : Option.map sign (strcmp mem 100 200 9) ≡ some (strncmp mem 100 200 4)
strncmp-strcmp_example = strncmp-strcmp mem 100 200 3 4 9 abc_here (omega arith) (omega arith)
