-- ===== src/Strings/Tests.antt =====
-- The text functions at concrete strings.
use sp25_ece391_group.Base.{ℕ, ◌≡◌, ◌↔◌, refl, true, some, List, [], ◌∷◌, pos, ◌-◌, take, arith}
use sp25_ece391_group.Strings.{
  strcmp, strtoul, strtoul_signed, scan, format_int, digits, digit, strrchr, strrchr_from, put_all,
}
use sp25_ece391_group.Strings.Compare.{IsText, strcmp_lem, put_all-take}
use sp25_ece391_group.Strings.Print.{strtoul-format_int}

-- "-12x" in base 10: the minus wraps.
signed : strtoul (some (45 ∷ 49 ∷ 50 ∷ 120 ∷ [])) 10 ≡ (18446744073709551604, some (120 ∷ []))
unfolding strtoul strtoul_signed scan
signed = refl

-- 255 in base 16, padded with zeros to four places.
padded_hex : format_int 255 16 true 4 ≡ some (48 ∷ 48 ∷ 102 ∷ 102 ∷ [])
unfolding format_int digits digit
padded_hex = refl

last_place : strrchr 47 (47 ∷ 97 ∷ 47 ∷ 98 ∷ []) ≡ some (47 ∷ 98 ∷ [])
unfolding strrchr strrchr_from
last_place = refl

abbrev name : List ℕ
name = 97 ∷ 98 ∷ []

name-IsText : IsText name
name-IsText = (omega arith, (omega arith, record {}))

strcmp_lem_example : (strcmp (some name) (some name) ≡ pos 0) ↔ (name ≡ name)
strcmp_lem_example = strcmp_lem name name name-IsText name-IsText

strtoul-format_int_example :
    (ds : List ℕ) × (format_int 391 10 true 0 ≡ some ds) × (strtoul (some ds) 10 ≡ (391, some []))
strtoul-format_int_example = strtoul-format_int 391 true (omega arith)

put_all-take_example : put_all 3 (97 ∷ 98 ∷ 99 ∷ []) ≡ take (3 - 1) (97 ∷ 98 ∷ 99 ∷ [])
put_all-take_example = put_all-take 3 (97 ∷ 98 ∷ 99 ∷ [])
