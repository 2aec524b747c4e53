-- ===== src/Strings.antt =====
-- The text functions of sys/string.c. A string is the list of its characters before the terminating
-- zero, a `char` is unsigned, and a pointer into a string is the rest of the string from there on.
pub mod Compare
pub mod Print
mod Tests
use sp25_ece391_group.Base.{
  ℕ, zero, suc, ◌+◌, ◌-◌, ◌*◌, ◌/◌, ◌%◌, ◌^◌, Bool, true, false, ◌&&◌, ◌||◌, Option, none, some,
  List, [], ◌∷◌, ◌++◌, ◌==◌, ltb, leb, if◌then◌else◌, ℤ, pos, negsuc, length, replicate,
}

-- `*s`, where the zero that ends the string can be read too.
abbrev pub first : List ℕ → ℕ
first [] = 0
first (c ∷ cs) = c

-- The loop of `strcmp` and its result: -1, 0 or 1.
unfoldable pub strcmp_from : List ℕ → List ℕ → ℤ
strcmp_from [] [] = pos 0
strcmp_from [] (d ∷ ds) = if ltb 0 d then negsuc 0 else pos 0
strcmp_from (c ∷ cs) [] = if ltb 0 c then pos 1 else pos 0
strcmp_from (c ∷ cs) (d ∷ ds) =
    let rest = strcmp_from cs ds in if c == d then rest else if ltb c d then negsuc 0 else pos 1

-- A NULL pointer is `none`.
unfoldable pub strcmp : Option (List ℕ) → Option (List ℕ) → ℤ
unfolding strcmp_from
strcmp none none = pos 0
strcmp none (some t) = negsuc 0
strcmp (some s) none = pos 1
strcmp (some s) (some t) = strcmp_from s t

-- The difference of two bytes, as a C int.
unfoldable pub difference : ℕ → ℕ → ℤ
difference a b = if leb b a then pos (a - b) else negsuc (b - a - 1)

-- The end of a string is read as a zero.
unfoldable pub strncmp : ℕ → List ℕ → List ℕ → ℤ
unfolding difference
strncmp zero s t = pos 0
strncmp (suc n) [] t = difference 0 (first t)
strncmp (suc n) (c ∷ cs) [] = difference c 0
strncmp (suc n) (c ∷ cs) (d ∷ ds) =
    let rest = strncmp n cs ds in if c == d then rest else difference c d

-- The buffers have `n` bytes at least.
unfoldable pub memcmp : ℕ → List ℕ → List ℕ → ℤ
unfolding difference
memcmp zero u v = pos 0
memcmp (suc n) [] v = pos 0
memcmp (suc n) (a ∷ rest_u) [] = pos 0
memcmp (suc n) (a ∷ rest_u) (b ∷ rest_v) =
    let rest = memcmp n rest_u rest_v in if a == b then rest else difference a b

unfoldable pub strlen : Option (List ℕ) → ℕ
strlen none = 0
strlen (some s) = length s

-- The characters that `strncpy` stores: a zero behind them if there is room for it.
unfoldable pub strncpy : ℕ → List ℕ → List ℕ
strncpy zero s = []
strncpy (suc n) [] = 0 ∷ []
strncpy (suc n) (c ∷ cs) = c ∷ strncpy n cs

unfoldable pub strchr : ℕ → List ℕ → Option (List ℕ)
strchr x [] = none
strchr x (c ∷ cs) = let rest = strchr x cs in if c == x then some (c ∷ cs) else rest

-- The last place found so far is `p`.
unfoldable pub strrchr_from : Option (List ℕ) → ℕ → List ℕ → Option (List ℕ)
strrchr_from p x [] = p
strrchr_from p x (c ∷ cs) = strrchr_from (if c == x then some (c ∷ cs) else p) x cs

unfoldable pub strrchr : ℕ → List ℕ → Option (List ℕ)
unfolding strrchr_from
strrchr x s = strrchr_from none x s

-- The first `n` bytes of a buffer set to a character.
unfoldable pub memset : ℕ → ℕ → List ℕ → List ℕ
memset zero c s = s
memset (suc n) c [] = []
memset (suc n) c (b ∷ bs) = c % 256 ∷ memset n c bs

-- The loop of `strtoul`: the number is an unsigned long.
unfoldable pub scan : (base val : ℕ) → List ℕ → ℕ × List ℕ
scan base val [] = (val, [])
scan base val (c ∷ cs) =
    let rest = scan base ((val * base % 2 ^ 64 + (c - 48)) % 2 ^ 64) cs in
    if ltb c 48 || leb (48 + base) c then (val, c ∷ cs) else rest

-- The result for a sign: 45 is a minus, 43 is a plus.
unfoldable pub strtoul_signed : (base : ℕ) → List ℕ → ℕ × List ℕ
unfolding scan
strtoul_signed base [] = (0, [])
strtoul_signed base (c ∷ cs) =
    let (val, rest) = scan base 0 cs in
    if c == 45
    then ((2 ^ 64 - val) % 2 ^ 64, rest)
    else if c == 43
    then (val, rest)
    else scan base 0 (c ∷ cs)

-- The number, and the rest of the string, which is NULL if the base is refused.
unfoldable pub strtoul : Option (List ℕ) → (base : ℕ) → ℕ × Option (List ℕ)
unfolding strtoul_signed
strtoul none base = (2 ^ 64 - 1, none)
strtoul (some s) base =
    let (val, rest) = strtoul_signed base s in
    if leb base 1 || ltb 10 base then (2 ^ 64 - 1, none) else (val, some rest)

unfoldable pub digit : ℕ → ℕ
digit d = if ltb d 10 then 48 + d else 97 + d - 10

abbrev pub append : Option (List ℕ) → ℕ → Option (List ℕ)
append none c = none
append (some cs) c = some (cs ++ c ∷ [])

-- The loop of `format_int` with room for `n` digits; `none` is a write outside its buffer.
unfoldable pub digits : (n base val : ℕ) → Option (List ℕ)
unfolding digit
digits zero base val = none
digits (suc n) base val =
    let rest = digits n base (val / base) in
    if val / base == 0 then some (digit (val % base) ∷ []) else append rest (digit (val % base))

-- The characters that are put out: the padding, zeros or spaces, and the digits.
abbrev pub pad : Bool → ℕ → List ℕ → List ℕ
pad zpad len ds = replicate (len - length ds) (if zpad then 48 else 32) ++ ds

abbrev pub padded : Bool → ℕ → Option (List ℕ) → Option (List ℕ)
padded zpad len none = none
padded zpad len (some ds) = some (pad zpad len ds)

-- The buffer has 40 bytes.
unfoldable pub format_int : (val base : ℕ) (zpad : Bool) (len : ℕ) → Option (List ℕ)
unfolding digits
format_int val base zpad len = padded zpad len (digits 40 base val)

-- NULL prints as `(null)`; the spaces stand behind the string.
abbrev pub spaced : ℕ → List ℕ → List ℕ
spaced len s = s ++ replicate (len - length s) 32

unfoldable pub format_str : Option (List ℕ) → (len : ℕ) → List ℕ
format_str none len = spaced len (40 ∷ 110 ∷ 117 ∷ 108 ∷ 108 ∷ 41 ∷ [])
format_str (some s) len = spaced len s

unfoldable pub format_char : (c len : ℕ) → List ℕ
format_char c len = replicate (len - 1) 32 ++ c ∷ []

-- The buffer and the room in it, as `vsnprintf_putc` sees them: the last place is kept free.
unfoldable pub put_all : (rem : ℕ) → List ℕ → List ℕ
put_all rem [] = []
put_all rem (c ∷ cs) = let rest = put_all (rem - 1) cs in if leb rem 1 then [] else c ∷ rest
