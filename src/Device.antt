-- ===== src/Device.antt =====
-- The device table of sys/device.c. A name is the list of its characters before the zero that ends it,
-- and NULL is `none`. What a driver's open function does is its own: `S` is its state, `R` its result.
pub mod Find
mod Tests
use sp25_ece391_group.Base.{
  ℕ, zero, suc, ◌+◌, Bool, true, false, ◌&&◌, ◌||◌, Option, none, some, List, [], ◌∷◌, ◌==◌, ltb,
  leb, if◌then◌else◌, ℤ, pos, negsuc, length, take, drop, replicate, einval, enotsup, enodev, ok,
}
use sp25_ece391_group.Exec.{Exec, fail, die}
use sp25_ece391_group.Strings.{strcmp, strtoul}

pub record Device (S R : Type 0) : Type 0 where
  pub name : List ℕ
  pub openfn : Option (ℕ → Exec S R)
  pub aux : ℕ

-- `strcmp (s, t) == 0` and `k == instno`.
unfoldable pub equals_zero : ℤ → Bool
equals_zero (pos n) = n == 0
equals_zero (negsuc n) = false

unfoldable pub same_name : List ℕ → List ℕ → Bool
unfolding strcmp equals_zero
same_name s t = equals_zero (strcmp (some s) (some t))

unfoldable pub is_instno : ℕ → ℤ → Bool
is_instno k (pos n) = k == n
is_instno k (negsuc n) = false

abbrev pub ndev : ℕ
ndev = 16

abbrev pub Devtab : (S R : Type 0) → Type 0
Devtab S R = List (Option (Device S R))

-- The table before any registration.
abbrev pub no_devices : (S R : Type 0) → Devtab S R
no_devices S R = replicate ndev none

module _ {S R : Type 0} where
  -- What the search for a free slot in the rest of the table gives: the slots before it stay.
  unfoldable pub keep_slot :
      Option (Device S R) → Option (ℕ × (Devtab S R)) → Option (ℕ × (Devtab S R))
  keep_slot x none = none
  keep_slot x (some (n, l)) = some (n, x ∷ l)

  -- The loop of `register_device`: the first slot without a name is taken. `instno` counts the devices
  -- of the same name. `none` if the table is full.
  unfoldable pub add_device : Device S R → (instno : ℕ) → Devtab S R → Option (ℕ × (Devtab S R))
  unfolding same_name keep_slot
  add_device d instno [] = none
  add_device d instno (none ∷ l) = some (instno, some d ∷ l)
  add_device d instno (some x ∷ l) =
      let counted = add_device d (suc instno) l in
      let passed = add_device d instno l in
      keep_slot (some x) (if same_name d.name x.name then counted else passed)

  -- A full table is a panic.
  unfoldable pub or_panic : Option (ℕ × (Devtab S R)) → Exec (Devtab S R) ℕ
  or_panic none l = die l
  or_panic (some (n, l')) l = (ok n, l')

  -- A name that is NULL fails the assertion.
  unfoldable pub register_device :
      (name : Option (List ℕ)) → Option (ℕ → Exec S R) → (aux : ℕ) → Exec (Devtab S R) ℕ
  unfolding add_device or_panic
  register_device none openfn aux l = die l
  register_device (some name) openfn aux l =
      or_panic (add_device (record { name = name; openfn = openfn; aux = aux }) 0 l) l

  -- The loop of `open_device`.
  unfoldable pub find_device :
      (name : List ℕ) (instno : ℤ) (k : ℕ) → Devtab S R → Option (Device S R)
  unfolding same_name is_instno
  find_device name instno k [] = none
  find_device name instno k (none ∷ l) = none
  find_device name instno k (some d ∷ l) =
      let counted = find_device name instno (suc k) l in
      let passed = find_device name instno k l in
      if same_name name d.name then (if is_instno k instno then some d else counted) else passed

  unfoldable pub call_open : Option (ℕ → Exec S R) → ℕ → Exec S R
  call_open none aux = fail enotsup
  call_open (some openfn) aux = openfn aux

  unfoldable pub open_found : Option (Device S R) → Exec S R
  unfolding call_open
  open_found none = fail enodev
  open_found (some d) = call_open d.openfn d.aux

  unfoldable pub open_device : (Devtab S R) → (name : List ℕ) (instno : ℤ) → Exec S R
  unfolding find_device open_found
  open_device l name instno = open_found (find_device name instno 0 l)

-- The place where the number at the end starts, `p`, or `none` for NULL; `none` outside is EINVAL.
unfoldable pub last_number : (s : ℕ) (p : Option ℕ) → List ℕ → Option (Option ℕ)
last_number s p [] = some p
last_number s p (c ∷ cs) =
    let start = last_number (suc s) (some s) cs in
    let more = last_number (suc s) p cs in
    let other = last_number (suc s) none cs in
    if leb 48 c && leb c 57
    then elim p [ none ↦ start | some i ↦ more ]
    else if ltb 32 c && ltb c 127
    then other
    else none

unfoldable pub at_end : Option (List ℕ) → Bool
at_end none = false
at_end (some []) = true
at_end (some (c ∷ cs)) = false

-- The number, where it is an int, is cut off the name.
unfoldable pub cut_number : (p : ℕ) → Exec (List ℕ) ℕ
unfolding strtoul at_end
cut_number p spec =
    let (ulval, end_) = strtoul (some (drop p spec)) 10 in
    if leb ulval 2147483647 && at_end end_ then (ok ulval, take p spec) else fail einval spec

unfoldable pub cut_spec : Option (Option ℕ) → Exec (List ℕ) ℕ
unfolding cut_number
cut_spec none spec = fail einval spec
cut_spec (some none) spec = fail einval spec
cut_spec (some (some p)) spec = if p == length spec then fail einval spec else cut_number p spec

unfoldable pub parse_device_spec : Exec (List ℕ) ℕ
unfolding last_number cut_spec
parse_device_spec spec = cut_spec (last_number 0 none spec) spec
