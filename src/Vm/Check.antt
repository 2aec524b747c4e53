-- ===== src/Vm/Check.antt =====
-- `validate_vptr` and `validate_vstr` of sys/memory.c, by which the system calls check the pointers of
-- a user program. The result is 0, or an error number as it is, which is not negated: `none` is 0.
pub mod Access
use sp25_ece391_group.Base.{
  ℕ, zero, suc, ◌+◌, ◌-◌, ◌*◌, ◌/◌, ◌%◌, ◌^◌, Bool, true, false, ◌&&◌, ◌||◌, not, Option, none,
  some, Error, einval, eaccess, ◌==◌, ltb, leb, if◌then◌else◌,
}
use sp25_ece391_group.Vm.{
  Flags, Pte, Memory, page_size, vpn2, vpn1, vpn0, round_up, round_down, wellformed, target,
  active_space_ptab,
}

-- `(p.flags & want) == want`.
unfoldable pub includes : Flags → Flags → Bool
includes have want =
    (have.v || not want.v)
    && (have.r || not want.r)
    && (have.w || not want.w)
    && (have.x || not want.x)
    && (have.u || not want.u)
    && (have.g || not want.g)
    && (have.a || not want.a)
    && (have.d || not want.d)

-- The walk through the tables for one address: the error, or the last entry.
abbrev pub leaf : Memory → (lvl0 : ℕ) → (addr : ℕ) → Pte
leaf m lvl0 addr = m.tables lvl0 (vpn0 addr)

unfoldable pub check_leaf : Pte → Flags → Option Error
unfolding includes
check_leaf p want = if not p.flags.v || not (includes p.flags want) then some eaccess else none

unfoldable pub check_addr : Memory → (addr : ℕ) → Flags → Option Error
unfolding active_space_ptab check_leaf
check_addr m addr want =
    let e2 : Pte = m.tables (active_space_ptab m) (vpn2 addr) in
    let e1 : Pte = m.tables (target e2) (vpn1 addr) in
    if not e2.flags.v
    then some eaccess
    else if not e1.flags.v
    then some eaccess
    else check_leaf (leaf m (target e1) addr) want

-- An error ends the loop.
abbrev pub or_next : Option Error → Option Error → Option Error
or_next (some e) rest = some e
or_next none rest = rest

-- The loop over the pages, with `n` of them to go.
unfoldable pub check_pages : (n : ℕ) → Memory → (addr : ℕ) → Flags → Option Error
unfolding check_addr
check_pages zero m addr want = none
check_pages (suc n) m addr want =
    or_next (check_addr m addr want) (check_pages n m (addr + page_size) want)

-- The end of the range is a 64-bit number.
unfoldable pub validate_vptr : Memory → (vp len : ℕ) → Flags → Option Error
unfolding wellformed check_pages
validate_vptr m vp len want =
    if not (wellformed vp)
    then some einval
    else if ltb ((vp + len) % 2 ^ 64) vp
    then some einval
    else check_pages ((round_up ((vp + len) % 2 ^ 64) - round_down vp) / page_size) m
        (round_down vp) want

-- The character at an address that the tables map.
unfoldable pub char_at : Memory → (addr : ℕ) → ℕ
unfolding active_space_ptab
char_at m addr =
    let e2 : Pte = m.tables (active_space_ptab m) (vpn2 addr) in
    let e1 : Pte = m.tables (target e2) (vpn1 addr) in
    m.bytes (target (leaf m (target e1) addr)) (addr % page_size)

-- The loop over the characters, which ends behind the last address at the latest: `n` of them are left.
unfoldable pub check_chars : (n : ℕ) → Memory → (addr : ℕ) → Flags → Option Error
unfolding check_addr char_at
check_chars zero m addr want = some einval
check_chars (suc n) m addr want = elim (check_addr m addr want) [
  | some e ↦ some e
  | none ↦ elim (char_at m addr == 0) [
    | true ↦ none
    | false ↦ elim (ltb ((addr + 1) % 2 ^ 64) addr) [
      | true ↦ some einval
      | false ↦ check_chars n m (addr + 1) want
    ]
  ]
]

unfoldable pub validate_vstr : Memory → (vs : ℕ) → Flags → Option Error
unfolding wellformed check_chars
validate_vstr m vs want = if wellformed vs then check_chars (2 ^ 64 - vs) m vs want else some einval
