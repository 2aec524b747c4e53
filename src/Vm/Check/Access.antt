-- ===== src/Vm/Check/Access.antt =====
-- What `validate_vptr` promises to a system call: each address of the range is mapped, with the flags
-- that are asked for.
use sp25_ece391_group.Base.{
  ℕ, zero, suc, ◌+◌, ◌-◌, ◌*◌, ◌/◌, ◌%◌, ◌^◌, ◌≤◌, ◌<◌, ◌≡◌, ◌↔◌, refl, sym, ap, ◌∙◌, inl, inr,
  Bool, true, false, ◌||◌, not, Option, none, some, Error, eaccess, einval, ◌==◌, ltb,
  if◌then◌else◌, arith, Bool-cases, Option-cases,
}
use sp25_ece391_group.Vm.{
  Flags, Pte, Memory, vpn2, vpn1, vpn0, round_up, round_down, wellformed, target, active_space_ptab,
}
use sp25_ece391_group.Vm.Check.{includes, check_leaf, check_addr, check_pages, validate_vptr}

abbrev Implies : Bool → Bool → Type 0
Implies want have = want ≡ true → have ≡ true

-- Each flag that is wanted is set.
pub record Includes (have want : Flags) : Type 0 where
  pub v : want.v ≡ true → have.v ≡ true
  pub r : want.r ≡ true → have.r ≡ true
  pub w : want.w ≡ true → have.w ≡ true
  pub x : want.x ≡ true → have.x ≡ true
  pub u : want.u ≡ true → have.u ≡ true
  pub g : want.g ≡ true → have.g ≡ true
  pub a : want.a ≡ true → have.a ≡ true
  pub d : want.d ≡ true → have.d ≡ true

-- The entries of the three tables for address `a` of the active space.
abbrev pub entry2 : Memory → ℕ → Pte
entry2 m a = m.tables (active_space_ptab m) (vpn2 a)

abbrev pub entry1 : Memory → ℕ → Pte
entry1 m a = m.tables (target (entry2 m a)) (vpn1 a)

abbrev pub entry0 : Memory → ℕ → Pte
entry0 m a = m.tables (target (entry1 m a)) (vpn0 a)

-- The address is mapped, with these flags.
pub record Allows (m : Memory) (want : Flags) (a : ℕ) : Type 0 where
  pub valid2 : (entry2 m a).flags.v ≡ true
  pub valid1 : (entry1 m a).flags.v ≡ true
  pub valid0 : (entry0 m a).flags.v ≡ true
  pub flags : Includes (entry0 m a).flags want

implied : (b c : Bool) → (c ≡ true → b ≡ true) → (b || not c) ≡ true
implied true c h = refl
implied false true h = let e : false ≡ true = h refl in cc
implied false false h = refl

includes-Includes : (have want : Flags) → includes have want ≡ true → Includes have want
unfolding includes
includes-Includes have want h = record {
  v = λ q. ground arith;
  r = λ q. ground arith;
  w = λ q. ground arith;
  x = λ q. ground arith;
  u = λ q. ground arith;
  g = λ q. ground arith;
  a = λ q. ground arith;
  d = λ q. ground arith;
}

Includes-includes : (have want : Flags) → Includes have want → includes have want ≡ true
unfolding includes
Includes-includes have want h =
    rw
      (
        implied have.v want.v h.v,
        implied have.r want.r h.r,
        implied have.w want.w h.w,
        implied have.x want.x h.x,
        implied have.u want.u h.u,
        implied have.g want.g h.g,
        implied have.a want.a h.a,
        implied have.d want.d h.d,
      )
      refl

-- What the walk finds, by the valid bits of the three entries.
check_leaf-Includes :
    (p : Pte) (want : Flags)
    → (check_leaf p want ≡ none) ↔ ((p.flags.v ≡ true) × Includes p.flags want)
unfolding check_leaf
check_leaf-Includes p want = (
  λ h. elim (Bool-cases p.flags.v) [
    | inl v ↦ elim (Bool-cases (includes p.flags want)) [
      | inl all ↦ (v, includes-Includes p.flags want all)
      | inr missing ↦ let e : some eaccess ≡ none = rw (missing, v) at h in cc
    ]
    | inr no_v ↦ let e : some eaccess ≡ none = rw no_v at h in cc
  ],
  λ (v, all). rw (Includes-includes p.flags want all, v) refl,
)

check_addr-Allows :
    (m : Memory) (want : Flags) (a : ℕ) → (check_addr m a want ≡ none) ↔ Allows m want a
unfolding check_addr
check_addr-Allows m want a = (
  λ h. elim (Bool-cases (entry2 m a).flags.v) [
    | inl v2 ↦ elim (Bool-cases (entry1 m a).flags.v) [
      | inl v1 ↦
          let h' : check_leaf (entry0 m a) want ≡ none = rw (v2, v1) at h in
          let (v0, all) = (check_leaf-Includes (entry0 m a) want).0 h' in
          record { valid2 = v2; valid1 = v1; valid0 = v0; flags = all }
      | inr no_v ↦ let e : some eaccess ≡ none = rw (v2, no_v) at h in cc
    ]
    | inr no_v ↦ let e : some eaccess ≡ none = rw no_v at h in cc
  ],
  λ h. rw (h.valid2, h.valid1) ((check_leaf-Includes (entry0 m a) want).1 (h.valid0, h.flags)),
)

-- The walk for a page number.
abbrev check_page : Memory → Flags → ℕ → Option Error
check_page m want v =
    let e2 : Pte = m.tables (active_space_ptab m) (v / 2 ^ 18 % 512) in
    let e1 : Pte = m.tables (target e2) (v / 2 ^ 9 % 512) in
    if not e2.flags.v
    then some eaccess
    else if not e1.flags.v
    then some eaccess
    else check_leaf (m.tables (target e1) (v % 512)) want

-- The tables know the page of an address only.
check_addr-same_page :
    (m : Memory) (want : Flags) (a b : ℕ)
    → a / 4096 ≡ b / 4096
    → check_addr m a want ≡ check_addr m b want
unfolding check_addr
check_addr-same_page m want a b e = ap (check_page m want) e

check_pages-all :
    (n : ℕ) (m : Memory) (addr : ℕ) (want : Flags)
    → (check_pages n m addr want ≡ none)
      ↔ ((k : ℕ) → k < n → check_addr m (addr + k * 4096) want ≡ none)
unfolding check_pages
check_pages-all zero m addr want = (λ h k lt. absurd (omega arith), λ h. refl)
check_pages-all (suc n) m addr want = elim (Option-cases (check_addr m addr want)) [
  | inl fine ↦ (
    λ h k lt. elim (Bool-cases (k == 0)) [
      | inl first ↦
          let e : addr + k * 4096 ≡ addr = ground arith in
          ap (λ (x : ℕ). check_addr m x want) e ∙ fine
      | inr later ↦
          let h' : check_pages n m (addr + 4096) want ≡ none = rw (check_pages, fine) at h in
          let e : addr + k * 4096 ≡ addr + 4096 + (k - 1) * 4096 = ground arith in
          ap (λ (x : ℕ). check_addr m x want) e
          ∙ (check_pages-all n m (addr + 4096) want).0 h' (k - 1) (ground arith)
    ],
    λ h.
        rw (check_pages, fine)
          ((check_pages-all n m (addr + 4096) want).1 (λ k lt.
            let e : addr + 4096 + k * 4096 ≡ addr + (k + 1) * 4096 = omega arith in
            ap (λ (x : ℕ). check_addr m x want) e ∙ h (k + 1) (omega arith))),
  )
  | inr (e, q) ↦ (
    λ h. let z : some e ≡ none = rw (check_pages, q) at h in cc,
    λ h.
        let first : addr + 0 * 4096 ≡ addr = omega arith in
        let z : some e ≡ none =
          sym q ∙ ap (λ (x : ℕ). check_addr m x want) (sym first) ∙ h 0 (omega arith) in
        cc,
  )
]

-- The pages that the loop looks at are those of the addresses of the range.
module _ (vp len : ℕ) (some_bytes : 0 < len) (small : vp + len + 4095 < 2 ^ 64) where
  abbrev rounds : ℕ
  rounds = (round_up ((vp + len) % 2 ^ 64) - round_down vp) / 4096

  round_of : (a : ℕ) → vp ≤ a → a < vp + len → a / 4096 - vp / 4096 < rounds
  round_of a ge lt = omega arith

  page_of : (a : ℕ) → vp ≤ a → (round_down vp + (a / 4096 - vp / 4096) * 4096) / 4096 ≡ a / 4096
  page_of a ge = omega arith

  -- An address of the range in the page of a round.
  address_of : (k : ℕ) → ℕ
  address_of k = if k == 0 then vp else round_down vp + k * 4096

  address_of-in :
      (k : ℕ)
      → k < rounds
      → (vp ≤ address_of k)
        × (address_of k < vp + len)
        × (address_of k / 4096 ≡ (round_down vp + k * 4096) / 4096)
  unfolding address_of
  address_of-in k lt = elim (Bool-cases (k == 0)) [
    | inl first ↦ let e : k ≡ 0 = ground arith in rw first (omega arith, omega arith, omega arith)
    | inr later ↦ let ne : 0 < k = ground arith in rw later (omega arith, omega arith, refl)
  ]

  -- For a range that is not empty and does not reach into the last page of the 64-bit addresses,
  -- validate_vptr gives 0 if and only if the pointer is well formed and each address of the range
  -- is mapped, in valid entries at all three levels, with all the flags that are asked for.
  pub validate_vptr-Allows :
      (m : Memory) (want : Flags)
      → (validate_vptr m vp len want ≡ none)
        ↔ ((wellformed vp ≡ true) × ((a : ℕ) → vp ≤ a → a < vp + len → Allows m want a))
  unfolding validate_vptr
  validate_vptr-Allows m want = (
    λ h. elim (Bool-cases (wellformed vp)) [
      | inl canonical ↦
          let h' : check_pages rounds m (round_down vp) want ≡ none =
            rw (canonical, no_wrap) at h in
          (
            canonical,
            λ a ge lt. (check_addr-Allows m want a).0 (
                sym (check_addr-same_page m want _ a (page_of a ge))
                ∙ (check_pages-all rounds m (round_down vp) want).0 h' (a / 4096 - vp / 4096)
                    (round_of a ge lt)),
          )
      | inr other ↦ let e : some einval ≡ none = rw other at h in cc
    ],
    λ (canonical, all).
        rw (canonical, no_wrap)
          ((check_pages-all rounds m (round_down vp) want).1 (λ k lt.
            let (ge, lt', same) = address_of-in k lt in
            sym (check_addr-same_page m want (address_of k) (round_down vp + k * 4096) same)
            ∙ (check_addr-Allows m want (address_of k)).1 (all (address_of k) ge lt'))),
  )
    where
      no_wrap : ltb ((vp + len) % 2 ^ 64) vp ≡ false
      no_wrap = let e : (vp + len) % 2 ^ 64 ≡ vp + len = omega arith in rw e (ground arith)
