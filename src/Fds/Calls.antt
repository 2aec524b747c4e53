-- ===== src/Fds/Calls.antt =====
-- The system calls on descriptors keep the references covering the descriptors, and never reach an
-- object that has been closed.
use sp25_ece391_group.Base.{
  ℕ, zero, suc, ◌+◌, ◌-◌, ◌%◌, ◌^◌, Option, if◌then◌else◌, ◌≤◌, ◌<◌, ◌≡◌, refl, ◌∙◌, inl, inr, Bool,
  true, false, none, some, ◌==◌, ltb, arith, Bool-cases, Option-cases, ℤ, pos, negsuc, Ret, ok, err,
  crash, set,
}
use sp25_ece391_group.Fds.{
  process_iomax, Files, Result, returns, opened, drop_ref, new_io, pipe_fds, slot, set_slot,
  process_get_io, ioclose_at, free_fd, allocate_fd, open_fd, sysclose, pipe_at, syspipe,
}
use sp25_ece391_group.Fds.Counts.{
  is_io, uses, IsSafe, uses-set, free_fd-slot, free_fd-skip, get_or-set_ne, write-IsSafe,
  fill-IsSafe, recount-IsSafe, unused-IsSafe, uses_none, uses_covered, used_live, live,
}

abbrev pub is_crash : Ret ℕ → Bool
is_crash (ok n) = false
is_crash (err e) = false
is_crash crash = true

abbrev pub StaysSafe : Result → Type 0
StaysSafe (returns r f) = IsSafe f × (is_crash r ≡ false)

pub allocate_fd-StaysSafe :
    (fd : ℤ) (io : ℕ) (f : Files)
    → IsSafe f
    → uses io f.iotab + 1 ≤ live f.refcnt f.closed io
    → StaysSafe (allocate_fd fd io f)
unfolding allocate_fd IsSafe
allocate_fd-StaysSafe (negsuc zero) io f h spare = elim (Option-cases (free_fd none 0 f.iotab)) [
  | inl full ↦ rw (full, allocate_fd) (h, refl)
  | inr (i, e) ↦
      let (b, c) = free_fd-slot none f.iotab e in
      let inside : i < process_iomax = omega (arith, b, h.0) in
      rw (e, allocate_fd) (fill-IsSafe f i io h inside c spare, refl)
]
allocate_fd-StaysSafe (negsuc (suc n)) io f h spare = (h, refl)
allocate_fd-StaysSafe (pos fd) io f h spare = elim (Bool-cases (ltb fd process_iomax)) [
  | inl b ↦ elim (Option-cases (slot f fd)) [
    | inl free ↦ rw (b, allocate_fd, free) (fill-IsSafe f fd io h (ground arith) free spare, refl)
    | inr (taken, e) ↦ rw (b, allocate_fd, e) (h, refl)
  ]
  | inr b ↦ rw b (h, refl)
]

-- An open gives its object a descriptor, or refuses.
pub open_fd-StaysSafe :
    (fd : ℤ) (io : ℕ) (f : Files)
    → IsSafe f
    → f.refcnt io + 1 < 2 ^ 64
    → StaysSafe (open_fd fd io f)
unfolding open_fd opened IsSafe live
open_fd-StaysSafe fd io f h room =
    let there : (io == io) ≡ true = ground arith in
    let next : (f.refcnt io + 1) % 2 ^ 64 ≡ f.refcnt io + 1 = omega arith in
    let covered : uses io f.iotab ≤ f.refcnt io = uses_covered f io h in
    allocate_fd-StaysSafe fd io (opened io f)
      (recount-IsSafe f io ((f.refcnt io + 1) % 2 ^ 64) false h (omega (arith, covered)))
      (rw there (omega (arith, covered)))

-- A close of an open descriptor.
pub close_slot :
    (f : Files) (fd io : ℕ)
    → IsSafe f
    → fd < process_iomax
    → slot f fd ≡ some io
    → (g : Files) × (ioclose_at io (set_slot fd none f) ≡ some g) × IsSafe g
unfolding ioclose_at drop_ref IsSafe is_io live
close_slot f fd io h b e =
    let (used, open_now) = used_live f fd io h e in
    let open_still : (f.refcnt io == 0) ≡ false = ground arith in
    (
      drop_ref io (set_slot fd none f),
      rw open_still refl,
      write-IsSafe f fd none (drop_ref io f).refcnt (drop_ref io f).closed h b (λ j.
          rw e (elim (Bool-cases (j == io)) [
            | inl at ↦
                let eq : j ≡ io = ground arith in
                rw (at, eq, open_now) (one_less f io (rw open_now at (h.1 io)) used)
            | inr ne ↦ rw ne (omega (arith, h.1 j))
          ])),
    )
  where
    one_less :
        (f : Files) (io : ℕ)
        → uses io f.iotab ≤ f.refcnt io
        → 1 ≤ f.refcnt io
        → uses io f.iotab + 0 ≤ (if f.refcnt io == 1 then 0 else f.refcnt io - 1) + 1
    one_less f io k l = ground arith

pub sysclose-StaysSafe : (fd : ℤ) (f : Files) → IsSafe f → StaysSafe (sysclose fd f)
unfolding sysclose process_get_io
sysclose-StaysSafe (negsuc n) f h = (h, refl)
sysclose-StaysSafe (pos fd) f h = elim (Bool-cases (ltb fd process_iomax)) [
  | inl b ↦ elim (Option-cases (slot f fd)) [
    | inl free ↦ rw (b, sysclose, process_get_io, free) (h, refl)
    | inr (io, e) ↦
        let (g, closed, safe) = close_slot f fd io h (ground arith) e in
        rw (b, sysclose, process_get_io, e, closed) (safe, refl)
  ]
  | inr b ↦ rw (b, sysclose, process_get_io) (h, refl)
]

-- A failure closes both ends of the pipe.
drop_both :
    (f : Files) (wio rio : ℕ)
    → IsSafe f
    → f.refcnt wio ≡ 0
    → f.refcnt rio ≡ 0
    → IsSafe (drop_ref rio (drop_ref wio (new_io rio (new_io wio f))))
unfolding drop_ref new_io
drop_both f wio rio h w r =
    let no_wio = uses_none f wio h w in
    let no_rio = uses_none f rio h r in
    unused-IsSafe _ rio _ _
      (unused-IsSafe _ wio _ _
        (unused-IsSafe (new_io wio f) rio 1 false (unused-IsSafe f wio 1 false h no_wio) no_rio)
        no_wio)
      no_rio

both_ends :
    (f : Files) (wio rio i k : ℕ)
    → IsSafe f
    → f.refcnt wio ≡ 0
    → f.refcnt rio ≡ 0
    → (wio == rio) ≡ false
    → free_fd none 0 f.iotab ≡ some i
    → free_fd (some i) 0 f.iotab ≡ some k
    → IsSafe (set_slot k (some rio) (set_slot i (some wio) (new_io rio (new_io wio f))))
unfolding IsSafe is_io live new_io
both_ends f wio rio i k h w r ne e e' =
    let no_wio : uses wio f.iotab ≤ 0 = uses_none f wio h w in
    let no_rio : uses rio f.iotab ≤ 0 = uses_none f rio h r in
    let (bi, ni) = free_fd-slot none f.iotab e in
    let (bk, nk) = free_fd-slot (some i) f.iotab e' in
    let same_w : (wio == wio) ≡ true = ground arith in
    let same_r : (rio == rio) ≡ true = ground arith in
    let apart : (rio == wio) ≡ false = ground arith in
    let g : Files = new_io rio (new_io wio f) in
    let new : IsSafe g =
      unused-IsSafe (new_io wio f) rio 1 false (unused-IsSafe f wio 1 false h no_wio) no_rio in
    let first : IsSafe (set_slot i (some wio) g) =
      fill-IsSafe g i wio new (omega (arith, bi, h.0)) ni
        (rw (ne, same_w) (omega (arith, no_wio))) in
    let balance : uses rio (set f.iotab i (some wio)) + 0 ≡ uses rio f.iotab + 0 =
      rw (ni, apart) at (uses-set rio f.iotab i (some wio) bi) in
    fill-IsSafe (set_slot i (some wio) g) k rio first (omega (arith, bk, h.0))
      (get_or-set_ne f.iotab i k (some wio) (free_fd-skip i 0 f.iotab e') ∙ nk)
      (rw same_r (omega (arith, balance, no_rio)))

pipe_fds-StaysSafe :
    (wio rio : ℕ) (f : Files)
    → IsSafe f
    → f.refcnt wio ≡ 0
    → f.refcnt rio ≡ 0
    → (wio == rio) ≡ false
    → StaysSafe (pipe_fds wio rio f)
unfolding pipe_fds pipe_at IsSafe
pipe_fds-StaysSafe wio rio f h w r ne = elim (Option-cases (free_fd none 0 f.iotab)) [
  | inl full ↦ rw (full, pipe_at) (drop_both f wio rio h w r, refl)
  | inr (i, e) ↦ elim (Option-cases (free_fd (some i) 0 f.iotab)) [
    | inl full ↦ rw (e, pipe_at, full) (drop_both f wio rio h w r, refl)
    | inr (k, e') ↦ rw (e, pipe_at, e') (both_ends f wio rio i k h w r ne e e', refl)
  ]
]

pub syspipe-StaysSafe :
    (wfdptr rfdptr : Option ℕ) (wio rio : ℕ) (f : Files)
    → IsSafe f
    → f.refcnt wio ≡ 0
    → f.refcnt rio ≡ 0
    → (wio == rio) ≡ false
    → StaysSafe (syspipe wfdptr rfdptr wio rio f)
unfolding syspipe
syspipe-StaysSafe none rfdptr wio rio f h w r ne = (h, refl)
syspipe-StaysSafe (some wfdptr) none wio rio f h w r ne = (h, refl)
syspipe-StaysSafe (some wfdptr) (some rfdptr) wio rio f h w r ne =
    pipe_fds-StaysSafe wio rio f h w r ne
