-- ===== src/Plic/Sources.antt =====
-- Which sources `plic_init` leaves enabled, and what an enable or a disable of a source changes.
use sp25_ece391_group.Base.{
  ℕ, zero, suc, ◌+◌, ◌/◌, ◌%◌, ◌≤◌, ◌<◌, ◌≡◌, ◌⊎◌, refl, ap, ◌∙◌, inl, inr, false, ◌&&◌, ◌||◌,
  Option, none, some, ◌==◌, ltb, leb, if◌then◌else◌, arith, Bool-cases, pos,
}
use sp25_ece391_group.Plic.{
  src_cnt, ctx_cnt, Plic, ctx, set_source_priority, set_bit, enable_loop,
  enable_all_sources_for_context, clear_word, disable_loop, disable_all_sources_for_context,
  priority_loop, context_loop, plic_init, plic_enable_source,
}

priority_loop_lem :
    (n i : ℕ) (r : Plic) (j : ℕ)
    → i + n ≤ src_cnt
    → (priority_loop n i r).priority j ≡ (if leb i j && ltb j (i + n) then 0 else r.priority j)
unfolding priority_loop set_source_priority
priority_loop_lem zero i r j h = ground arith
priority_loop_lem (suc n) i r j h =
    let b : leb src_cnt i ≡ false = ground arith in
    priority_loop_lem n (i + 1) _ j (omega arith) ∙ rw b (ground arith)

priority_loop-enable : (n i : ℕ) (r : Plic) → (priority_loop n i r).enable ≡ r.enable
unfolding priority_loop set_source_priority
priority_loop-enable zero i r = refl
priority_loop-enable (suc n) i r =
    priority_loop-enable n (i + 1) _
    ∙ elim (Bool-cases (leb src_cnt i)) [ inl e ↦ rw e refl | inr e ↦ rw e refl ]

enable_loop-word :
    (n i ctxno : ℕ) (r : Plic) (c w k : ℕ)
    → i + n ≤ 32
    → (enable_loop n i ctxno r).enable c w k
      ≡ ((c == ctxno) && ((w == 0) && (leb i k && ltb k (i + n))) || r.enable c w k)
unfolding enable_loop set_bit
enable_loop-word zero i ctxno r c w k h = ground arith
enable_loop-word (suc n) i ctxno r c w k h =
    let q : i / 32 ≡ 0 = omega arith in
    let m : i % 32 ≡ i = omega arith in
    enable_loop-word n (i + 1) ctxno _ c w k (omega arith) ∙ rw (q, m) (ground arith)

disable_loop-word :
    (n i ctxno : ℕ) (r : Plic) (c w k : ℕ)
    → i + n ≤ 32
    → (disable_loop n i ctxno r).enable c w k
      ≡ (if (c == ctxno) && ((w == 0) && ltb 0 n) then false else r.enable c w k)
unfolding disable_loop clear_word
disable_loop-word zero i ctxno r c w k h = ground arith
disable_loop-word (suc n) i ctxno r c w k h =
    let q : i / 32 ≡ 0 = omega arith in
    disable_loop-word n (i + 1) ctxno _ c w k (omega arith) ∙ rw q (ground arith)

context_loop-word :
    (r : Plic) (c w k : ℕ)
    → (context_loop ctx_cnt 0 r).enable c w k
      ≡ (if ltb c ctx_cnt && (w == 0) then false else r.enable c w k)
unfolding context_loop disable_all_sources_for_context
context_loop-word r c w k =
    disable_loop-word 32 0 1 (disable_loop 32 0 0 r) c w k (omega arith)
    ∙ rw (disable_loop-word 32 0 0 r c w k (omega arith)) (ground arith)

enable_loop-priority : (n i ctxno : ℕ) (r : Plic) → (enable_loop n i ctxno r).priority ≡ r.priority
unfolding enable_loop set_bit
enable_loop-priority zero i ctxno r = refl
enable_loop-priority (suc n) i ctxno r = enable_loop-priority n (i + 1) ctxno _

disable_loop-priority :
    (n i ctxno : ℕ) (r : Plic) → (disable_loop n i ctxno r).priority ≡ r.priority
unfolding disable_loop clear_word
disable_loop-priority zero i ctxno r = refl
disable_loop-priority (suc n) i ctxno r = disable_loop-priority n (i + 1) ctxno _

context_loop-priority : (r : Plic) → (context_loop ctx_cnt 0 r).priority ≡ r.priority
unfolding context_loop disable_all_sources_for_context
context_loop-priority r =
    disable_loop-priority 32 0 1 (disable_loop 32 0 0 r) ∙ disable_loop-priority 32 0 0 r

-- After plic_init every source has priority 0, the bits of the first 32 sources are set in the
-- context of S mode and clear in that of M mode, and the bits of all other sources are as they
-- were.
pub plic_init_lem :
    (r : Plic) (c w k : ℕ)
    → k < 32
    → ((plic_init r).enable c w k
        ≡ (if ltb c ctx_cnt && (w == 0) then c == ctx 0 1 else r.enable c w k))
      × ((j : ℕ) → (plic_init r).priority j ≡ (if ltb j src_cnt then 0 else r.priority j))
unfolding plic_init enable_all_sources_for_context
plic_init_lem r c w k h =
    let first : Plic = priority_loop src_cnt 0 r in
    let second : Plic = context_loop ctx_cnt 0 first in
    let kept : first.enable ≡ r.enable = priority_loop-enable src_cnt 0 r in
    (
      enable_loop-word 32 0 1 second c w k (omega arith)
          ∙ rw (context_loop-word first c w k, kept) (ground arith),
      λ j.
          ap (λ f. f j) (enable_loop-priority 32 0 1 second ∙ context_loop-priority first)
          ∙ priority_loop_lem src_cnt 0 r j (omega arith)
          ∙ ground arith,
    )

-- What `plic_enable_source` achieves: the priority of the source and nothing else changes, and nothing at
-- all for the number behind the last source; the assertions fail only for a number outside 1 to
-- PLIC_SRC_CNT and for the priority 0.
abbrev pub Enabled : (srcno prio : ℕ) → Plic → Option Plic → Type 0
Enabled srcno prio r none = (srcno ≡ 0) ⊎ ((src_cnt < srcno) ⊎ (prio ≡ 0))
Enabled srcno prio r (some r') =
    ((j : ℕ) → r'.priority j ≡ (if (j == srcno) && ltb srcno src_cnt then prio else r.priority j))
    × (r'.enable ≡ r.enable)
    × (r'.threshold ≡ r.threshold)
    × (r'.completed ≡ r.completed)
    × (0 < srcno)
    × (0 < prio)

set_source_priority_lem :
    (srcno prio : ℕ) (r : Plic)
    → 0 < srcno
    → 0 < prio
    → Enabled srcno prio r (some (set_source_priority srcno prio r))
unfolding set_source_priority
set_source_priority_lem srcno prio r h k = elim (Bool-cases (leb src_cnt srcno)) [
  | inl e ↦ rw e (λ j. ground arith, refl, refl, refl, h, k)
  | inr e ↦ rw e (λ j. ground arith, refl, refl, refl, h, k)
]

-- plic_enable_source of numbers that are not negative sets the priority of the source and changes
-- no other register, does nothing at all for the number behind the last source, and fails its
-- assertions only for a number outside 1 to PLIC_SRC_CNT or the priority 0.
pub plic_enable_source-Enabled :
    (srcno prio : ℕ) (r : Plic) → Enabled srcno prio r (plic_enable_source (pos srcno) (pos prio) r)
unfolding plic_enable_source
plic_enable_source-Enabled srcno prio r = elim (Bool-cases (ltb 0 srcno && leb srcno src_cnt)) [
  | inl e ↦ elim (Bool-cases (ltb 0 prio)) [
    | inl p ↦ rw (e, p) (set_source_priority_lem srcno prio r (ground arith) (ground arith))
    | inr p ↦ rw (e, p) (inr (inr (ground arith)))
  ]
  | inr e ↦ rw e (elim (Bool-cases (srcno == 0)) [
    | inl z ↦ inl (ground arith)
    | inr z ↦ inr (inl (ground arith))
  ])
]
