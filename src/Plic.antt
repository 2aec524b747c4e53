-- ===== src/Plic.antt =====
-- The interrupt controller's driver, sys/plic.c. A register of enable bits is given by its bits: `1` is
-- `true`. What a read of the pending or claim registers finds is the controller's, an argument.
pub mod Sources
mod Tests
use sp25_ece391_group.Base.{
  ℕ, zero, suc, ◌+◌, ◌*◌, ◌/◌, ◌%◌, ◌≤◌, Bool, true, false, ◌&&◌, ◌||◌, Option, none, some, ◌==◌,
  ltb, leb, if◌then◌else◌, ℤ, pos, negsuc,
}

-- PLIC_SRC_CNT and PLIC_CTX_CNT of sys/conf.h.
abbrev pub src_cnt : ℕ
src_cnt = 96

abbrev pub ctx_cnt : ℕ
ctx_cnt = 2

-- `struct plic_regs`, as far as it is written: `enable` by context, word and bit.
pub record Plic : Type 0 where
  pub priority : ℕ → ℕ
  pub enable : ℕ → ℕ → ℕ → Bool
  pub threshold : ℕ → ℕ
  pub completed : ℕ → ℕ

-- CTX(i,s).
abbrev pub ctx : ℕ → ℕ → ℕ
ctx i s = 2 * i + s

abbrev pub write : (ℕ → ℕ) → ℕ → ℕ → ℕ → ℕ
write reg i v j = if j == i then v else reg j

unfoldable pub set_source_priority : (srcno level : ℕ) → Plic → Plic
set_source_priority srcno level r =
    if leb src_cnt srcno then r else record r { priority = write r.priority srcno level }

-- The pending registers are those of the controller.
unfoldable pub source_pending : (ℕ → ℕ → Bool) → ℕ → Bool
source_pending pending srcno =
    if leb src_cnt srcno then false else pending (srcno / 32) (srcno % 32)

-- One bit of one word of a context.
unfoldable pub set_bit : (ctxno word bit : ℕ) → Bool → Plic → Plic
set_bit ctxno word bit b r =
    let here = λ (c w k : ℕ). (c == ctxno) && ((w == word) && (k == bit)) in
    record r { enable = λ c w k. if here c w k then b else r.enable c w k }

unfoldable pub enable_source_for_context : (ctxno srcno : ℕ) → Plic → Plic
unfolding set_bit
enable_source_for_context ctxno srcno r =
    if leb ctx_cnt ctxno || leb src_cnt srcno
    then r
    else set_bit ctxno (srcno / 32) (srcno % 32) true r

unfoldable pub disable_source_for_context : (ctxno srcno : ℕ) → Plic → Plic
unfolding set_bit
disable_source_for_context ctxno srcno r =
    if leb ctx_cnt ctxno || leb src_cnt srcno
    then r
    else set_bit ctxno (srcno / 32) (srcno % 32) false r

unfoldable pub set_context_threshold : (ctxno level : ℕ) → Plic → Plic
set_context_threshold ctxno level r =
    if leb ctx_cnt ctxno then r else record r { threshold = write r.threshold ctxno level }

-- The claim registers are those of the controller.
unfoldable pub claim_context_interrupt : (ℕ → ℕ) → ℕ → ℕ
claim_context_interrupt claim ctxno = if leb ctx_cnt ctxno then 0 else claim ctxno

unfoldable pub complete_context_interrupt : (ctxno srcno : ℕ) → Plic → Plic
complete_context_interrupt ctxno srcno r =
    if leb ctx_cnt ctxno || leb src_cnt srcno
    then r
    else record r { completed = write r.completed ctxno srcno }

-- The loops, over `n` numbers from `i` on.
unfoldable pub enable_loop : (n i ctxno : ℕ) → Plic → Plic
unfolding set_bit
enable_loop zero i ctxno r = r
enable_loop (suc n) i ctxno r = enable_loop n (i + 1) ctxno (set_bit ctxno (i / 32) (i % 32) true r)

unfoldable pub enable_all_sources_for_context : ℕ → Plic → Plic
unfolding enable_loop
enable_all_sources_for_context ctxno r = if leb ctx_cnt ctxno then r else enable_loop 32 0 ctxno r

-- A whole word of a context is cleared.
unfoldable pub clear_word : (ctxno word : ℕ) → Plic → Plic
clear_word ctxno word r =
    let here = λ (c w : ℕ). (c == ctxno) && (w == word) in
    record r { enable = λ c w k. if here c w then false else r.enable c w k }

unfoldable pub disable_loop : (n i ctxno : ℕ) → Plic → Plic
unfolding clear_word
disable_loop zero i ctxno r = r
disable_loop (suc n) i ctxno r = disable_loop n (i + 1) ctxno (clear_word ctxno (i / 32) r)

unfoldable pub disable_all_sources_for_context : ℕ → Plic → Plic
unfolding disable_loop
disable_all_sources_for_context ctxno r = if leb ctx_cnt ctxno then r else disable_loop 32 0 ctxno r

unfoldable pub priority_loop : (n i : ℕ) → Plic → Plic
unfolding set_source_priority
priority_loop zero i r = r
priority_loop (suc n) i r = priority_loop n (i + 1) (set_source_priority i 0 r)

unfoldable pub context_loop : (n i : ℕ) → Plic → Plic
unfolding disable_all_sources_for_context
context_loop zero i r = r
context_loop (suc n) i r = context_loop n (i + 1) (disable_all_sources_for_context i r)

unfoldable pub plic_init : Plic → Plic
unfolding priority_loop context_loop enable_all_sources_for_context
plic_init r =
    enable_all_sources_for_context (ctx 0 1) (context_loop ctx_cnt 0 (priority_loop src_cnt 0 r))

-- `none` is a failed assertion.
unfoldable pub plic_enable_source : ℤ → ℤ → Plic → Option Plic
unfolding set_source_priority
plic_enable_source (pos srcno) (pos prio) r =
    if ltb 0 srcno && leb srcno src_cnt
    then if ltb 0 prio then some (set_source_priority srcno prio r) else none
    else none
plic_enable_source (negsuc n) prio r = none
plic_enable_source (pos srcno) (negsuc n) r = none

unfoldable pub plic_disable_source : ℤ → Plic → Plic
unfolding set_source_priority
plic_disable_source (pos irqno) r = if ltb 0 irqno then set_source_priority irqno 0 r else r
plic_disable_source (negsuc n) r = r

unfoldable pub plic_claim_interrupt : (ℕ → ℕ) → ℕ
unfolding claim_context_interrupt
plic_claim_interrupt claim = claim_context_interrupt claim (ctx 0 1)

unfoldable pub plic_finish_interrupt : ℕ → Plic → Plic
unfolding complete_context_interrupt
plic_finish_interrupt irqno r = complete_context_interrupt (ctx 0 1) irqno r
