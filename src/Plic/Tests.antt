-- ===== src/Plic/Tests.antt =====
-- The interrupt controller's driver at concrete registers.
use sp25_ece391_group.Base.{ℕ, ◌≡◌, true, ltb, ◌&&◌, ◌==◌, if◌then◌else◌, pos, arith}
use sp25_ece391_group.Plic.{Plic, ctx, src_cnt, ctx_cnt, plic_init, plic_enable_source}
use sp25_ece391_group.Plic.Sources.{Enabled, plic_init_lem, plic_enable_source-Enabled}

-- Registers with every bit set.
abbrev registers : Plic
registers = record {
  priority = λ j. 7;
  enable = λ c w k. true;
  threshold = λ c. 0;
  completed = λ c. 0;
}

plic_init_lem_example :
    ((plic_init registers).enable 0 0 5
      ≡ (if ltb 0 ctx_cnt && (0 == 0) then 0 == ctx 0 1 else true))
    × ((j : ℕ) → (plic_init registers).priority j ≡ (if ltb j src_cnt then 0 else 7))
plic_init_lem_example = plic_init_lem registers 0 0 5 (omega arith)

plic_enable_source-Enabled_example :
    Enabled 10 1 registers (plic_enable_source (pos 10) (pos 1) registers)
plic_enable_source-Enabled_example = plic_enable_source-Enabled 10 1 registers
