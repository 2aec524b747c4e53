-- ===== src/Ktfs/Blocks/Laws.antt =====
-- The map from the parts of a file to the blocks that hold them, described apart from the code, and
-- `get_blocknum_for_offset`.
use sp25_ece391_group.Base.{
  ℕ, ◌-◌, ◌*◌, ◌/◌, ◌%◌, ◌≡◌, refl, sym, subst, ap, inl, inr, true, false, Option, none, some, List,
  [], ◌∷◌, get_or, eio, ◌==◌, ltb, if◌then◌else◌, arith, Bool-cases, Ret,
}
use sp25_ece391_group.Exec.{Exec, pure, fail, recover, ◌>>=◌}
use sp25_ece391_group.Ktfs.{Superblock, Inode}
use sp25_ece391_group.Ktfs.Codec.{word32}
use sp25_ece391_group.Ktfs.Store.{BlockStore, IsBlockStore}
use sp25_ece391_group.Ktfs.Inodes.{read_data_block}
use sp25_ece391_group.Ktfs.Inodes.Laws.{
  stored, Looks, recover-Looks, bind-Looks, read_data_block-Looks,
}
use sp25_ece391_group.Ktfs.Blocks.{
  or_enoent, pointer, double_indirect, single_indirect, get_blocknum_for_offset, direct,
}

-- Block number 0 stands for no block.
abbrev pub nonzero : ℕ → Option ℕ
nonzero n = if n == 0 then none else some n

abbrev pub chain : Option ℕ → (ℕ → Option ℕ) → Option ℕ
chain none f = none
chain (some a) f = f a

module _ (sb : Superblock) (blocks : ℕ → List ℕ) where
  -- The pointer at a place of a block of pointers.
  abbrev pub entry : (blockno index : ℕ) → Option ℕ
  entry blockno index =
      chain (nonzero blockno) (λ b. nonzero (word32 (stored sb blocks b) (index * 4)))

  -- Level by level: blocks 0 to 2, then the 128 of the indirect block, then twice 128 times 128.
  unfoldable pub block_of : Inode → (index : ℕ) → Option ℕ
  block_of n i =
      if ltb i 3
      then nonzero (get_or (n.block0 ∷ n.block1 ∷ n.block2 ∷ []) i 0)
      else if ltb i 131
      then entry n.indirect (i - 3)
      else if ltb i 16515
      then chain (entry n.dindirect0 ((i - 131) / 128)) (λ b. entry b ((i - 131) % 128))
      else if ltb i 32899
      then chain (entry n.dindirect1 ((i - 16515) / 128)) (λ b. entry b ((i - 16515) % 128))
      else none

module _ (B : BlockStore) (law : IsBlockStore B) (sb : Superblock) where
  open law use {IsOk, contents}

  -- The result is what the reference gives.
  abbrev pub Gives : Option ℕ → B.State → Ret ℕ × B.State → Type 0
  Gives o s r = Looks B law sb (λ b. o ≡ some b) s r

  or_enoent-Gives : (b : ℕ) (s : B.State) → IsOk s → Gives (nonzero b) s (or_enoent B sb b s)
  unfolding or_enoent fail pure
  or_enoent-Gives b s h = elim (Bool-cases (b == 0)) [
    | inl zero_b ↦ rw zero_b h
    | inr is_b ↦ rw is_b (h, refl, refl)
  ]

  pointer-Gives :
      (b i : ℕ) (s : B.State) → IsOk s → Gives (entry sb (contents s) b i) s (pointer B sb b i s)
  unfolding pointer
  pointer-Gives b i s h = elim (Bool-cases (b == 0)) [
    | inl zero_b ↦ unfold fail in rw zero_b h
    | inr is_b ↦ rw is_b (
        bind-Looks B law sb (λ bs. bs ≡ stored sb (contents s) b)
          (λ x. nonzero (word32 (stored sb (contents s) b) (i * 4)) ≡ some x) s
          (recover eio (read_data_block B sb b) s) (λ bs. or_enoent B sb (word32 bs (i * 4)))
          (recover-Looks B law sb (λ bs. bs ≡ stored sb (contents s) b) s eio
            (read_data_block B sb b) (read_data_block-Looks B law sb b s h))
          (λ bs t h' same q.
            rw (ap (λ (x : List ℕ). word32 x (i * 4)) q)
              (or_enoent-Gives (word32 (stored sb (contents s) b) (i * 4)) t h')))
  ]

  abbrev pointers_in_turn : (d i j : ℕ) → Exec B.State ℕ
  pointers_in_turn d i j = pointer B sb d i >>= λ level1. pointer B sb level1 j

  -- Two pointers in turn.
  chain-Gives :
      (d i j : ℕ) (s : B.State)
      → IsOk s
      → Gives
          (chain (entry sb (contents s) d i) (λ b. entry sb (contents s) b j))
          s
          (pointers_in_turn d i j s)
  chain-Gives d i j s h =
      bind-Looks B law sb (λ b. entry sb (contents s) d i ≡ some b)
        (λ x. chain (entry sb (contents s) d i) (λ b. entry sb (contents s) b j) ≡ some x) s
        (pointer B sb d i s) (λ level1. pointer B sb level1 j) (pointer-Gives d i s h)
        (λ b t h' same q. rw q (
          subst (λ (c : ℕ → List ℕ). Gives (entry sb c b j) t (pointer B sb b j t)) same
            (pointer-Gives b j t h')))

  double_indirect-Gives :
      (d e i : ℕ) (s : B.State)
      → IsOk s
      → Gives
          (if ltb i 16384
            then chain (entry sb (contents s) d (i / 128)) (λ b. entry sb (contents s) b (i % 128))
            else if ltb (i - 16384) 16384
            then chain
                (entry sb (contents s) e ((i - 16384) / 128))
                (λ b. entry sb (contents s) b ((i - 16384) % 128))
            else none)
          s
          (double_indirect B sb (d ∷ e ∷ []) i s)
  unfolding double_indirect fail
  double_indirect-Gives d e i s h = elim (Bool-cases (ltb i 16384)) [
    | inl in_first ↦ rw in_first (chain-Gives d (i / 128) (i % 128) s h)
    | inr later ↦ rw later (elim (Bool-cases (ltb (i - 16384) 16384)) [
      | inl in_second ↦ rw in_second (chain-Gives e ((i - 16384) / 128) ((i - 16384) % 128) s h)
      | inr beyond ↦ rw beyond h
    ])
  ]

  -- get_blocknum_for_offset agrees with the map of a file, described apart from the code: if it
  -- gives a block number, then it is the one that the map has for this part of the file, be it
  -- direct, indirect or double indirect, and no block is changed. It does not crash.
  pub get_blocknum_for_offset-Gives :
      (n : Inode) (i : ℕ) (s : B.State)
      → IsOk s
      → Gives (block_of sb (contents s) n i) s (get_blocknum_for_offset B sb n i s)
  unfolding get_blocknum_for_offset single_indirect block_of
  get_blocknum_for_offset-Gives n i s h = elim (Bool-cases (ltb i 3)) [
    | inl is_direct ↦ rw is_direct (or_enoent-Gives (get_or (direct n) i 0) s h)
    | inr far ↦ rw far (elim (Bool-cases (ltb (i - 3) 128)) [
      | inl single ↦
          let t : ltb i 131 ≡ true = ground arith in
          rw (single, t) (pointer-Gives n.indirect (i - 3) s h)
      | inr double ↦
          let t : ltb i 131 ≡ false = ground arith in
          let e : (i - 3) - 128 ≡ i - 131 = omega arith in
          let e2 : (i - 131) - 16384 ≡ i - 16515 = omega arith in
          let t1 : ltb (i - 131) 16384 ≡ ltb i 16515 = ground arith in
          let t2 : ltb (i - 16515) 16384 ≡ ltb i 32899 = ground arith in
          rw (double, t, e, sym t1, sym t2, sym e2)
            (double_indirect-Gives n.dindirect0 n.dindirect1 (i - 131) s h)
    ])
  ]
