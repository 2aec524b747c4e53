-- ===== src/Ktfs/Names/Inums.antt =====
-- The search of `ktfs_create` for a free inode.
use sp25_ece391_group.Base.{
  ℕ, zero, suc, ◌+◌, ◌-◌, ◌*◌, ◌^◌, ◌≤◌, ◌<◌, ◌≡◌, sym, ap, ◌∙◌, inl, inr, Option, none, some, List,
  ◌==◌, leb, if◌then◌else◌, arith, Bool-cases,
}
use sp25_ece391_group.Exec.{Exec, Post, Tried, pure, fail, attempt, continue-Post, attempt-Post}
use sp25_ece391_group.Ktfs.{Superblock, Inode, u16}
use sp25_ece391_group.Ktfs.Store.{BlockStore, IsBlockStore}
use sp25_ece391_group.Ktfs.Inodes.{read_inode}
use sp25_ece391_group.Ktfs.Inodes.Laws.{IsLayout, inode_of, Same, read_inode-Looks}
use sp25_ece391_group.Ktfs.Names.{is_free, free_inode, total_inodes}

module _ (B : BlockStore) (law : IsBlockStore B) (sb : Superblock) where
  open law use {IsOk, contents}

  -- The number of an inode whose flags are 0.
  abbrev pub NoFlags : ℕ → B.State → Type 0
  NoFlags i t = IsOk t × (i < sb.inode_block_count * 16) × ((inode_of sb (contents t) i).flags ≡ 0)

  free_inode-NoFlags :
      (fuel total inum : ℕ) (s : B.State)
      → IsLayout sb
      → total ≡ sb.inode_block_count * 16
      → total < 2 ^ 16
      → inum ≤ total
      → total - inum < fuel
      → IsOk s
      → Post NoFlags (λ t. IsOk t) (free_inode B sb fuel total inum s)
  unfolding free_inode
  free_inode-NoFlags zero total inum s lay q small le enough h = absurd (omega arith)
  free_inode-NoFlags (suc fuel) total inum s lay q small le enough h =
      elim (Bool-cases (leb total inum)) [
        | inl none_left ↦ unfold fail in rw none_left h
        | inr more ↦
            let lt : inum < total = ground arith in
            let next : u16 (inum + 1) ≡ inum + 1 = omega arith in
            rw (more, next)
              (continue-Post
                (Tried
                  (λ n t.
                    IsOk t × Same (contents s) (contents t) × (n ≡ inode_of sb (contents s) inum))
                  (λ t. IsOk t))
                NoFlags (λ t. IsOk t) (attempt (read_inode B sb inum s)) _
                (attempt-Post
                  (λ n t.
                    IsOk t × Same (contents s) (contents t) × (n ≡ inode_of sb (contents s) inum))
                  (λ t. IsOk t) (read_inode B sb inum s)
                  (read_inode-Looks B law sb inum s lay (omega arith) h))
                (λ o t tried.
                  looked o t tried (free_inode B sb fuel total (inum + 1))
                    (λ u hu.
                      free_inode-NoFlags fuel total (inum + 1) u lay q small (omega arith)
                        (omega arith) hu)
                    (omega arith)))
      ]
    where
      looked :
          (o : Option Inode) (t : B.State)
          → Tried
              (λ n t. IsOk t × Same (contents s) (contents t) × (n ≡ inode_of sb (contents s) inum))
              (λ t. IsOk t)
              o
              t
          → (rest : Exec B.State ℕ) → ((u : B.State) → IsOk u → Post NoFlags (λ t. IsOk t) (rest u))
          → inum < sb.inode_block_count * 16
          → Post NoFlags (λ t. IsOk t) ((if is_free B sb o then pure inum else rest) t)
      looked none t ht rest ih lt = ih t ht
      looked (some n) t (ht, same, e) rest ih lt = elim (Bool-cases (n.flags == 0)) [
        | inl free ↦
            let z : n.flags ≡ 0 = ground arith in
            unfold pure in
            rw free (
              ht,
              lt,
              ap (λ (c : ℕ → List ℕ). (inode_of sb c inum).flags) same
                  ∙ ap (λ (i : Inode). i.flags) (sym e)
                  ∙ z,
            )
        | inr used ↦ rw used (ih t ht)
      ]

  -- For a sound image of less than 65536 inodes the search of ktfs_create, whose counter has 16
  -- bits, ends: it gives the number of an inode of the image whose flags are 0, which is the test
  -- of the code for a free one, or an error.
  pub free_inode-ends :
      (s : B.State)
      → IsLayout sb
      → sb.inode_block_count * 16 < 2 ^ 16
      → IsOk s
      → Post NoFlags (λ t. IsOk t) (free_inode B sb (2 ^ 16 + 1) (total_inodes B sb) 0 s)
  free_inode-ends s lay small h =
      let e : total_inodes B sb ≡ sb.inode_block_count * 16 = omega arith in
      free_inode-NoFlags (2 ^ 16 + 1) (total_inodes B sb) 0 s lay e (omega arith) (omega arith)
        (omega arith) h
