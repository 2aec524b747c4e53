-- ===== src/Ktfs/Files/Reads.antt =====
-- What `ktfs_readat` returns, in terms of the blocks of the file.
use sp25_ece391_group.Base.{
  ℕ, zero, suc, ◌+◌, ◌-◌, ◌*◌, ◌/◌, ◌%◌, ◌^◌, ◌≤◌, ◌<◌, ◌≡◌, refl, sym, ap, subst, ◌∙◌, inl, inr,
  true, Option, some, List, ◌++◌, pos, take, drop, length, get_elem?, eio, ◌==◌, ltb, leb,
  if◌then◌else◌, min, arith, Bool-cases, length-append, length-take, length-drop,
}
use sp25_ece391_group.Exec.{Exec, pure, recover, ◌>>=◌}
use sp25_ece391_group.Memio.Laws.{
  get_elem?-append_left, get_elem?-append_right, get_elem?-take, get_elem?-drop,
}
use sp25_ece391_group.Ktfs.{Superblock, Inode, KtfsFile, file_in_use, u16, u32, u64}
use sp25_ece391_group.Ktfs.Store.{BlockStore, IsBlockStore}
use sp25_ece391_group.Ktfs.Inodes.{read_inode, read_data_block}
use sp25_ece391_group.Ktfs.Inodes.Laws.{
  IsLayout, inode_of, stored, Looks, recover-Looks, bind-Looks, read_inode-Looks,
  read_data_block-Looks,
}
use sp25_ece391_group.Ktfs.Blocks.{get_blocknum_for_offset}
use sp25_ece391_group.Ktfs.Blocks.Laws.{chain, block_of, get_blocknum_for_offset-Gives}
use sp25_ece391_group.Ktfs.Files.{to_copy, cut, read_loop, readat}

-- Byte `p` of a file, if there is a block for it.
unfoldable pub file_byte : Superblock → (ℕ → List ℕ) → Inode → (p : ℕ) → Option ℕ
file_byte sb blocks n p =
    chain (block_of sb blocks n (p / 512)) (λ b. get_elem? (stored sb blocks b) (p % 512))

-- `bs` are the `n` bytes of the file from byte `p` on.
pub record Part (sb : Superblock) (blocks : ℕ → List ℕ) (inode : Inode) (p n : ℕ) (bs : List ℕ)
    : Type 0 where
  pub size : length bs ≡ n
  pub bytes : (k : ℕ) → k < n → get_elem? bs k ≡ file_byte sb blocks inode (p + k)

-- The bytes of one block, and those of the rest.
Part-append :
    (sb : Superblock) (blocks : ℕ → List ℕ) (inode : Inode) (p to n b : ℕ) (more : List ℕ)
    → block_of sb blocks inode (p / 512) ≡ some b
    → length (stored sb blocks b) ≡ 512
    → p % 512 + to ≤ 512
    → Part sb blocks inode (p + to) n more
    → Part sb blocks inode p (to + n) (take to (drop (p % 512) (stored sb blocks b)) ++ more)
unfolding file_byte
Part-append sb blocks inode p to n b more has whole fits part = record {
  size = omega (arith, length-append here more, length_here, part.size);
  bytes = λ k lt. elim (Bool-cases (ltb k to)) [
    | inl inside ↦
        let in_block : (p + k) / 512 ≡ p / 512 = ground arith in
        let place : p % 512 + k ≡ (p + k) % 512 = ground arith in
        get_elem?-append_left here more k (ground (arith, length_here))
        ∙ get_elem?-take (drop (p % 512) (stored sb blocks b)) to k (ground arith)
        ∙ get_elem?-drop (stored sb blocks b) (p % 512) k
        ∙ ap (get_elem? (stored sb blocks b)) place
        ∙ sym (
            ap (λ (o : Option ℕ). chain o (λ b. get_elem? (stored sb blocks b) ((p + k) % 512)))
              (ap (block_of sb blocks inode) in_block ∙ has))
    | inr behind ↦
        let ge : to ≤ k = ground arith in
        get_elem?-append_right here more k (omega (arith, length_here))
        ∙ ap (get_elem? more) (omega (arith, length_here))
        ∙ part.bytes (k - to) (omega arith)
        ∙ ap (file_byte sb blocks inode) (omega arith)
  ];
}
  where
    here : List ℕ
    here = take to (drop (p % 512) (stored sb blocks b))

    length_here : length here ≡ to
    length_here = omega (
      arith,
      length-take to (drop (p % 512) (stored sb blocks b)),
      length-drop (p % 512) (stored sb blocks b),
      whole,
    )

pub to_copy_lem :
    (cur left : ℕ)
    → 0 < left
    → left < 2 ^ 32
    → (0 < to_copy cur left) × (to_copy cur left ≤ left) × (cur % 512 + to_copy cur left ≤ 512)
unfolding to_copy
to_copy_lem cur left some_left small =
    let e : u32 left ≡ left = omega arith in
    rw e (elim (Bool-cases (ltb left (512 - cur % 512))) [
      | inl t ↦ rw t (omega arith, omega arith, ground arith)
      | inr f ↦ rw f (omega arith, ground arith, omega arith)
    ])

cut_lem :
    (size start n : ℕ)
    → start < size
    → size < 2 ^ 32
    → n < 2 ^ 63
    → (if ltb size (u64 (start + n)) then size - start else n) ≡ min n (size - start)
cut_lem size start n lt small req =
    let e : u64 (start + n) ≡ start + n = omega arith in
    rw e (elim (Bool-cases (ltb size (start + n))) [
      | inl t ↦ rw t (ground arith)
      | inr f ↦ rw f (ground arith)
    ])

module _ (B : BlockStore) (law : IsBlockStore B) (sb : Superblock) where
  open law use {IsOk, contents}

  stored-whole : (s : B.State) (b : ℕ) → IsOk s → length (stored sb (contents s) b) ≡ 512
  unfolding stored
  stored-whole s b h = law.whole s _ h

  abbrev round : Inode → (cur to : ℕ) → Exec B.State (List ℕ) → Exec B.State (List ℕ)
  round inode cur to rest = get_blocknum_for_offset B sb inode (cur / 512) >>= λ phys.
      recover eio (read_data_block B sb phys) >>= λ blkbuf.
      rest >>= λ more. pure (take to (drop (cur % 512) blkbuf) ++ more)

  -- One round of the loop, and then the rest.
  round-Looks :
      (inode : Inode) (cur to n : ℕ) (rest : Exec B.State (List ℕ)) (s : B.State)
      → cur % 512 + to ≤ 512
      → IsOk s
      → ((t : B.State)
          → IsOk t
          → Looks B law sb (Part sb (contents t) inode (cur + to) n) t (rest t))
      → Looks B law sb (Part sb (contents s) inode cur (to + n)) s (round inode cur to rest s)
  unfolding pure
  round-Looks inode cur to n rest s fits h go =
      bind-Looks B law sb (λ b. block_of sb (contents s) inode (cur / 512) ≡ some b) goal s
        (get_blocknum_for_offset B sb inode (cur / 512) s) _
        (get_blocknum_for_offset-Gives B law sb inode (cur / 512) s h)
        (λ b t ht same_t has.
          bind-Looks B law sb (λ bs. bs ≡ stored sb (contents s) b) goal t
            (recover eio (read_data_block B sb b) t) _
            (subst
              (λ (c : ℕ → List ℕ).
                Looks B law sb (λ bs. bs ≡ stored sb c b) t
                  (recover eio (read_data_block B sb b) t))
              same_t
              (recover-Looks B law sb (λ bs. bs ≡ stored sb (contents t) b) t eio
                (read_data_block B sb b) (read_data_block-Looks B law sb b t ht)))
            (λ bs u hu same_u q.
              bind-Looks B law sb (Part sb (contents s) inode (cur + to) n) goal u (rest u) _
                (subst
                  (λ (c : ℕ → List ℕ). Looks B law sb (Part sb c inode (cur + to) n) u (rest u))
                  (same_u ∙ same_t) (go u hu))
                (λ more v hv same_v part. (
                  hv,
                  refl,
                  subst (λ (x : List ℕ). goal (take to (drop (cur % 512) x) ++ more)) (sym q)
                      (Part-append sb (contents s) inode cur to n b more has (stored-whole s b h)
                        fits part),
                ))))
    where
      goal : List ℕ → Type 0
      goal bs = Part sb (contents s) inode cur (to + n) bs

  -- With fuel for each byte that is left the loop does not crash: it gives the bytes that are left.
  read_loop-Looks :
      (fuel : ℕ) (inode : Inode) (start len total : ℕ) (s : B.State)
      → len - total < fuel
      → total ≤ len
      → start + len < 2 ^ 32
      → IsOk s
      → Looks B law sb
          (Part sb (contents s) inode (start + total) (len - total))
          s
          (read_loop B sb fuel inode start len total s)
  unfolding read_loop
  read_loop-Looks zero inode start len total s enough le small h = absurd (omega arith)
  read_loop-Looks (suc fuel) inode start len total s enough le small h =
      elim (Bool-cases (leb len total)) [
        | inl finished ↦
            unfold pure in
            rw finished
              (h, refl, record { size = ground arith; bytes = λ k lt. absurd (ground arith) })
        | inr more ↦
            let cur : u64 (start + total) ≡ start + total = omega arith in
            let idx : u32 ((start + total) / 512) ≡ (start + total) / 512 = omega arith in
            let lt : total < len = ground arith in
            let (some_bytes, within, fits) =
              to_copy_lem (start + total) (len - total) (omega arith) (omega arith) in
            rw (more, cur, idx)
              (subst
                (λ (n : ℕ). Looks B law sb (Part sb (contents s) inode (start + total) n) s (
                  round inode (start + total) (to_copy (start + total) (len - total))
                    (read_loop B sb fuel inode start len
                      (total + to_copy (start + total) (len - total)))
                    s))
                (omega arith)
                (round-Looks inode (start + total) (to_copy (start + total) (len - total))
                  (len - (total + to_copy (start + total) (len - total)))
                  (read_loop B sb fuel inode start len
                    (total + to_copy (start + total) (len - total)))
                  s fits h
                  (λ t ht.
                    subst
                      (λ (p : ℕ).
                        Looks B law sb
                          (Part sb (contents t) inode p
                            (len - (total + to_copy (start + total) (len - total))))
                          t
                          (read_loop B sb fuel inode start len
                            (total + to_copy (start + total) (len - total)) t))
                      (omega arith)
                      (read_loop-Looks fuel inode start len
                        (total + to_copy (start + total) (len - total)) t (omega arith)
                        (omega arith) small ht))))
      ]

  from_start :
      (inode : Inode) (start len : ℕ) (t : B.State)
      → start + len < 2 ^ 32
      → IsOk t
      → Looks B law sb
          (Part sb (contents t) inode start len)
          t
          (read_loop B sb (len + 1) inode start len 0 t)
  from_start inode start len t small h =
      let at : start + 0 ≡ start = omega arith in
      let all : len - 0 ≡ len = omega arith in
      subst
        (λ (p : ℕ).
          Looks B law sb (Part sb (contents t) inode p len) t
            (read_loop B sb (len + 1) inode start len 0 t))
        at
        (subst
          (λ (n : ℕ).
            Looks B law sb (Part sb (contents t) inode (start + 0) n) t
              (read_loop B sb (len + 1) inode start len 0 t))
          all (read_loop-Looks (len + 1) inode start len 0 t (omega arith) (omega arith) small h))

  -- For a sound image, an open file with a size below 4 GiB, an inode number of 16 bits in range
  -- and a request of less than 2^63 bytes, ktfs_readat does not crash: its loop ends, and if it
  -- succeeds then it returns the bytes of the file from start on, as many as were asked for or as
  -- there are up to the end. It changes no block then.
  pub readat-Looks :
      (file : KtfsFile) (start n : ℕ) (s : B.State)
      → IsLayout sb
      → IsOk s
      → file.flags ≡ file_in_use
      → file.size < 2 ^ 32
      → file.inode_num < 2 ^ 16
      → file.inode_num < sb.inode_block_count * 16
      → n < 2 ^ 63
      → Looks B law sb
          (Part sb
            (contents s)
            (inode_of sb (contents s) file.inode_num)
            start
            (min n (file.size - start)))
          s
          (readat B sb true file start (pos n) s)
  unfolding readat cut
  readat-Looks file start n s lay h in_use small inum range req =
      let flag : (file.flags == file_in_use) ≡ true = ground arith in
      elim (Bool-cases (leb file.size start)) [
        | inl beyond ↦
            let none_left : min n (file.size - start) ≡ 0 = ground arith in
            unfold pure in
            rw (flag, beyond, none_left)
              (h, refl, record { size = refl; bytes = λ k lt. absurd (omega arith) })
        | inr inside ↦
            let lt : start < file.size = ground arith in
            let number : u16 file.inode_num ≡ file.inode_num = omega arith in
            let size : (if ltb file.size (u64 (start + n)) then file.size - start else n)
                ≡ min n (file.size - start) =
              cut_lem file.size start n lt small req in
            rw (flag, inside, number, size)
              (bind-Looks B law sb (λ i. i ≡ inode_of sb (contents s) file.inode_num)
                (Part sb (contents s) (inode_of sb (contents s) file.inode_num) start
                  (min n (file.size - start)))
                s (read_inode B sb file.inode_num s) _
                (read_inode-Looks B law sb file.inode_num s lay range h)
                (λ i t ht same q.
                  subst
                    (λ (j : Inode).
                      Looks B law sb (Part sb (contents s) j start (min n (file.size - start))) t (
                        read_loop B sb (min n (file.size - start) + 1) i start
                          (min n (file.size - start)) 0 t))
                    q
                    (subst
                      (λ (c : ℕ → List ℕ).
                        Looks B law sb (Part sb c i start (min n (file.size - start))) t (
                          read_loop B sb (min n (file.size - start) + 1) i start
                            (min n (file.size - start)) 0 t))
                      same (from_start i start (min n (file.size - start)) t (omega arith) ht))))
      ]
