-- ===== src/Ktfs/Files/Writes.antt =====
-- What the loop of `ktfs_writeat` does to a file whose bytes are in its three direct blocks, which are
-- all that this kernel gives to a file.
use sp25_ece391_group.Base.{
  ℕ, zero, suc, ◌+◌, ◌-◌, ◌/◌, ◌%◌, ◌≤◌, ◌<◌, ◌≡◌, ◌≢◌, refl, sym, ap, subst, ◌∙◌, inl, inr, Bool,
  true, false, ◌&&◌, Option, none, some, List, take, drop, length, get_or, get_elem?, ◌==◌, ltb,
  leb, if◌then◌else◌, arith, Bool-cases, length-take, length-drop,
}
use sp25_ece391_group.Exec.{Exec, Post, pure, continue-Post, weaken-Post, ◌>>=◌}
use sp25_ece391_group.Memio.{memcpy_at}
use sp25_ece391_group.Memio.Laws.{length-memcpy_at}
use sp25_ece391_group.Ktfs.{Superblock, Inode, blksz, u32, u64, position, data_block}
use sp25_ece391_group.Ktfs.Store.{BlockStore, IsBlockStore, KeepsSize, Accessed, or_same}
use sp25_ece391_group.Ktfs.Inodes.Laws.{Same, position-aligned, position-block}
use sp25_ece391_group.Ktfs.Blocks.{direct, get_blocknum_for_offset}
use sp25_ece391_group.Ktfs.Blocks.Laws.{nonzero, block_of, get_blocknum_for_offset-Gives}
use sp25_ece391_group.Ktfs.Files.{to_copy, write_loop}
use sp25_ece391_group.Ktfs.Files.Reads.{file_byte, to_copy_lem}
use sp25_ece391_group.Ktfs.Files.Direct.{place, Apart, Written, written_byte}

join_ranges :
    (x y : Option ℕ) (p a b c : ℕ)
    → a ≤ b
    → b ≤ c
    → (if leb b p && ltb p c then x else if leb a p && ltb p b then x else y)
      ≡ (if leb a p && ltb p c then x else y)
join_ranges x y p a b c ab bc = ground arith

-- A block number that is found is that of the direct block.
found_direct :
    (sb : Superblock) (blocks : ℕ → List ℕ) (n : Inode) (i b : ℕ)
    → i < 3
    → block_of sb blocks n i ≡ some b
    → (get_or (direct n) i 0 ≢ 0) × (get_or (direct n) i 0 ≡ b)
unfolding block_of
found_direct sb blocks n i b lt h =
    let t : ltb i 3 ≡ true = ground arith in
    let h' : nonzero (get_or (direct n) i 0) ≡ some b = rw t at h in
    nonzero_some (get_or (direct n) i 0) b h'
  where
    nonzero_some : (a b : ℕ) → nonzero a ≡ some b → (a ≢ 0) × (a ≡ b)
    nonzero_some a b h = elim (Bool-cases (a == 0)) [
      | inl z ↦ let e : none ≡ some b = rw z at h in cc
      | inr ne ↦ let e : some a ≡ some b = rw ne at h in (ground arith, cc)
    ]

module _ (B : BlockStore) (law : IsBlockStore B) (sb : Superblock) (n : Inode) (apart : Apart sb n)
    (start : ℕ) (buf : List ℕ) (fits : start + length buf ≤ 1536) where
  open law use {IsOk, contents}

  -- The bytes of the file are those of `buf` from byte `total` of it on, and else as they were.
  abbrev Wrote : (old : ℕ → List ℕ) (total : ℕ) → ℕ → B.State → Type 0
  Wrote old total count t =
      IsOk t
      × (count ≡ length buf)
      × ((p : ℕ)
          → p < 1536
          → file_byte sb (contents t) n p ≡ (
              if leb (start + total) p && ltb p (start + length buf)
              then get_elem? buf (p - start)
              else file_byte sb old n p))

  put_chunk : (total to : ℕ) → List ℕ → Option (List ℕ)
  unfolding memcpy_at
  put_chunk total to bs = some (memcpy_at bs ((start + total) % 512) (take to (drop total buf)))

  put_chunk-KeepsSize :
      (total to : ℕ)
      → total + to ≤ length buf
      → (start + total) % 512 + to ≤ 512
      → KeepsSize (put_chunk total to)
  unfolding put_chunk
  put_chunk-KeepsSize total to in_buf within bs size =
      length-memcpy_at bs ((start + total) % 512) (take to (drop total buf))
        (omega (arith, length-take to (drop total buf), length-drop total buf))
      ∙ size

  accessed-Written :
      (s t : B.State) (total to b : ℕ) (bs : List ℕ)
      → IsOk s
      → get_or (direct n) ((start + total) / 512) 0 ≢ 0
      → get_or (direct n) ((start + total) / 512) 0 ≡ b
      → Accessed (contents s) (contents t) (place sb b) (put_chunk total to) bs
      → Written sb (contents s) (contents t) n start total to buf apart
  unfolding put_chunk
  accessed-Written s t total to b bs hs is_block q acc =
      let here : Accessed (contents s) (contents t) (place sb at_here) (put_chunk total to) bs =
        subst (λ (x : ℕ). Accessed (contents s) (contents t) (place sb x) (put_chunk total to) bs)
          (sym q) acc in
      record {
        is_block = is_block;
        size = law.whole s (place sb at_here) hs;
        own = own here;
        other = λ j ne.
            let t : (j == place sb at_here) ≡ false = ground arith in here.changed j ∙ (rw t refl);
      }
    where
      at_here : ℕ
      at_here = get_or (direct n) ((start + total) / 512) 0

      own :
          Accessed (contents s) (contents t) (place sb at_here) (put_chunk total to) bs
          → contents t (place sb at_here)
            ≡ memcpy_at
                (contents s (place sb at_here))
                ((start + total) % 512)
                (take to (drop total buf))
      own here =
          let hit : (place sb at_here == place sb at_here) ≡ true = ground arith in
          here.changed (place sb at_here)
          ∙ ap
              (λ (t : Bool).
                if t then or_same bs (put_chunk total to bs) else contents s (place sb at_here))
              hit
          ∙ ap (λ (x : List ℕ). memcpy_at x ((start + total) % 512) (take to (drop total buf)))
              here.found

  round-Wrote :
      (total to b : ℕ) (rest : Exec B.State ℕ) (s : B.State)
      → IsOk s
      → start + total < 1536
      → total + to ≤ length buf
      → (start + total) % 512 + to ≤ 512
      → block_of sb (contents s) n ((start + total) / 512) ≡ some b
      → ((t : B.State) → IsOk t → Post (Wrote (contents t) (total + to)) (λ t. IsOk t) (rest t))
      → Post
          (Wrote (contents s) total)
          (λ t. IsOk t)
          ((B.with_block (position (data_block sb b)) (put_chunk total to) >>= λ _. rest) s)
  round-Wrote total to b rest s hs lt in_buf within has ih =
      let (is_block, q) =
        found_direct sb (contents s) n ((start + total) / 512) b (omega arith) has in
      continue-Post
        (λ bs t.
          IsOk t
          × Accessed (contents s) (contents t) (position (data_block sb b) / blksz)
              (put_chunk total to) bs)
        (Wrote (contents s) total) (λ t. IsOk t)
        (B.with_block (position (data_block sb b)) (put_chunk total to) s) (λ bs. rest)
        (law.access (position (data_block sb b)) (put_chunk total to) s hs
          (position-aligned (data_block sb b)) (put_chunk-KeepsSize total to in_buf within))
        (λ bs t (ht, acc).
          weaken-Post (Wrote (contents t) (total + to)) (Wrote (contents s) total) (λ u. IsOk u)
            (rest t) (ih t ht)
            (λ count u (hu, all, bytes). (
              hu,
              all,
              λ p ltp.
                  bytes p ltp
                  ∙ ap
                      (λ (o : Option ℕ).
                        if leb (start + (total + to)) p && ltb p (start + length buf)
                        then get_elem? buf (p - start)
                        else o)
                      (written_byte sb (contents s) (contents t) n start total to buf apart p ltp lt
                        in_buf within
                        (accessed-Written s t total to b bs hs is_block q (
                          subst
                            (λ (x : ℕ).
                              Accessed (contents s) (contents t) x (put_chunk total to) bs)
                            (position-block (data_block sb b)) acc)))
                  ∙ joined (get_elem? buf (p - start)) (file_byte sb (contents s) n p) p,
            )))
    where
      joined :
          (x y : Option ℕ) (p : ℕ)
          → (if leb (start + (total + to)) p && ltb p (start + length buf)
              then x
              else if leb (start + total) p && ltb p (start + total + to)
              then x
              else y)
            ≡ (if leb (start + total) p && ltb p (start + length buf) then x else y)
      joined x y p =
          let e : start + (total + to) ≡ start + total + to = omega arith in
          rw e (
            join_ranges x y p (start + total) (start + total + to) (start + length buf)
              (omega arith) (omega arith))

  write_loop-Wrote :
      (fuel total : ℕ) (s : B.State)
      → length buf - total < fuel
      → total ≤ length buf
      → IsOk s
      → Post (Wrote (contents s) total) (λ t. IsOk t) (write_loop B sb fuel n start buf total s)
  unfolding write_loop put_chunk
  write_loop-Wrote zero total s enough le h = absurd (omega arith)
  write_loop-Wrote (suc fuel) total s enough le h = elim (Bool-cases (leb (length buf) total)) [
    | inl finished ↦
        unfold pure in
        rw finished (
          h,
          ground arith,
          λ p lt.
              let t : (leb (start + total) p && ltb p (start + length buf)) ≡ false =
                ground arith in
              rw t refl,
        )
    | inr more ↦
        let cur : u64 (start + total) ≡ start + total = omega arith in
        let idx : u32 ((start + total) / 512) ≡ (start + total) / 512 = omega arith in
        let lt : total < length buf = ground arith in
        let to : ℕ = to_copy (start + total) (length buf - total) in
        let (some_bytes, in_buf, within) =
          to_copy_lem (start + total) (length buf - total) (omega arith) (omega arith) in
        rw (more, cur, idx)
          (continue-Post
            (λ b t.
              IsOk t
              × Same (contents s) (contents t)
              × (block_of sb (contents s) n ((start + total) / 512) ≡ some b))
            (Wrote (contents s) total) (λ t. IsOk t)
            (get_blocknum_for_offset B sb n ((start + total) / 512) s) _
            (get_blocknum_for_offset-Gives B law sb n ((start + total) / 512) s h)
            (λ b t (ht, same, has).
              subst
                (λ (c : ℕ → List ℕ).
                  Post (Wrote c total) (λ u. IsOk u)
                    ((B.with_block (position (data_block sb b)) (put_chunk total to) >>= λ _.
                        write_loop B sb fuel n start buf (total + to))
                      t))
                same
                (round-Wrote total to b (write_loop B sb fuel n start buf (total + to)) t ht
                  (omega arith) (omega arith) within
                  (subst (λ (c : ℕ → List ℕ). block_of sb c n ((start + total) / 512) ≡ some b)
                    (sym same) has)
                  (λ u hu. write_loop-Wrote fuel (total + to) u (omega arith) (omega arith) hu))))
  ]

  -- For a file of which no two direct blocks are the same one, and a write that ends in its first
  -- 1536 bytes, the loop of ktfs_writeat ends and does not crash: if it succeeds then it has
  -- written the whole buffer, the file has the bytes of the buffer at its place, and all other
  -- bytes of the first 1536 of the file, those of its direct blocks, are as they were.
  pub write_loop-Bytes :
      (s : B.State)
      → IsOk s
      → Post
          (λ count t.
            IsOk t
            × (count ≡ length buf)
            × ((p : ℕ)
                → p < 1536
                → file_byte sb (contents t) n p ≡ (
                    if leb start p && ltb p (start + length buf)
                    then get_elem? buf (p - start)
                    else file_byte sb (contents s) n p)))
          (λ t. IsOk t)
          (write_loop B sb (length buf + 1) n start buf 0 s)
  write_loop-Bytes s h =
      let at : start + 0 ≡ start = omega arith in
      subst
        (λ (a : ℕ).
          Post
            (λ count t.
              IsOk t
              × (count ≡ length buf)
              × ((p : ℕ)
                  → p < 1536
                  → file_byte sb (contents t) n p ≡ (
                      if leb a p && ltb p (start + length buf)
                      then get_elem? buf (p - start)
                      else file_byte sb (contents s) n p)))
            (λ t. IsOk t) (write_loop B sb (length buf + 1) n start buf 0 s))
        at (write_loop-Wrote (length buf + 1) 0 s (omega arith) (omega arith) h)
