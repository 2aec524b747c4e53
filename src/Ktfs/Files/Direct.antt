-- ===== src/Ktfs/Files/Direct.antt =====
-- The bytes of a file in its three direct blocks, and those after a write to one of its blocks.
use sp25_ece391_group.Base.{
  ℕ, ◌+◌, ◌-◌, ◌/◌, ◌%◌, ◌^◌, ◌≤◌, ◌<◌, ◌≡◌, ◌≢◌, refl, sym, ap, ◌∙◌, inl, inr, true, false, ◌&&◌,
  Option, List, take, drop, length, get_or, get_elem?, ◌==◌, ltb, leb, if◌then◌else◌, arith,
  Bool-cases, length-take, length-drop,
}
use sp25_ece391_group.Memio.{memcpy_at}
use sp25_ece391_group.Memio.Laws.{get_elem?-memcpy_at, get_elem?-take, get_elem?-drop}
use sp25_ece391_group.Ktfs.{Superblock, Inode, data_block}
use sp25_ece391_group.Ktfs.Inodes.Laws.{stored}
use sp25_ece391_group.Ktfs.Blocks.{direct}
use sp25_ece391_group.Ktfs.Blocks.Laws.{nonzero, chain, block_of}
use sp25_ece391_group.Ktfs.Files.Reads.{file_byte}

-- The block where data block `b` is.
abbrev pub place : Superblock → ℕ → ℕ
place sb b = data_block sb b % 2 ^ 23

-- No two direct blocks of the file are the same block.
abbrev pub Apart : Superblock → Inode → Type 0
Apart sb n =
    (i j : ℕ)
    → i < 3
    → j < 3
    → i ≢ j
    → get_or (direct n) i 0 ≢ 0
    → get_or (direct n) j 0 ≢ 0
    → place sb (get_or (direct n) i 0) ≢ place sb (get_or (direct n) j 0)

abbrev block_byte : Superblock → (ℕ → List ℕ) → (b o : ℕ) → Option ℕ
block_byte sb blocks b o = chain (nonzero b) (λ b. get_elem? (blocks (place sb b)) o)

file_byte-direct :
    (sb : Superblock) (blocks : ℕ → List ℕ) (n : Inode) (p : ℕ)
    → p < 1536
    → file_byte sb blocks n p ≡ block_byte sb blocks (get_or (direct n) (p / 512) 0) (p % 512)
unfolding file_byte block_of stored
file_byte-direct sb blocks n p lt = let t : ltb (p / 512) 3 ≡ true = ground arith in rw t refl

block_byte-nonzero :
    (sb : Superblock) (blocks : ℕ → List ℕ) (b o : ℕ)
    → b ≢ 0
    → block_byte sb blocks b o ≡ get_elem? (blocks (place sb b)) o
block_byte-nonzero sb blocks b o ne = let t : (b == 0) ≡ false = ground arith in rw t refl

-- The bytes of the file after a write of `to` bytes of `buf` to one of its blocks.
module _ (sb : Superblock) (old new : ℕ → List ℕ) (n : Inode) (start total to : ℕ) (buf : List ℕ)
    (apart : Apart sb n) where
  abbrev pub cur : ℕ
  cur = start + total

  abbrev pub at_cur : ℕ
  at_cur = get_or (direct n) (cur / 512) 0

  abbrev pub chunk : List ℕ
  chunk = take to (drop total buf)

  length-chunk : total + to ≤ length buf → length chunk ≡ to
  length-chunk fits = omega (arith, length-take to (drop total buf), length-drop total buf)

  -- A byte of the block that was written.
  chunk_byte :
      (p : ℕ) (o : Option ℕ)
      → p / 512 ≡ cur / 512
      → total + to ≤ length buf
      → cur % 512 + to ≤ 512
      → (if ltb (p % 512) (cur % 512)
          then o
          else if ltb (p % 512) (cur % 512 + length chunk)
          then get_elem? chunk (p % 512 - cur % 512)
          else o)
        ≡ (if leb cur p && ltb p (cur + to) then get_elem? buf (p - start) else o)
  chunk_byte p o e fits within =
      let size : length chunk ≡ to = length-chunk fits in
      elim (Bool-cases (ltb p cur)) [
        | inl before ↦
            let t : ltb (p % 512) (cur % 512) ≡ true = ground arith in
            let u : (leb cur p && ltb p (cur + to)) ≡ false = ground arith in rw (t, u) refl
        | inr from ↦ elim (Bool-cases (ltb p (cur + to))) [
          | inl inside ↦
              let t : ltb (p % 512) (cur % 512) ≡ false = ground arith in
              let v : ltb (p % 512) (cur % 512 + length chunk) ≡ true = ground arith in
              let u : (leb cur p && ltb p (cur + to)) ≡ true = ground arith in
              rw (t, v, u)
                (get_elem?-take (drop total buf) to (p % 512 - cur % 512) (ground arith)
                  ∙ get_elem?-drop buf total (p % 512 - cur % 512)
                  ∙ ap (get_elem? buf) (ground arith))
          | inr behind ↦
              let t : ltb (p % 512) (cur % 512) ≡ false = ground arith in
              let v : ltb (p % 512) (cur % 512 + length chunk) ≡ false = ground arith in
              let u : (leb cur p && ltb p (cur + to)) ≡ false = ground arith in rw (t, v, u) refl
        ]
      ]

  -- What the write of the chunk to its block leaves.
  pub record Written : Type 0 where
    pub is_block : at_cur ≢ 0
    pub size : length (old (place sb at_cur)) ≡ 512
    pub own : new (place sb at_cur) ≡ memcpy_at (old (place sb at_cur)) (cur % 512) chunk
    pub other : (j : ℕ) → j ≢ place sb at_cur → new j ≡ old j

  pub written_byte :
      (p : ℕ)
      → p < 1536
      → cur < 1536
      → total + to ≤ length buf
      → cur % 512 + to ≤ 512
      → Written
      → file_byte sb new n p ≡ (
          if leb cur p && ltb p (cur + to) then get_elem? buf (p - start) else file_byte sb old n p)
  written_byte p lt cur_lt fits within w =
      file_byte-direct sb new n p lt ∙ elim (Bool-cases (p / 512 == cur / 512)) [
        | inl hit ↦
            let e : p / 512 ≡ cur / 512 = ground arith in
            let b : get_or (direct n) (p / 512) 0 ≡ at_cur =
              ap (λ (i : ℕ). get_or (direct n) i 0) e in
            ap (λ (x : ℕ). block_byte sb new x (p % 512)) b
            ∙ block_byte-nonzero sb new at_cur (p % 512) w.is_block
            ∙ ap (λ (x : List ℕ). get_elem? x (p % 512)) w.own
            ∙ get_elem?-memcpy_at (old (place sb at_cur)) (cur % 512) chunk (p % 512)
                (omega (arith, length-chunk fits, w.size))
            ∙ chunk_byte p (get_elem? (old (place sb at_cur)) (p % 512)) e fits within
            ∙ ap
                (λ (o : Option ℕ).
                  if leb cur p && ltb p (cur + to) then get_elem? buf (p - start) else o)
                (sym (
                  file_byte-direct sb old n p lt
                  ∙ ap (λ (x : ℕ). block_byte sb old x (p % 512)) b
                  ∙ block_byte-nonzero sb old at_cur (p % 512) w.is_block))
        | inr miss ↦
            let ne : p / 512 ≢ cur / 512 = ground arith in
            let t : (leb cur p && ltb p (cur + to)) ≡ false = outside p ne within in
            rw t (
              unchanged (p / 512) (p % 512) (omega arith) (omega arith) ne w
              ∙ sym (file_byte-direct sb old n p lt))
      ]
    where
      outside :
          (p : ℕ)
          → p / 512 ≢ cur / 512
          → cur % 512 + to ≤ 512
          → (leb cur p && ltb p (cur + to)) ≡ false
      outside p ne within = ground arith

      unchanged :
          (i o : ℕ)
          → i < 3
          → cur / 512 < 3
          → i ≢ cur / 512
          → Written
          → block_byte sb new (get_or (direct n) i 0) o
            ≡ block_byte sb old (get_or (direct n) i 0) o
      unchanged i o lt lt2 ne w = elim (Bool-cases (get_or (direct n) i 0 == 0)) [
        | inl none_there ↦ rw none_there refl
        | inr there ↦
            let is : get_or (direct n) i 0 ≢ 0 = ground arith in
            rw there (
              ap (λ (x : List ℕ). get_elem? x o)
                (w.other (place sb (get_or (direct n) i 0))
                  (apart i (cur / 512) lt lt2 ne is w.is_block)))
      ]
