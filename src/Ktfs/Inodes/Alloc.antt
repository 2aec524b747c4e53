-- ===== src/Ktfs/Inodes/Alloc.antt =====
-- The bitmap of an image, and what `ktfs_alloc_data_block` does to it.
use sp25_ece391_group.Base.{
  ℕ, zero, suc, ◌+◌, ◌-◌, ◌/◌, ◌%◌, ◌≤◌, ◌<◌, ◌≡◌, ◌≢◌, refl, sym, ap, subst, ◌∙◌, inl, inr, Bool,
  true, false, List, length, ◌==◌, ltb, if◌then◌else◌, arith, Bool-cases, Ret,
}
use sp25_ece391_group.Exec.{Post, pure, fail, continue-Post, weaken-Post}
use sp25_ece391_group.Ktfs.{Superblock, blksz, data_base}
use sp25_ece391_group.Ktfs.Store.{BlockStore, IsBlockStore, KeepsSize, Accessed, or_same}
use sp25_ece391_group.Ktfs.Inodes.{
  bit_of, set_bit, bitmap_position, claim, alloc_from, alloc_data_block,
}
use sp25_ece391_group.Ktfs.Inodes.Bits.{bit_of-set_bit, length-set_bit}
use sp25_ece391_group.Ktfs.Inodes.Laws.{IsLayout, position-aligned, position-block}

-- Bit `b` of the bitmap, which starts in block 1.
unfoldable pub bit_at : (ℕ → List ℕ) → (b : ℕ) → ℕ
unfolding bit_of
bit_at blocks b = bit_of (blocks (1 + b / 4096)) (b % 4096)

-- Block `b` was the first free one from `idx` on, and it has become a used one: no other bit of the
-- bitmap has changed, and no other block than the one its bit is in.
pub record Claimed (sb : Superblock) (old new : ℕ → List ℕ) (idx b : ℕ) : Type 0 where
  pub from : idx ≤ b
  pub in_data : data_base sb ≤ b
  pub bound : b < sb.block_count
  pub free : bit_at old b ≡ 0
  pub first : (j : ℕ) → idx ≤ j → data_base sb ≤ j → j < b → bit_at old j ≢ 0
  pub marked : (j : ℕ) → bit_at new j ≡ (if j == b then 1 else bit_at old j)
  pub others : (i : ℕ) → i ≢ 1 + b / 4096 → new i ≡ old i

module _ (B : BlockStore) (law : IsBlockStore B) (sb : Superblock) where
  open law use {IsOk, contents}

  claim-KeepsSize : (off : ℕ) → KeepsSize (claim B sb off)
  claim-KeepsSize off bs n = elim (Bool-cases (bit_of bs off == 0)) [
    | inl c ↦ rw c (length-set_bit bs off ∙ n)
    | inr c ↦ rw c n
  ]

  -- What a look at a clear bit leaves: the bit set, and the rest as it was.
  claimed :
      (old new : ℕ → List ℕ) (idx : ℕ) (bs : List ℕ)
      → length bs ≡ 512
      → idx < sb.block_count
      → data_base sb ≤ idx
      → Accessed old new (1 + idx / 4096) (claim B sb (idx % 4096)) bs
      → bit_of bs (idx % 4096) ≡ 0
      → Claimed sb old new idx idx
  unfolding bit_at
  claimed old new idx bs size bound in_range acc clear = record {
    from = omega arith;
    in_data = in_range;
    bound = bound;
    free = ap (λ (x : List ℕ). bit_of x (idx % 4096)) (sym acc.found) ∙ clear;
    first = λ j a b c. absurd (omega arith);
    marked = λ j. elim (Bool-cases (1 + j / 4096 == 1 + idx / 4096)) [
      | inl hit ↦
          let e : 1 + j / 4096 ≡ 1 + idx / 4096 = ground arith in
          let q : (j % 4096 == idx % 4096) ≡ (j == idx) = same_place j e in
          ap (λ (i : ℕ). bit_of (new i) (j % 4096)) e
          ∙ ap (λ (x : List ℕ). bit_of x (j % 4096)) own
          ∙ bit_of-set_bit bs (idx % 4096) (j % 4096) (omega arith)
          ∙ ap (λ (t : Bool). if t then 1 else bit_of bs (j % 4096)) q
          ∙ ap (λ (x : List ℕ). if j == idx then 1 else bit_of x (j % 4096)) acc.found
          ∙ ap (λ (i : ℕ). if j == idx then 1 else bit_of (old i) (j % 4096)) (sym e)
      | inr miss ↦
          let ne : 1 + j / 4096 ≢ 1 + idx / 4096 = ground arith in
          let q : (j == idx) ≡ false = distinct j ne in
          rw q (ap (λ (x : List ℕ). bit_of x (j % 4096)) (other (1 + j / 4096) ne))
    ];
    others = other;
  }
    where
      own : new (1 + idx / 4096) ≡ set_bit bs (idx % 4096)
      own =
          let here : (1 + idx / 4096 == 1 + idx / 4096) ≡ true = ground arith in
          let t : (bit_of bs (idx % 4096) == 0) ≡ true = ground arith in
          acc.changed (1 + idx / 4096)
          ∙ ap
              (λ (t : Bool).
                if t then or_same bs (claim B sb (idx % 4096) bs) else old (1 + idx / 4096))
              here
          ∙ (rw t refl)

      other : (i : ℕ) → i ≢ 1 + idx / 4096 → new i ≡ old i
      other i ne =
          let miss : (i == 1 + idx / 4096) ≡ false = ground arith in acc.changed i ∙ (rw miss refl)

      same_place : (j : ℕ) → 1 + j / 4096 ≡ 1 + idx / 4096 → (j % 4096 == idx % 4096) ≡ (j == idx)
      same_place j e = elim (Bool-cases (j == idx)) [
        | inl same ↦ rw same (ground arith)
        | inr miss ↦
            let ne : j ≢ idx = ground arith in
            let ne' : j % 4096 ≢ idx % 4096 = λ q. ne (omega arith) in rw miss (ground arith)
      ]

      distinct : (j : ℕ) → 1 + j / 4096 ≢ 1 + idx / 4096 → (j == idx) ≡ false
      distinct j ne = elim (Bool-cases (j == idx)) [
        | inl same ↦ let e : j ≡ idx = ground arith in absurd (ne (ap (λ (x : ℕ). 1 + x / 4096) e))
        | inr miss ↦ miss
      ]

  -- And at a set bit: nothing has changed.
  passed :
      (old new : ℕ → List ℕ) (b : ℕ) (off : ℕ) (bs : List ℕ)
      → Accessed old new b (claim B sb off) bs
      → (bit_of bs off == 0) ≡ false
      → new ≡ old
  passed old new b off bs acc busy i j =
      let e : new j ≡ old j = acc.changed j ∙ elim (Bool-cases (j == b)) [
        | inl hit ↦ let q : j ≡ b = ground arith in rw (hit, busy) (acc.found ∙ ap old (sym q))
        | inr miss ↦ rw miss refl
      ] in
      e i

  Claimed-suc :
      (old new : ℕ → List ℕ) (idx b : ℕ)
      → (data_base sb ≤ idx → bit_at old idx ≢ 0)
      → Claimed sb old new (idx + 1) b
      → Claimed sb old new idx b
  Claimed-suc old new idx b busy c = record {
    from = omega (arith, c.from);
    in_data = c.in_data;
    bound = c.bound;
    free = c.free;
    first = λ j ge in_range lt. elim (Bool-cases (j == idx)) [
      | inl hit ↦
          let e : j ≡ idx = ground arith in
          subst (λ (x : ℕ). bit_at old x ≢ 0) (sym e) (busy (omega arith))
      | inr miss ↦ let ne : j ≢ idx = ground arith in c.first j (omega arith) in_range lt
    ];
    marked = c.marked;
    others = c.others;
  }

  abbrev Allocated : B.State → (idx : ℕ) → Ret ℕ × B.State → Type 0
  Allocated s idx r =
      Post (λ x t. IsOk t × Claimed sb (contents s) (contents t) idx (data_base sb + x))
        (λ t. IsOk t) r

  -- The state of the loop is passed on if nothing has changed and the bit of `idx` is of no use.
  again :
      (idx : ℕ) (s t : B.State) (r : Ret ℕ × B.State)
      → contents t ≡ contents s
      → (data_base sb ≤ idx → bit_at (contents s) idx ≢ 0)
      → Allocated t (idx + 1) r
      → Allocated s idx r
  again idx s t r same busy ih =
      weaken-Post
        (λ x u. IsOk u × Claimed sb (contents t) (contents u) (idx + 1) (data_base sb + x))
        (λ x u. IsOk u × Claimed sb (contents s) (contents u) idx (data_base sb + x)) (λ u. IsOk u)
        r ih
        (λ x u (hu, c). (
          hu,
          Claimed-suc (contents s) (contents u) idx (data_base sb + x) busy (
              subst (λ (o : ℕ → List ℕ). Claimed sb o (contents u) (idx + 1) (data_base sb + x))
                same c),
        ))

  not_clear :
      (idx : ℕ) (s : B.State) (bs : List ℕ)
      → bs ≡ contents s (1 + idx / 4096)
      → (bit_of bs (idx % 4096) == 0) ≡ false
      → bit_at (contents s) idx ≢ 0
  not_clear idx s bs found busy z =
      let z' : bit_of bs (idx % 4096) ≡ 0 =
        ap (λ (x : List ℕ). bit_of x (idx % 4096)) found ∙ (unfold bit_at in z) in
      ground arith

  -- What follows the look at the bit of `idx`.
  seen :
      (n idx : ℕ) (s t : B.State) (bs : List ℕ)
      → IsOk s
      → IsOk t
      → idx < sb.block_count
      → data_base sb ≤ idx
      → Accessed (contents s) (contents t) (1 + idx / 4096) (claim B sb (idx % 4096)) bs
      → Allocated t (idx + 1) (alloc_from B sb n (idx + 1) t)
      → Allocated s idx (
          (if bit_of bs (idx % 4096) == 0
              then pure (idx - data_base sb)
              else alloc_from B sb n (idx + 1))
            t)
  seen n idx s t bs hs ht bound le acc ih = elim (Bool-cases (bit_of bs (idx % 4096) == 0)) [
    | inl clear ↦
        let e : data_base sb + (idx - data_base sb) ≡ idx = omega arith in
        unfold pure in
        rw (clear, e)
          (
            ht,
            claimed (contents s) (contents t) idx bs
                (ap length acc.found ∙ law.whole s (1 + idx / 4096) hs) bound le acc (ground arith),
          )
    | inr busy ↦ rw busy (
        again idx s t (alloc_from B sb n (idx + 1) t)
          (passed (contents s) (contents t) (1 + idx / 4096) (idx % 4096) bs acc busy)
          (λ le. not_clear idx s bs acc.found busy) ih)
  ]

  alloc_from-Allocated :
      (n idx : ℕ) (s : B.State)
      → IsLayout sb
      → idx + n ≡ sb.block_count
      → IsOk s
      → Allocated s idx (alloc_from B sb n idx s)
  unfolding alloc_from
  alloc_from-Allocated zero idx s lay q h = unfold fail in h
  alloc_from-Allocated (suc n) idx s lay q h = elim (Bool-cases (ltb idx (data_base sb))) [
    | inl before ↦ rw before (
        again idx s s (alloc_from B sb n (idx + 1) s) refl (λ le. absurd (ground arith))
          (alloc_from-Allocated n (idx + 1) s lay (omega arith) h))
    | inr inside ↦
        let at : bitmap_position idx / blksz ≡ 1 + idx / 4096 =
          position-block (1 + idx / 4096) ∙ omega (arith, lay.small) in
        rw inside (
          continue-Post
            (λ bs t.
              IsOk t
              × Accessed (contents s) (contents t) (bitmap_position idx / blksz)
                  (claim B sb (idx % 4096)) bs)
            (λ x t. IsOk t × Claimed sb (contents s) (contents t) idx (data_base sb + x))
            (λ t. IsOk t) (B.with_block (bitmap_position idx) (claim B sb (idx % 4096)) s) _
            (law.access (bitmap_position idx) (claim B sb (idx % 4096)) s h
              (position-aligned (1 + idx / 4096)) (claim-KeepsSize (idx % 4096)))
            (λ bs t (h', acc).
              seen n idx s t bs h h' (omega arith) (ground arith)
                (subst
                  (λ (b : ℕ). Accessed (contents s) (contents t) b (claim B sb (idx % 4096)) bs) at
                  acc)
                (alloc_from-Allocated n (idx + 1) t lay (omega arith) h')))
  ]

  -- For a sound image ktfs_alloc_data_block does not crash, and if it gives a data block, then it
  -- is the first one that the bitmap had as free: its bit becomes 1, no other bit changes, and no
  -- block but the one that the bit is in.
  pub alloc_data_block-Claimed :
      (s : B.State)
      → IsLayout sb
      → IsOk s
      → Post
          (λ x t. IsOk t × Claimed sb (contents s) (contents t) 0 (data_base sb + x))
          (λ t. IsOk t)
          (alloc_data_block B sb s)
  unfolding alloc_data_block
  alloc_data_block-Claimed s lay h = alloc_from-Allocated sb.block_count 0 s lay (omega arith) h
