-- ===== src/Ktfs/Store/Tests.antt =====
-- The cache over a concrete disk as the store of the file system.
use sp25_ece391_group.Base.{
  ℕ, ◌+◌, ◌*◌, ◌/◌, ◌<◌, ◌≡◌, ◌≢◌, refl, sym, ap, ◌∙◌, Option, some, List, [], ◌∷◌, ◌++◌, ok, crash,
  ◌==◌, if◌then◌else◌, length, take, replicate, arith, false, true, length-append, length-take,
  length-replicate,
}
use sp25_ece391_group.Cache.{Entry, Bdev, Cache}
use sp25_ece391_group.Cache.View.{IsBdev, Unused, IsFresh}
use sp25_ece391_group.Ktfs.Store.{IsBlockStore}
use sp25_ece391_group.Ktfs.Store.OverCache.{over_cache, over_cache-IsBlockStore}

-- A block of 512 bytes, whatever is stored.
abbrev whole_block : List ℕ → List ℕ
whole_block bs = take 512 (bs ++ replicate 512 0)

take-length : (xs ys : List ℕ) → take (length xs) (xs ++ ys) ≡ xs
take-length [] ys = refl
take-length (x ∷ xs) ys = ap (λ (t : List ℕ). x ∷ t) (take-length xs ys)

whole_block-same : (bs : List ℕ) → length bs ≡ 512 → whole_block bs ≡ bs
whole_block-same bs h =
    ap (λ (n : ℕ). take n (bs ++ replicate 512 0)) (sym h) ∙ take-length bs (replicate 512 0)

length-whole_block : (bs : List ℕ) → length (whole_block bs) ≡ 512
length-whole_block bs = omega (
  arith,
  length-take 512 (bs ++ replicate 512 0),
  length-append bs (replicate 512 0),
  length-replicate 512 (zero_byte),
)
  where
    zero_byte : ℕ
    zero_byte = 0

abbrev disk : Bdev
disk = record {
  State = ℕ → List ℕ;
  readat = λ s pos len. ok (whole_block (s (pos / 512)));
  writeat = λ s pos bs. (ok 512, λ j. if j == pos / 512 then bs else s j);
}

block_number : (b : ℕ) → (b * 512) / 512 ≡ b
block_number b = omega arith

disk_read :
    (s : ℕ → List ℕ) (b : ℕ) {bs : List ℕ}
    → ok (whole_block (s ((b * 512) / 512))) ≡ ok bs
    → bs ≡ whole_block (s b)
disk_read s b h =
    let e : whole_block (s ((b * 512) / 512)) ≡ whole_block (s b) =
      ap (λ (x : ℕ). whole_block (s x)) (block_number b) in
    ground arith

disk_write_other :
    (s : ℕ → List ℕ) (b : ℕ) (bs : List ℕ) (j : ℕ)
    → j ≢ b
    → whole_block (if j == (b * 512) / 512 then bs else s j) ≡ whole_block (s j)
disk_write_other s b bs j ne = let e : (j == (b * 512) / 512) ≡ false = ground arith in rw e refl

disk_write_same :
    (s : ℕ → List ℕ) (b : ℕ) (bs : List ℕ)
    → length bs ≡ 512
    → whole_block (if b == (b * 512) / 512 then bs else s b) ≡ bs
disk_write_same s b bs n =
    let e : (b == (b * 512) / 512) ≡ true = ground arith in rw e (whole_block-same bs n)

ok-ne-crash : {A : Type 0} {a : A} → ok a ≡ crash → ⊥
ok-ne-crash q = cc

abbrev disk_law : IsBdev disk
disk_law = record {
  contents = λ s b. whole_block (s b);
  read_whole = disk_read;
  write_other = disk_write_other;
  write_same = λ s b bs n q. disk_write_same s b bs n;
  read_returns = λ s p n q. ok-ne-crash q;
  write_returns = λ s p bs q. ok-ne-crash q;
}

-- An address behind all that are in use.
addresses : List Entry → ℕ
addresses [] = 0
addresses (e ∷ es) = e.addr + addresses es

abbrev alloc : Cache (ℕ → List ℕ) → Option ℕ
alloc c = some (addresses c.head + 1)

Unused-addresses : (es : List Entry) (a : ℕ) → addresses es < a → Unused a es
unfolding addresses
Unused-addresses [] a lt = tt
Unused-addresses (e ∷ es) a lt = (λ q. absurd (omega arith), Unused-addresses es a (omega arith))

alloc-IsFresh : (c : Cache (ℕ → List ℕ)) → IsFresh (alloc c) c.head
alloc-IsFresh c = Unused-addresses c.head (addresses c.head + 1) (omega arith)

over_cache-IsBlockStore_example : IsBlockStore (over_cache disk alloc)
over_cache-IsBlockStore_example =
    over_cache-IsBlockStore disk disk_law alloc (λ s b. length-whole_block (s b)) alloc-IsFresh
