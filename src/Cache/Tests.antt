-- ===== src/Cache/Tests.antt =====
-- A disk that meets the laws, runs of the cache over it, and the theorems at concrete caches.
use sp25_ece391_group.Base.{
  ℕ, ◌*◌, ◌/◌, ◌≡◌, ◌≢◌, refl, true, false, some, List, [], ◌∷◌, ok, err, crash, einval, ◌==◌,
  if◌then◌else◌, replicate, arith,
}
use sp25_ece391_group.Cache.{Entry, Bdev, Cache, find, get_block, flush}
use sp25_ece391_group.Cache.View.{IsBdev, IsCache, cache_view}
use sp25_ece391_group.Cache.Get.{Got, get_block-Got}
use sp25_ece391_group.Cache.Flush.{Clean, flush-Clean}
use sp25_ece391_group.Cache.Modify.{put_block, put_block_lem}

-- A disk of any number of blocks, on which every operation succeeds.
abbrev disk : Bdev
disk = record {
  State = ℕ → List ℕ;
  readat = λ s pos len. ok (s (pos / 512));
  writeat = λ s pos bs. (ok 512, λ j. if j == pos / 512 then bs else s j);
}

disk_write_other :
    (s : ℕ → List ℕ) (b : ℕ) (bs : List ℕ) (j : ℕ)
    → j ≢ b
    → (if j == (b * 512) / 512 then bs else s j) ≡ s j
disk_write_other s b bs j ne = let e : (j == (b * 512) / 512) ≡ false = ground arith in rw e refl

disk_write_same :
    (s : ℕ → List ℕ) (b : ℕ) (bs : List ℕ) → (if b == (b * 512) / 512 then bs else s b) ≡ bs
disk_write_same s b bs = let e : (b == (b * 512) / 512) ≡ true = ground arith in rw e refl

disk_read : (s : ℕ → List ℕ) (b : ℕ) {bs : List ℕ} → ok (s ((b * 512) / 512)) ≡ ok bs → bs ≡ s b
disk_read s b h = let e : (b * 512) / 512 ≡ b = omega arith in ground (arith, ap_at s e)
  where
    ap_at : (s : ℕ → List ℕ) {a b : ℕ} → a ≡ b → s a ≡ s b
    ap_at s p = λ i. s (p i)

ok-ne-crash : {A : Type 0} {a : A} → ok a ≡ crash → ⊥
ok-ne-crash q = cc

abbrev disk_law : IsBdev disk
disk_law = record {
  contents = λ s b. s b;
  read_whole = disk_read;
  write_other = disk_write_other;
  write_same = λ s b bs n q. disk_write_same s b bs;
  read_returns = λ s p n q. ok-ne-crash q;
  write_returns = λ s p bs q. ok-ne-crash q;
}

abbrev sevens : List ℕ
sevens = replicate 512 7

abbrev nines : List ℕ
nines = replicate 512 9

abbrev blocks : ℕ → List ℕ
blocks b = sevens

abbrev entry : Entry
entry = record { addr = 100; blocknum = 3; bytes = nines; valid = true; dirty = true }

-- Block 3 has been written and is not on the disk yet.
abbrev one_dirty : Cache (ℕ → List ℕ)
one_dirty = record { head = entry ∷ []; size = 1; bdev = blocks }

one_dirty-IsCache : IsCache disk disk_law one_dirty
one_dirty-IsCache = record {
  coherent = (record { valid = refl; whole = refl; clean = λ z. cc }, tt, tt, tt);
  count = refl;
  room = omega arith;
}

get_block_misaligned : get_block disk true 513 (some 200) one_dirty ≡ (err einval, one_dirty)
unfolding get_block
get_block_misaligned = refl

get_block-Got_example :
    Got disk disk_law one_dirty (1024 / 512) (get_block disk true 1024 (some 200) one_dirty)
get_block-Got_example =
    get_block-Got disk disk_law one_dirty 1024 (some 200) one_dirty-IsCache (omega arith)
      (omega arith)

flush-Clean_example : let (r, c') = flush disk true one_dirty in Clean disk disk_law one_dirty r c'
flush-Clean_example = flush-Clean disk disk_law one_dirty one_dirty-IsCache

put_block_lem_example :
    IsCache disk disk_law (put_block 100 sevens one_dirty)
    × ((j : ℕ)
        → cache_view disk disk_law (put_block 100 sevens one_dirty) j
          ≡ (if 3 == j then sevens else cache_view disk disk_law one_dirty j))
unfolding find
put_block_lem_example =
    put_block_lem disk disk_law one_dirty 3 sevens entry one_dirty-IsCache refl refl
