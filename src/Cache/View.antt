-- ===== src/Cache/View.antt =====
-- What a cache over a device stands for: the contents of every block, as a reader would see them.
-- The laws assumed of the device, and the invariant of the cache.
use sp25_ece391_group.Base.{
  ℕ, ◌*◌, ◌≤◌, ◌≡◌, ◌≢◌, refl, sym, ◌∙◌, true, false, Option, none, some, List, [], ◌∷◌, ok, crash,
  ◌==◌, if◌then◌else◌, length, arith,
}
use sp25_ece391_group.Cache.{Entry, blksz, capacity, Bdev, Cache, find}

-- What the cache relies on of its block device: `contents` is what is stored in each block, a
-- whole-block read that succeeds returns it, and a write that succeeds replaces one block. A write
-- that fails may leave anything in its block and leaves the others alone. Neither call panics.
pub record IsBdev (d : Bdev) : Type 0 where
  pub contents : d.State → ℕ → List ℕ
  pub read_whole :
      (s : d.State) (b : ℕ) {bs : List ℕ} → d.readat s (b * blksz) blksz ≡ ok bs → bs ≡ contents s b
  pub write_other :
      (s : d.State) (b : ℕ) (bs : List ℕ) (j : ℕ)
      → j ≢ b
      → contents (d.writeat s (b * blksz) bs).1 j ≡ contents s j
  pub write_same :
      (s : d.State) (b : ℕ) (bs : List ℕ) {n : ℕ}
      → length bs ≡ blksz
      → (d.writeat s (b * blksz) bs).0 ≡ ok n
      → contents (d.writeat s (b * blksz) bs).1 b ≡ bs
  pub read_returns : (s : d.State) (pos len : ℕ) → d.readat s pos len ≢ crash
  pub write_returns : (s : d.State) (pos : ℕ) (bs : List ℕ) → (d.writeat s pos bs).0 ≢ crash

abbrev pub orelse : Option Entry → List ℕ → List ℕ
orelse none bs = bs
orelse (some e) bs = e.bytes

-- No entry of the list is for block `b`.
abbrev pub Absent : ℕ → List Entry → Type 0
Absent b [] = Unit
Absent b (e ∷ es) = (e.blocknum ≢ b) × Absent b es

-- No entry of the list lies at address `a`.
abbrev pub Unused : ℕ → List Entry → Type 0
Unused a [] = Unit
Unused a (e ∷ es) = (e.addr ≢ a) × Unused a es

-- What `kcalloc` gives is NULL or an address that no entry has.
abbrev pub IsFresh : Option ℕ → List Entry → Type 0
IsFresh none es = Unit
IsFresh (some a) es = Unused a es

pub find-Absent : (b : ℕ) (es : List Entry) → Absent b es → find b es ≡ none
unfolding find
find-Absent b [] h = refl
find-Absent b (e ∷ es) h = ground (arith, find-Absent b es h.1)

module _ (d : Bdev) (law : IsBdev d) where
  -- What block `j` holds: the entry that is found, or else what the device stores.
  unfoldable pub view : d.State → List Entry → ℕ → List ℕ
  view s es j = orelse (find j es) (law.contents s j)

  -- A valid entry holds a whole block, and a clean one the block that the device stores.
  pub record IsGood (s : d.State) (e : Entry) : Type 0 where
    pub valid : e.valid ≡ true
    pub whole : length e.bytes ≡ blksz
    pub clean : e.dirty ≡ false → e.bytes ≡ law.contents s e.blocknum

  -- Every entry is good, no block has two entries, and no two entries share an address.
  abbrev pub IsCoherent : d.State → List Entry → Type 0
  IsCoherent s [] = Unit
  IsCoherent s (e ∷ es) = IsGood s e × Absent e.blocknum es × IsCoherent s es × Unused e.addr es

  pub record IsCache (c : Cache d.State) : Type 0 where
    pub coherent : IsCoherent c.bdev c.head
    pub count : c.size ≡ length c.head
    pub room : c.size ≤ capacity

  -- Two devices that store the same in the blocks of the entries serve them alike.
  pub IsCoherent-agree :
      (s t : d.State) (b : ℕ) (es : List Entry)
      → ((j : ℕ) → j ≢ b → law.contents t j ≡ law.contents s j)
      → Absent b es
      → IsCoherent s es
      → IsCoherent t es
  IsCoherent-agree s t b [] same out h = tt
  IsCoherent-agree s t b (e ∷ es) same out h = (
    record {
      valid = h.0.valid;
      whole = h.0.whole;
      clean = λ q. h.0.clean q ∙ sym (same e.blocknum out.0);
    },
    h.1,
    IsCoherent-agree s t b es same out.1 h.2,
    h.3,
  )

  -- The view of a cache.
  abbrev pub cache_view : Cache d.State → ℕ → List ℕ
  cache_view c j = view c.bdev c.head j

  pub view-Absent :
      (s : d.State) (es : List Entry) (b : ℕ) → Absent b es → view s es b ≡ law.contents s b
  unfolding view
  view-Absent s es b out = rw (find-Absent b es out) refl

  pub view-cons :
      (s : d.State) (e : Entry) (es : List Entry) (j : ℕ)
      → e.valid ≡ true
      → view s (e ∷ es) j ≡ (if e.blocknum == j then e.bytes else view s es j)
  unfolding view find
  view-cons s e es j v = ground arith
