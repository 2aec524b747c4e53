-- ===== src/Ktfs/Store/OverCache.antt =====
-- The block cache as the store of the file system: each access of sys/ktfs.c is a `cache_get_block`, a
-- look or a change through the pointer, and a `cache_release_block`.
use sp25_ece391_group.Base.{
  ℕ, ◌/◌, ◌≡◌, ◌≢◌, refl, sym, ap, ◌∙◌, subst, inl, inr, true, false, ◌&&◌, Option, none, some,
  List, [], ◌∷◌, Ret, ok, err, crash, ◌==◌, if◌then◌else◌, length, arith, Bool-cases,
}
use sp25_ece391_group.Exec.{Post}
use sp25_ece391_group.Cache.{Entry, blksz, Bdev, Cache, find, mark, get_block, release_block}
use sp25_ece391_group.Cache as C
use sp25_ece391_group.Cache.View.{IsBdev, IsFresh, view, IsCoherent, IsCache, cache_view, orelse}
use sp25_ece391_group.Cache.Get.{Got, get_block-Got}
use sp25_ece391_group.Cache.Modify.{put_block, put_block_lem, ne_of_Unused}
use sp25_ece391_group.Cache.Flush.{Clean, flush-Clean}
use sp25_ece391_group.Ktfs.Store.{BlockStore, KeepsSize, or_same, Accessed, IsBlockStore}

-- The block that a pointer leads to.
unfoldable pub deref : ℕ → List Entry → Option (List ℕ)
deref p [] = none
deref p (e ∷ es) = let rest = deref p es in if e.addr == p then some e.bytes else rest

-- The release: as dirty, with what the block has become, or else as clean.
unfoldable pub release : {S : Type 0} → ℕ → Option (List ℕ) → Cache S → Cache S
unfolding put_block release_block
release p (some cs) c = put_block p cs c
release p none c = release_block true p false c

unfoldable pub use_block :
    {S : Type 0}
    → (List ℕ → Option (List ℕ))
    → ℕ
    → Cache S
    → Option (List ℕ)
    → Ret (List ℕ) × Cache S
unfolding release
use_block f p c (some bs) = (ok bs, release p (f bs) c)
use_block f p c none = (crash, c)

unfoldable pub use_got :
    {S : Type 0} → (List ℕ → Option (List ℕ)) → Ret ℕ × Cache S → Ret (List ℕ) × Cache S
unfolding use_block deref
use_got f (ok p, c) = use_block f p c (deref p c.head)
use_got f (err e, c) = (err e, c)
use_got f (crash, c) = (crash, c)

-- `alloc` is what `kcalloc` would give next.
unfoldable pub over_cache : (d : Bdev) → (Cache d.State → Option ℕ) → BlockStore
unfolding use_got get_block C.flush
over_cache d alloc = record {
  State = Cache d.State;
  with_block = λ p f c. use_got f (get_block d true p (alloc c) c);
  flush = λ c. C.flush d true c;
}

mark_clean : (p : ℕ) (es : List Entry) → mark p false es ≡ es
unfolding mark
mark_clean p [] = refl
mark_clean p (e ∷ es) = elim (Bool-cases (e.valid && (e.addr == p))) [
  | inl hit ↦ rw hit refl
  | inr miss ↦ rw miss (ap (λ (t : List Entry). e ∷ t) (mark_clean p es))
]

module _ (d : Bdev) (law : IsBdev d) where
  -- The pointer of a block that is found leads to its entry.
  deref-find :
      (s : d.State) (b : ℕ) (es : List Entry) (e : Entry)
      → IsCoherent d law s es
      → find b es ≡ some e
      → deref e.addr es ≡ some e.bytes
  unfolding find deref
  deref-find s b [] e h q = cc
  deref-find s b (f ∷ es) e h q = elim (Bool-cases (f.blocknum == b)) [
    | inl hit ↦
        let same : f ≡ e = ground (arith, h.0.valid) in
        let t : (f.addr == e.addr) ≡ true = ground arith in
        rw t (ap (λ (x : Entry). some x.bytes) same)
    | inr miss ↦
        let rest : find b es ≡ some e = ground (arith, h.0.valid) in
        let ne : e.addr ≢ f.addr = ne_of_Unused f.addr b es e h.3 rest in
        let t : (f.addr == e.addr) ≡ false = ground arith in rw t (deref-find s b es e h.2 rest)
  ]

  find-whole :
      (s : d.State) (b : ℕ) (es : List Entry) (e : Entry)
      → IsCoherent d law s es
      → find b es ≡ some e
      → length e.bytes ≡ blksz
  unfolding find
  find-whole s b [] e h q = cc
  find-whole s b (f ∷ es) e h q = elim (Bool-cases (f.valid && (f.blocknum == b))) [
    | inl hit ↦
        let same : f ≡ e = ground arith in ap (λ (x : Entry). length x.bytes) (sym same) ∙ h.0.whole
    | inr miss ↦ find-whole s b es e h.2 (ground arith)
  ]

  orelse-whole :
      (s : d.State) (b : ℕ) (es : List Entry) (o : Option Entry)
      → IsCoherent d law s es
      → length (law.contents s b) ≡ blksz
      → find b es ≡ o
      → length (orelse o (law.contents s b)) ≡ blksz
  orelse-whole s b es none h n q = n
  orelse-whole s b es (some e) h n q = find-whole s b es e h q

  module _ (alloc : Cache d.State → Option ℕ) where
    release-Accessed :
        (f : List ℕ → Option (List ℕ)) (c c' : Cache d.State) (b : ℕ) (e : Entry)
        (o : Option (List ℕ))
        → IsCache d law c'
        → ((j : ℕ) → cache_view d law c' j ≡ cache_view d law c j)
        → find b c'.head ≡ some e
        → e.bytes ≡ cache_view d law c b
        → length e.bytes ≡ blksz
        → KeepsSize f
        → f e.bytes ≡ o
        → IsCache d law (release e.addr o c')
          × Accessed (cache_view d law c) (cache_view d law (release e.addr o c')) b f e.bytes
    unfolding release release_block
    release-Accessed f c c' b e none inv same hit bytes n keeps z =
        let unchanged : release_block true e.addr false c' ≡ c' =
          λ i. record c' { head = mark_clean e.addr c'.head i } in
        subst
          (λ (t : Cache d.State).
            IsCache d law t × Accessed (cache_view d law c) (cache_view d law t) b f e.bytes)
          (sym unchanged) (inv, record { found = bytes; changed = λ j. at j })
      where
        at :
            (j : ℕ)
            → cache_view d law c' j
              ≡ (if j == b then or_same e.bytes (f e.bytes) else cache_view d law c j)
        at j = elim (Bool-cases (j == b)) [
          | inl hit ↦
              let jb : j ≡ b = ground arith in
              rw hit (
                same j
                ∙ ap (λ (x : ℕ). cache_view d law c x) jb
                ∙ sym bytes
                ∙ sym (ap (or_same e.bytes) z))
          | inr miss ↦ rw miss (same j)
        ]
    release-Accessed f c c' b e (some cs) inv same hit bytes n keeps z =
        let (inv', new) =
          put_block_lem d law c' b cs e inv
            (sym (ap (λ (o : Option (List ℕ)). length (or_same e.bytes o)) z) ∙ keeps e.bytes n)
            hit in
        (inv', record { found = bytes; changed = λ j. new j ∙ at j })
      where
        at :
            (j : ℕ)
            → (if b == j then cs else cache_view d law c' j)
              ≡ (if j == b then or_same e.bytes (f e.bytes) else cache_view d law c j)
        at j = elim (Bool-cases (j == b)) [
          | inl hit ↦
              let jb : (b == j) ≡ true = ground arith in rw (hit, jb) (sym (ap (or_same e.bytes) z))
          | inr miss ↦ let jb : (b == j) ≡ false = ground arith in rw (miss, jb) (same j)
        ]

    use_got-Accessed :
        (f : List ℕ → Option (List ℕ)) (c : Cache d.State) (b : ℕ) (r : Ret ℕ × Cache d.State)
        → KeepsSize f
        → length (cache_view d law c b) ≡ blksz
        → Got d law c b r
        → Post
            (λ bs t. IsCache d law t × Accessed (cache_view d law c) (cache_view d law t) b f bs)
            (λ t. IsCache d law t)
            (use_got f r)
    unfolding use_got use_block
    use_got-Accessed f c b (ok p, c') keeps n (e, inv, same, hit, at_p, bytes) =
        let q : deref p c'.head ≡ some e.bytes =
          ap (λ (x : ℕ). deref x c'.head) (sym at_p)
          ∙ deref-find c'.bdev b c'.head e inv.coherent hit in
        rw q (
          subst
            (λ (x : ℕ).
              IsCache d law (release x (f e.bytes) c')
              × Accessed (cache_view d law c) (cache_view d law (release x (f e.bytes) c')) b f
                  e.bytes)
            at_p
            (release-Accessed f c c' b e (f e.bytes) inv same hit bytes (ap length bytes ∙ n) keeps
              refl))
    use_got-Accessed f c b (err x, c') keeps n g = g.1
    use_got-Accessed f c b (crash, c') keeps n g = g

    -- The block cache, over a device that keeps the laws of Cache.View and whose blocks have
    -- their size, with an allocator that gives NULL or an address that no entry has, is a store
    -- that keeps the laws of Ktfs.Store: an access gives what the cache stands for at the block
    -- and changes that block only, as the caller says, a flush changes none, nothing crashes, and
    -- an error leaves the cache in order.
    pub over_cache-IsBlockStore :
        ((s : d.State) (b : ℕ) → length (law.contents s b) ≡ blksz)
        → ((c : Cache d.State) → IsFresh (alloc c) c.head)
        → IsBlockStore (over_cache d alloc)
    unfolding over_cache view
    over_cache-IsBlockStore size fresh = record {
      IsOk = IsCache d law;
      contents = λ c. cache_view d law c;
      whole =
          λ c b inv. orelse-whole c.bdev b c.head (find b c.head) inv.coherent (size c.bdev b) refl;
      access = λ p f c inv al keeps.
          use_got-Accessed f c (p / blksz) (get_block d true p (alloc c) c) keeps
            (orelse-whole c.bdev (p / blksz) c.head (find (p / blksz) c.head) inv.coherent
              (size c.bdev (p / blksz)) refl)
            (get_block-Got d law c p (alloc c) inv al (fresh c));
      flush_same = λ c inv. flushed c (C.flush d true c) (flush-Clean d law c inv);
    }
      where
        flushed :
            (c : Cache d.State) (r : Ret (Unit {0}) × Cache d.State)
            → Clean d law c r.0 r.1
            → Post
                (λ u t. IsCache d law t × ((j : ℕ) → cache_view d law t j ≡ cache_view d law c j))
                (λ t. IsCache d law t)
                r
        flushed c (ok u, t) z = (z.inv, z.same_view)
        flushed c (err x, t) z = z.inv
        flushed c (crash, t) z = absurd (z.returns refl)
