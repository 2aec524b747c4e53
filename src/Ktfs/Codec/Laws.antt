-- ===== src/Ktfs/Codec/Laws.antt =====
-- What is read back from a block after a copy into it.
use sp25_ece391_group.Base.{
  ℕ, zero, suc, ◌+◌, ◌-◌, ◌*◌, ◌/◌, ◌%◌, ◌^◌, ◌≤◌, ◌<◌, ◌≡◌, ◌⊎◌, refl, sym, ap, ◌∙◌, inl, inr,
  Option, none, some, List, [], ◌∷◌, length, get_elem?, ltb, ◌==◌, if◌then◌else◌, arith, Bool-cases,
  ◌≢◌,
}
use sp25_ece391_group.Memio.{memcpy_at}
use sp25_ece391_group.Memio.Laws.{get_elem?-memcpy_at}
use sp25_ece391_group.Ktfs.{Inode}
use sp25_ece391_group.Ktfs.Codec.{byte_at, word32, inode_at, inode_bytes}

lt-or-ge : (a b : ℕ) → (a < b) ⊎ (b ≤ a)
lt-or-ge a b = elim (Bool-cases (ltb a b)) [
  | inl t ↦ inl (ground arith)
  | inr f ↦ inr (ground arith)
]

abbrev or_zero : Option ℕ → ℕ
or_zero none = 0
or_zero (some a) = a

byte_at-get_elem? : (bs : List ℕ) (i : ℕ) → byte_at bs i ≡ or_zero (get_elem? bs i)
byte_at-get_elem? [] i = refl
byte_at-get_elem? (b ∷ bs) zero = refl
byte_at-get_elem? (b ∷ bs) (suc i) = byte_at-get_elem? bs i

module _ (dst : List ℕ) (o : ℕ) (src : List ℕ) (fits : o + length src ≤ length dst) where
  -- A byte outside of the copy.
  pub byte_at-memcpy_at_out :
      (i : ℕ) → (i < o) ⊎ (o + length src ≤ i) → byte_at (memcpy_at dst o src) i ≡ byte_at dst i
  byte_at-memcpy_at_out i out =
      byte_at-get_elem? (memcpy_at dst o src) i
      ∙ ap or_zero (get_elem?-memcpy_at dst o src i fits ∙ cases out)
      ∙ sym (byte_at-get_elem? dst i)
    where
      cases :
          (i < o) ⊎ (o + length src ≤ i)
          → (if ltb i o
              then get_elem? dst i
              else if ltb i (o + length src)
              then get_elem? src (i - o)
              else get_elem? dst i)
            ≡ get_elem? dst i
      cases (inl h) = ground arith
      cases (inr h) = ground arith

  -- A byte of the copy.
  pub byte_at-memcpy_at_in :
      (k : ℕ) → k < length src → byte_at (memcpy_at dst o src) (o + k) ≡ byte_at src k
  byte_at-memcpy_at_in k h =
      byte_at-get_elem? (memcpy_at dst o src) (o + k)
      ∙ ap or_zero (get_elem?-memcpy_at dst o src (o + k) fits ∙ inside)
      ∙ sym (byte_at-get_elem? src k)
    where
      place : get_elem? src (o + k - o) ≡ get_elem? src k
      place = ap (get_elem? src) (omega arith)

      inside :
          (if ltb (o + k) o
            then get_elem? dst (o + k)
            else if ltb (o + k) (o + length src)
            then get_elem? src (o + k - o)
            else get_elem? dst (o + k))
          ≡ get_elem? src k
      inside = ground (arith, place)

-- Every field is a uint32_t.
pub record IsInode (n : Inode) : Type 0 where
  pub size : n.size < 2 ^ 32
  pub flags : n.flags < 2 ^ 32
  pub block0 : n.block0 < 2 ^ 32
  pub block1 : n.block1 < 2 ^ 32
  pub block2 : n.block2 < 2 ^ 32
  pub indirect : n.indirect < 2 ^ 32
  pub dindirect0 : n.dindirect0 < 2 ^ 32
  pub dindirect1 : n.dindirect1 < 2 ^ 32

bytes32-word32 :
    (v : ℕ)
    → v < 2 ^ 32
    → v % 256 + 256 * (v / 256 % 256) + 65536 * (v / 65536 % 256) + 16777216 * (v / 16777216 % 256)
      ≡ v
bytes32-word32 v h = omega arith

-- Two buffers that agree on the bytes of a word, and of an inode.
module _ (xs ys : List ℕ) where
  abbrev Agree : (i j n : ℕ) → Type 0
  Agree i j n = (k : ℕ) → k < n → byte_at xs (i + k) ≡ byte_at ys (j + k)

  Agree-shift : (i j n d m : ℕ) → d + m ≤ n → Agree i j n → Agree (i + d) (j + d) m
  Agree-shift i j n d m fits h k lt =
      ap (byte_at xs) (omega arith) ∙ h (d + k) (omega arith) ∙ ap (byte_at ys) (omega arith)

  word32-Agree : (i j : ℕ) → Agree i j 4 → word32 xs i ≡ word32 ys j
  unfolding word32
  word32-Agree i j h =
      let e : byte_at xs i ≡ byte_at ys j =
        ap (byte_at xs) (omega arith) ∙ h 0 (omega arith) ∙ ap (byte_at ys) (omega arith) in
      let one : byte_at xs (i + 1) ≡ byte_at ys (j + 1) = h 1 (omega arith) in
      let two : byte_at xs (i + 2) ≡ byte_at ys (j + 2) = h 2 (omega arith) in
      let three : byte_at xs (i + 3) ≡ byte_at ys (j + 3) = h 3 (omega arith) in omega arith

  pub inode_at-Agree : (i j : ℕ) → Agree i j 32 → inode_at xs i ≡ inode_at ys j
  unfolding inode_at
  inode_at-Agree i j h =
      let word = λ (d : ℕ) (fits : d + 4 ≤ 32).
        word32-Agree (i + d) (j + d) (Agree-shift i j 32 d 4 fits h) in
      λ p. record {
        size = word32-Agree i j (λ k lt. h k (omega arith)) p;
        flags = word 4 (omega arith) p;
        block0 = word 8 (omega arith) p;
        block1 = word 12 (omega arith) p;
        block2 = word 16 (omega arith) p;
        indirect = word 20 (omega arith) p;
        dindirect0 = word 24 (omega arith) p;
        dindirect1 = word 28 (omega arith) p;
      }

inode_at-inode_bytes : (n : Inode) → IsInode n → inode_at (inode_bytes n) 0 ≡ n
unfolding inode_at inode_bytes word32
inode_at-inode_bytes n h = λ p. record {
  size = bytes32-word32 n.size h.size p;
  flags = bytes32-word32 n.flags h.flags p;
  block0 = bytes32-word32 n.block0 h.block0 p;
  block1 = bytes32-word32 n.block1 h.block1 p;
  block2 = bytes32-word32 n.block2 h.block2 p;
  indirect = bytes32-word32 n.indirect h.indirect p;
  dindirect0 = bytes32-word32 n.dindirect0 h.dindirect0 p;
  dindirect1 = bytes32-word32 n.dindirect1 h.dindirect1 p;
}

pub length-inode_bytes : (n : Inode) → length (inode_bytes n) ≡ 32
unfolding inode_bytes
length-inode_bytes n = refl

-- An inode that is copied into a block is read back, and the inodes in the other slots stay.
pub inode_at-memcpy_at :
    (bs : List ℕ) (a b : ℕ) (n : Inode)
    → IsInode n
    → a * 32 + 32 ≤ length bs
    → inode_at (memcpy_at bs (a * 32) (inode_bytes n)) (b * 32)
      ≡ (if b == a then n else inode_at bs (b * 32))
inode_at-memcpy_at bs a b n h fits = elim (Bool-cases (b == a)) [
  | inl same ↦
      let e : b ≡ a = ground arith in
      rw same (
        ap (λ (x : ℕ). inode_at (memcpy_at bs (a * 32) (inode_bytes n)) (x * 32)) e
        ∙ inode_at-Agree (memcpy_at bs (a * 32) (inode_bytes n)) (inode_bytes n) (a * 32) 0 (λ k lt.
          byte_at-memcpy_at_in bs (a * 32) (inode_bytes n) room k
            (omega (arith, length-inode_bytes n))
          ∙ ap (byte_at (inode_bytes n)) (omega arith))
        ∙ inode_at-inode_bytes n h)
  | inr other ↦
      let ne : b ≢ a = ground arith in
      rw other (
        inode_at-Agree (memcpy_at bs (a * 32) (inode_bytes n)) bs (b * 32) (b * 32) (λ k lt.
          byte_at-memcpy_at_out bs (a * 32) (inode_bytes n) room (b * 32 + k) (out ne k lt)))
]
  where
    room : a * 32 + length (inode_bytes n) ≤ length bs
    room = omega (arith, length-inode_bytes n)

    out :
        b ≢ a
        → (k : ℕ) → k < 32
        → (b * 32 + k < a * 32) ⊎ (a * 32 + length (inode_bytes n) ≤ b * 32 + k)
    out ne k lt = elim (lt-or-ge (b * 32 + k) (a * 32)) [
      | inl l ↦ inl l
      | inr g ↦ inr (omega (arith, length-inode_bytes n))
    ]
