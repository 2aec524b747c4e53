-- ===== src/Ktfs/Names/Entries.antt =====
-- A block of the directory as a sequence of entries, and what `ktfs_delete` does to it.
use sp25_ece391_group.Base.{
  ℕ, zero, suc, ◌+◌, ◌-◌, ◌*◌, ◌≤◌, ◌<◌, ◌≡◌, ◌≢◌, refl, sym, ap, ap₂, ◌∙◌, inl, inr, Bool, true,
  false, ◌&&◌, none, some, List, [], ◌∷◌, take, drop, replicate, length, get_elem?, ltb, leb, ◌==◌,
  if◌then◌else◌, arith, Bool-cases, length-take, length-drop,
}
use sp25_ece391_group.Memio.{memcpy_at}
use sp25_ece391_group.Memio.Laws.{
  length-memcpy_at, get_elem?-memcpy_at, get_elem?-take, get_elem?-drop,
}
use sp25_ece391_group.Ktfs.Names.{move_entry, shift_entries, remove_entry}

-- `dentries[m]`, its 16 bytes.
abbrev pub entry_of : List ℕ → (m : ℕ) → List ℕ
entry_of bs m = take 16 (drop (m * 16) bs)

get_elem?-ext : (xs ys : List ℕ) → ((k : ℕ) → get_elem? xs k ≡ get_elem? ys k) → xs ≡ ys
get_elem?-ext [] [] h = refl
get_elem?-ext [] (y ∷ ys) h = let e : none ≡ some y = h 0 in cc
get_elem?-ext (x ∷ xs) [] h = let e : some x ≡ none = h 0 in cc
get_elem?-ext (x ∷ xs) (y ∷ ys) h =
    let e : some x ≡ some y = h 0 in let rest : xs ≡ ys = get_elem?-ext xs ys (λ k. h (suc k)) in cc

get_elem?-beyond : (xs : List ℕ) (k : ℕ) → length xs ≤ k → get_elem? xs k ≡ none
get_elem?-beyond [] k h = refl
get_elem?-beyond (x ∷ xs) zero h = absurd (omega arith)
get_elem?-beyond (x ∷ xs) (suc k) h = get_elem?-beyond xs k (omega arith)

-- A byte of an entry.
get_elem?-entry_of :
    (bs : List ℕ) (m k : ℕ) → k < 16 → get_elem? (entry_of bs m) k ≡ get_elem? bs (m * 16 + k)
get_elem?-entry_of bs m k lt =
    get_elem?-take (drop (m * 16) bs) 16 k lt ∙ get_elem?-drop bs (m * 16) k

-- Entries are equal if their 16 bytes are.
entry-ext :
    (xs ys : List ℕ)
    → length xs ≤ 16
    → length ys ≤ 16
    → ((k : ℕ) → k < 16 → get_elem? xs k ≡ get_elem? ys k)
    → xs ≡ ys
entry-ext xs ys a b h = get_elem?-ext xs ys (λ k. elim (Bool-cases (ltb k 16)) [
  | inl lt ↦ h k (ground arith)
  | inr ge ↦
      let le : 16 ≤ k = ground arith in
      get_elem?-beyond xs k (omega arith) ∙ sym (get_elem?-beyond ys k (omega arith))
])

length-entry_of : (bs : List ℕ) (m : ℕ) → length (entry_of bs m) ≤ 16
length-entry_of bs m = omega (arith, length-take 16 (drop (m * 16) bs))

-- An entry that is copied into the block, and the other entries.
pub entry_of-memcpy_at :
    (bs src : List ℕ) (k m : ℕ)
    → length src ≡ 16
    → k * 16 + 16 ≤ length bs
    → entry_of (memcpy_at bs (k * 16) src) m ≡ (if m == k then src else entry_of bs m)
entry_of-memcpy_at bs src k m size fits = elim (Bool-cases (m == k)) [
  | inl hit ↦
      let e : m ≡ k = ground arith in
      rw hit (
        entry-ext (entry_of (memcpy_at bs (k * 16) src) m) src
          (length-entry_of (memcpy_at bs (k * 16) src) m) (omega arith)
          (λ c lt.
            byte m c lt
            ∙ ap₂
                (λ (t u : Bool).
                  if t
                  then get_elem? bs (m * 16 + c)
                  else if u
                  then get_elem? src (m * 16 + c - k * 16)
                  else get_elem? bs (m * 16 + c))
                (not_before e c) (within e c lt)
            ∙ ap (get_elem? src) (omega arith)))
  | inr miss ↦
      let ne : m ≢ k = ground arith in
      rw miss (
        entry-ext (entry_of (memcpy_at bs (k * 16) src) m) (entry_of bs m)
          (length-entry_of (memcpy_at bs (k * 16) src) m) (length-entry_of bs m)
          (λ c lt. byte m c lt ∙ outside ne c lt ∙ sym (get_elem?-entry_of bs m c lt)))
]
  where
    byte :
        (m c : ℕ)
        → c < 16
        → get_elem? (entry_of (memcpy_at bs (k * 16) src) m) c ≡ (
            if ltb (m * 16 + c) (k * 16)
            then get_elem? bs (m * 16 + c)
            else if ltb (m * 16 + c) (k * 16 + length src)
            then get_elem? src (m * 16 + c - k * 16)
            else get_elem? bs (m * 16 + c))
    byte m c lt =
        get_elem?-entry_of (memcpy_at bs (k * 16) src) m c lt
        ∙ get_elem?-memcpy_at bs (k * 16) src (m * 16 + c) (omega arith)

    not_before : m ≡ k → (c : ℕ) → ltb (m * 16 + c) (k * 16) ≡ false
    not_before e c = ground arith

    within : m ≡ k → (c : ℕ) → c < 16 → ltb (m * 16 + c) (k * 16 + length src) ≡ true
    within e c lt = ground arith

    outside :
        m ≢ k
        → (c : ℕ) → c < 16
        → (if ltb (m * 16 + c) (k * 16)
            then get_elem? bs (m * 16 + c)
            else if ltb (m * 16 + c) (k * 16 + length src)
            then get_elem? src (m * 16 + c - k * 16)
            else get_elem? bs (m * 16 + c))
          ≡ get_elem? bs (m * 16 + c)
    outside ne c lt = ground arith

entry_size : (bs : List ℕ) (k : ℕ) → length bs ≡ 512 → k < 32 → length (entry_of bs k) ≡ 16
entry_size bs k n lt = omega (arith, length-take 16 (drop (k * 16) bs), length-drop (k * 16) bs)

length-move_entry :
    (bs : List ℕ) (k : ℕ) → length bs ≡ 512 → k < 31 → length (move_entry k bs) ≡ 512
unfolding move_entry
length-move_entry bs k n lt =
    length-memcpy_at bs (k * 16) (entry_of bs (k + 1))
      (omega (arith, entry_size bs (k + 1) n (omega arith)))
    ∙ n

entry_of-move_entry :
    (bs : List ℕ) (k m : ℕ)
    → length bs ≡ 512
    → k < 31
    → entry_of (move_entry k bs) m ≡ (if m == k then entry_of bs (k + 1) else entry_of bs m)
unfolding move_entry
entry_of-move_entry bs k m n lt =
    entry_of-memcpy_at bs (entry_of bs (k + 1)) k m (entry_size bs (k + 1) n (omega arith))
      (omega arith)

length-shift_entries :
    (n k : ℕ) (bs : List ℕ) → length bs ≡ 512 → k + n ≤ 31 → length (shift_entries n k bs) ≡ 512
unfolding shift_entries
length-shift_entries zero k bs size le = size
length-shift_entries (suc n) k bs size le =
    length-shift_entries n (k + 1) (move_entry k bs) (length-move_entry bs k size (omega arith))
      (omega arith)

-- The two steps on the places of the entries, whatever the entries are.
shift_step :
    (f g : ℕ → List ℕ) (k n m : ℕ)
    → ((j : ℕ) → g j ≡ (if j == k then f (k + 1) else f j))
    → (if leb (k + 1) m && ltb m (k + 1 + n) then g (m + 1) else g m)
      ≡ (if leb k m && ltb m (k + suc n) then f (m + 1) else f m)
shift_step f g k n m h = ground (arith, h m, h (m + 1))

removed_step :
    (f : ℕ → List ℕ) (z : List ℕ) (j m : ℕ)
    → j < 32
    → m < 32
    → (if m == 31 then z else if leb j m && ltb m (j + (31 - j)) then f (m + 1) else f m)
      ≡ (if ltb m j then f m else if m == 31 then z else f (m + 1))
removed_step f z j m lt ltm = ground arith

-- The loop moves each of its entries down by one.
entry_of-shift_entries :
    (n k : ℕ) (bs : List ℕ) (m : ℕ)
    → length bs ≡ 512
    → k + n ≤ 31
    → entry_of (shift_entries n k bs) m
      ≡ (if leb k m && ltb m (k + n) then entry_of bs (m + 1) else entry_of bs m)
unfolding shift_entries
entry_of-shift_entries zero k bs m size le =
    let e : (leb k m && ltb m (k + 0)) ≡ false = ground arith in rw e refl
entry_of-shift_entries (suc n) k bs m size le =
    entry_of-shift_entries n (k + 1) (move_entry k bs) m (length-move_entry bs k size (omega arith))
      (omega arith)
    ∙ shift_step (entry_of bs) (entry_of (move_entry k bs)) k n m
        (λ j. entry_of-move_entry bs k j size (omega arith))

pub length-remove_entry :
    (bs : List ℕ) (j : ℕ) → length bs ≡ 512 → j < 32 → length (remove_entry j bs) ≡ 512
unfolding remove_entry
length-remove_entry bs j size lt =
    let n : length (shift_entries (31 - j) j bs) ≡ 512 =
      length-shift_entries (31 - j) j bs size (omega arith) in
    length-memcpy_at (shift_entries (31 - j) j bs) 496 (replicate 16 0) (omega arith) ∙ n

-- The loop of ktfs_delete over a block of the directory, and its memset, take entry j out: the
-- entries before it stay, each later one moves down by one place, and the last one is zero.
pub entry_of-remove_entry :
    (bs : List ℕ) (j m : ℕ)
    → length bs ≡ 512
    → j < 32
    → m < 32
    → entry_of (remove_entry j bs) m
      ≡ (if ltb m j then entry_of bs m else if m == 31 then replicate 16 0 else entry_of bs (m + 1))
unfolding remove_entry
entry_of-remove_entry bs j m size lt ltm =
    let n : length (shift_entries (31 - j) j bs) ≡ 512 =
      length-shift_entries (31 - j) j bs size (omega arith) in
    entry_of-memcpy_at (shift_entries (31 - j) j bs) (replicate 16 0) 31 m refl (omega arith)
    ∙ ap (λ (e : List ℕ). if m == 31 then replicate 16 0 else e)
        (entry_of-shift_entries (31 - j) j bs m size (omega arith))
    ∙ removed_step (entry_of bs) (replicate 16 0) j m lt ltm
