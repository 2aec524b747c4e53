-- ===== src/Device/Find.antt =====
-- A device is found under its name and the number that its registration gave.
use sp25_ece391_group.Base.{
  ℕ, suc, ◌≤◌, ◌≡◌, refl, ap, inl, inr, true, false, Option, none, some, List, [], Ret, ok, err,
  crash, ◌∷◌, arith, Bool-cases, ℤ, pos,
}
use sp25_ece391_group.Strings.Compare.{strcmp_from_self}
use sp25_ece391_group.Strings.{strcmp}
use sp25_ece391_group.Device.{
  Device, Devtab, same_name, equals_zero, is_instno, keep_slot, add_device, or_panic,
  register_device, find_device, call_open, open_found, open_device,
}
use sp25_ece391_group.Exec.{Exec, die}

same_self : (s : List ℕ) → same_name s s ≡ true
unfolding same_name strcmp
same_self s = rw (strcmp_from_self s) (unfold equals_zero in refl)

at_self : (k : ℕ) → is_instno k (pos k) ≡ true
unfolding is_instno
at_self k = ground arith

is_instno-less : (k n : ℕ) → suc k ≤ n → is_instno k (pos n) ≡ false
unfolding is_instno
is_instno-less k n h = ground arith

module _ {S R : Type 0} where
  -- The devices that are found in `l` are found in `l'`.
  abbrev Stay : (l l' : Devtab S R) → Type 0
  Stay l l' =
      (name : List ℕ) (i : ℤ) (j : ℕ) (e : Device S R)
      → find_device name i j l ≡ some e
      → find_device name i j l' ≡ some e

  -- No slot is free.
  abbrev pub Full : Devtab S R → Type 0
  Full [] = Unit
  Full (none ∷ l) = ⊥
  Full (some x ∷ l) = Full l

  abbrev Put : Device S R → ℕ → Devtab S R → Option (ℕ × Devtab S R) → Type 0
  Put d k l none = Full l
  Put d k l (some (n, l')) = (k ≤ n) × (find_device d.name (pos n) k l' ≡ some d) × Stay l l'

  find_here :
      (d : Device S R) (k : ℕ) (l : Devtab S R) → find_device d.name (pos k) k (some d ∷ l) ≡ some d
  unfolding find_device
  find_here d k l = rw (same_self d.name, at_self k) refl

  nothing-Stay : (l l' : Devtab S R) → Stay (none ∷ l) l'
  unfolding find_device
  nothing-Stay l l' name i j e h = absurd (grind arith)

  tail-Stay : (x : Device S R) (l l' : Devtab S R) → Stay l l' → Stay (some x ∷ l) (some x ∷ l')
  unfolding find_device
  tail-Stay x l l' stay name i j e h = elim (Bool-cases (same_name name x.name)) [
    | inl equal ↦ elim (Bool-cases (is_instno j i)) [
      | inl it ↦ rw (equal, it) (rw (equal, it) at h)
      | inr other ↦ rw (equal, other) (stay name i (suc j) e (rw (equal, other) at h))
    ]
    | inr differ ↦ rw differ (stay name i j e (rw differ at h))
  ]

  counted-Put :
      (d x : Device S R) (k : ℕ) (l : Devtab S R) (o : Option (ℕ × Devtab S R))
      → same_name d.name x.name ≡ true
      → Put d (suc k) l o
      → Put d k (some x ∷ l) (keep_slot (some x) o)
  unfolding keep_slot find_device
  counted-Put d x k l none equal h = h
  counted-Put d x k l (some (n, l')) equal (le, found, stay) =
      (omega arith, rw (equal, is_instno-less k n le) found, tail-Stay x l l' stay)

  passed-Put :
      (d x : Device S R) (k : ℕ) (l : Devtab S R) (o : Option (ℕ × Devtab S R))
      → same_name d.name x.name ≡ false
      → Put d k l o
      → Put d k (some x ∷ l) (keep_slot (some x) o)
  unfolding keep_slot find_device
  passed-Put d x k l none differ h = h
  passed-Put d x k l (some (n, l')) differ (le, found, stay) =
      (le, rw differ found, tail-Stay x l l' stay)

  add_device-Put : (d : Device S R) (k : ℕ) (l : Devtab S R) → Put d k l (add_device d k l)
  unfolding add_device
  add_device-Put d k [] = tt
  add_device-Put d k (none ∷ l) = (omega arith, find_here d k l, nothing-Stay l (some d ∷ l))
  add_device-Put d k (some x ∷ l) = elim (Bool-cases (same_name d.name x.name)) [
    | inl equal ↦
        rw equal (counted-Put d x k l (add_device d (suc k) l) equal (add_device-Put d (suc k) l))
    | inr differ ↦ rw differ (passed-Put d x k l (add_device d k l) differ (add_device-Put d k l))
  ]

  -- What was found before is found after.
  abbrev pub Kept : (before after : Option (Device S R)) → Type 0
  Kept none after = Unit
  Kept (some e) after = after ≡ some e

  Stay-Kept :
      (before after : Option (Device S R))
      → ((e : Device S R) → before ≡ some e → after ≡ some e)
      → Kept before after
  Stay-Kept none after h = tt
  Stay-Kept (some e) after h = h e refl

  -- What registration ensures: a panic is that of a full table. Else the device is opened under its name and
  -- the number given, and every device that was found is found.
  abbrev pub Registered :
      (name : List ℕ) → Option (ℕ → Exec S R) → ℕ → Devtab S R → Ret ℕ × Devtab S R → Type 0
  Registered name openfn aux l (ok n, l') =
      (open_device l' name (pos n) ≡ call_open openfn aux)
      × ((name' : List ℕ) (i : ℤ) → Kept (find_device name' i 0 l) (find_device name' i 0 l'))
  Registered name openfn aux l (err e, l') = ⊥
  Registered name openfn aux l (crash, l') = Full l × (l' ≡ l)

  -- register_device of a name panics only on a table without a free slot, which it leaves as it
  -- is; else open_device of the name and of the number that it gives calls the open function
  -- registered, or is the error ENOTSUP without one, and each device that was found under a name
  -- and a number is found under them still.
  pub register_device-Registered :
      (name : List ℕ) (openfn : Option (ℕ → Exec S R)) (aux : ℕ) (l : Devtab S R)
      → Registered name openfn aux l (register_device (some name) openfn aux l)
  unfolding register_device
  register_device-Registered name openfn aux l = of (add_device d 0 l) (add_device-Put d 0 l)
    where
      d : Device S R
      d = record { name = name; openfn = openfn; aux = aux }

      of : (o : Option (ℕ × Devtab S R)) → Put d 0 l o → Registered name openfn aux l (or_panic o l)
      of none h = unfold or_panic die in (h, refl)
      of (some (n, l')) (le, found, stay) =
          unfold or_panic open_device open_found in
          (
            ap open_found found,
            λ name' i.
                Stay-Kept (find_device name' i 0 l) (find_device name' i 0 l') (stay name' i 0),
          )
