-- ===== src/Cache/Same.antt =====
-- Lists of cache entries that differ at most in their dirty flags.
use sp25_ece391_group.Base.{ℕ, suc, ◌≡◌, refl, sym, ap, ◌∙◌, List, [], ◌∷◌, length}
use sp25_ece391_group.Cache.{Entry}
use sp25_ece391_group.Cache.View.{Absent, Unused}

-- An entry that differs at most in its dirty flag.
pub record SameData (e f : Entry) : Type 0 where
  pub addr : f.addr ≡ e.addr
  pub blocknum : f.blocknum ≡ e.blocknum
  pub bytes : f.bytes ≡ e.bytes

abbrev pub AllSame : List Entry → List Entry → Type 0
AllSame [] [] = Unit
AllSame [] (f ∷ fs) = ⊥
AllSame (e ∷ es) [] = ⊥
AllSame (e ∷ es) (f ∷ fs) = SameData e f × AllSame es fs

pub AllSame-refl : (es : List Entry) → AllSame es es
AllSame-refl [] = tt
AllSame-refl (e ∷ es) = (record { addr = refl; blocknum = refl; bytes = refl }, AllSame-refl es)

pub Absent-AllSame : (b : ℕ) (es fs : List Entry) → AllSame es fs → Absent b es → Absent b fs
Absent-AllSame b [] [] h out = tt
Absent-AllSame b [] (f ∷ fs) h out = absurd h
Absent-AllSame b (e ∷ es) [] h out = absurd h
Absent-AllSame b (e ∷ es) (f ∷ fs) h out =
    (λ q. out.0 (sym h.0.blocknum ∙ q), Absent-AllSame b es fs h.1 out.1)

pub Unused-AllSame : (a : ℕ) (es fs : List Entry) → AllSame es fs → Unused a es → Unused a fs
Unused-AllSame a [] [] h out = tt
Unused-AllSame a [] (f ∷ fs) h out = absurd h
Unused-AllSame a (e ∷ es) [] h out = absurd h
Unused-AllSame a (e ∷ es) (f ∷ fs) h out =
    (λ q. out.0 (sym h.0.addr ∙ q), Unused-AllSame a es fs h.1 out.1)

pub length-AllSame : (es fs : List Entry) → AllSame es fs → length fs ≡ length es
length-AllSame [] [] h = refl
length-AllSame [] (f ∷ fs) h = absurd h
length-AllSame (e ∷ es) [] h = absurd h
length-AllSame (e ∷ es) (f ∷ fs) h = ap suc (length-AllSame es fs h.1)
