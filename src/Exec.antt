-- ===== src/Exec.antt =====
-- Functions that change a state and may fail: what has been changed before an error stays changed. And a
-- rule for what they ensure.
use sp25_ece391_group.Base.{Option, none, some, Error, Ret, ok, err, crash}

abbrev pub Exec : Type 0 → Type 0 → Type 0
Exec S A = S → Ret A × S

module _ {S A : Type 0} where
  unfoldable pub pure : A → Exec S A
  pure a s = (ok a, s)

  unfoldable pub fail : Error → Exec S A
  fail e s = (err e, s)

  -- A failed assertion, a panic or an access through NULL.
  unfoldable pub die : Exec S A
  die s = (crash, s)

  -- Any error as the one given.
  unfoldable pub or_error : Error → Ret A × S → Ret A × S
  or_error e (ok a, s) = (ok a, s)
  or_error e (err x, s) = (err e, s)
  or_error e (crash, s) = (crash, s)

  unfoldable pub recover : Error → Exec S A → Exec S A
  unfolding or_error
  recover e m s = or_error e (m s)

  -- An error is no obstacle.
  unfoldable pub attempt : Ret A × S → Ret (Option A) × S
  attempt (ok a, s) = (ok (some a), s)
  attempt (err x, s) = (ok none, s)
  attempt (crash, s) = (crash, s)

  -- What holds after a call: `Q` of its result and the state, or `E` of the state behind an error. The
  -- call does not crash.
  abbrev pub Post : (A → S → Type 0) → (S → Type 0) → Ret A × S → Type 0
  Post Q E (ok a, s) = Q a s
  Post Q E (err e, s) = E s
  Post Q E (crash, s) = ⊥

module _ {S A B : Type 0} where
  abbrev pub continue : Ret A × S → (A → Exec S B) → Ret B × S
  continue (ok a, s) f = f a s
  continue (err e, s) f = (err e, s)
  continue (crash, s) f = (crash, s)

  infixl 5 ◌>>=◌ ◌>>◌
  abbrev pub ◌>>=◌ : Exec S A → (A → Exec S B) → Exec S B
  m >>= f = λ s. continue (m s) f

  abbrev pub ◌>>◌ : Exec S A → Exec S B → Exec S B
  m >> n = m >>= λ _. n

  pub continue-Post :
      (Q : A → S → Type 0) (R : B → S → Type 0) (E : S → Type 0) (r : Ret A × S) (f : A → Exec S B)
      → Post Q E r
      → ((a : A) (s : S) → Q a s → Post R E (f a s))
      → Post R E (continue r f)
  continue-Post Q R E (ok a, s) f h k = k a s h
  continue-Post Q R E (err e, s) f h k = h
  continue-Post Q R E (crash, s) f h k = absurd h

module _ {S A : Type 0} where
  pub or_error-Post :
      (Q : A → S → Type 0) (E : S → Type 0) (e : Error) (r : Ret A × S)
      → Post Q E r
      → Post Q E (or_error e r)
  unfolding or_error
  or_error-Post Q E e (ok a, s) h = h
  or_error-Post Q E e (err x, s) h = h
  or_error-Post Q E e (crash, s) h = h

  -- What an attempt gives: the result, or none behind an error.
  abbrev pub Tried : (A → S → Type 0) → (S → Type 0) → Option A → S → Type 0
  Tried Q E none s = E s
  Tried Q E (some a) s = Q a s

  pub attempt-Post :
      (Q : A → S → Type 0) (E : S → Type 0) (r : Ret A × S)
      → Post Q E r
      → Post (Tried Q E) E (attempt r)
  unfolding attempt
  attempt-Post Q E (ok a, s) h = h
  attempt-Post Q E (err x, s) h = h
  attempt-Post Q E (crash, s) h = h

  -- A weaker condition.
  pub weaken-Post :
      (Q R : A → S → Type 0) (E : S → Type 0) (r : Ret A × S)
      → Post Q E r
      → ((a : A) (s : S) → Q a s → R a s)
      → Post R E r
  weaken-Post Q R E (ok a, s) h k = k a s h
  weaken-Post Q R E (err e, s) h k = h
  weaken-Post Q R E (crash, s) h k = h
