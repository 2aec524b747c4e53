-- ===== src/Base/Result.antt =====
-- sys/error.h, and the results of C calls. A call that returns a negative error number is `err`;
-- `crash` is a failed assertion, a panic or an access through NULL.
use Prim.Native.Nat.{ℕ}

pub data Error : Type 0 where
  einval ebusy enotsup enodev eio ebadfmt enoent eaccess ebadfd emfile emproc emthr : Error
  echild enomem epipe enodatablks enoinodeblks : Error

pub data Ret {ℓ} (A : Type ℓ) : Type ℓ where
  ok : A → Ret A
  err : Error → Ret A
  crash : Ret A

-- A C integer that may be negative: `negsuc n` is -(n + 1).
pub data ℤ : Type 0 where
  pos : ℕ → ℤ
  negsuc : ℕ → ℤ
