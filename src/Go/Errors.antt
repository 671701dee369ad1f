-- ===== src/Go/Errors.antt =====
-- Go's error values, as far as the program looks at them.
use nfproxy.Prelude.{String, Bool, true, false}

abbrev pub ⊤ : Type 0
⊤ = Unit

-- What `errors.Is` tells of an error of the nftables library.
pub data Errno : Type 0 where
  ebusy eexist enoent other : Errno

-- A non-nil error: one of the library's, or a message made by `fmt.Errorf`.
pub data Error : Type 0 where
  from_lib : Errno → Error
  message : String → Error

-- A pair `(value, err)` of which the caller reads the value only if `err` is nil.
pub data Result (A : Type 0) : Type 0 where
  ok : A → Result A
  err : Error → Result A

abbrev pub is_ok : {A : Type 0} → Result A → Bool
is_ok (ok a) = true
is_ok (err e) = false
