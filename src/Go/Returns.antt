-- ===== src/Go/Returns.antt =====
-- What holds of the value of code that returns a value or an error.
use nfproxy.Go.Errors.{Result, ok, err}
use nfproxy.Go.Exec.{Exec, pure, resume, ◌>>=◌}

-- The property holds of the value, if there is no error.
abbrev pub OnOk : {A : Type 0} → (A → Type 0) → Result A → Type 0
OnOk Q (ok a) = Q a
OnOk Q (err e) = Unit

pub record Returns {S A : Type 0} (m : Exec S A) (Q : A → Type 0) : Type 0 where
  pub at : (s : S) → OnOk Q (m s).0

pub OnOk-Unit : {A : Type 0} (r : Result A) → OnOk (λ _. Unit) r
OnOk-Unit (ok a) = tt
OnOk-Unit (err e) = tt

module _ {S A B : Type 0} where
  Returns-resume :
      (r : Result A) (s : S) (f : A → Exec S B) (Q : A → Type 0) (R : B → Type 0)
      → OnOk Q r
      → ((a : A) → Q a → Returns (f a) R)
      → OnOk R (resume r f s).0
  Returns-resume (ok a) s f Q R h k = (k a h).at s
  Returns-resume (err e) s f Q R h k = tt

  pub Returns-bind :
      (m : Exec S A) (f : A → Exec S B) (Q : A → Type 0) (R : B → Type 0)
      → Returns m Q
      → ((a : A) → Q a → Returns (f a) R)
      → Returns (m >>= f) R
  Returns-bind m f Q R hm hf = record {
    at = λ s. Returns-resume (m s).0 (m s).1 f Q R (hm.at s) hf;
  }

module _ {A : Type 0} where
  pub OnOk-weaken : (r : Result A) (Q R : A → Type 0) → ((a : A) → Q a → R a) → OnOk Q r → OnOk R r
  OnOk-weaken (ok a) Q R k h = k a h
  OnOk-weaken (err e) Q R k h = tt

module _ {S A : Type 0} where
  pub Returns-pure : (Q : A → Type 0) (a : A) → Q a → Returns (pure {S = S} a) Q
  Returns-pure Q a h = record { at = λ s. h }

  pub Returns-any : (m : Exec S A) → Returns m (λ _. Unit)
  Returns-any m = record { at = λ s. OnOk-Unit (m s).0 }

  pub Returns-weaken :
      (m : Exec S A) (Q R : A → Type 0) → ((a : A) → Q a → R a) → Returns m Q → Returns m R
  Returns-weaken m Q R k h = record { at = λ s. OnOk-weaken (m s).0 Q R k (h.at s) }
