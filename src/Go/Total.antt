-- ===== src/Go/Total.antt =====
-- What holds of the value of an action that does not panic.
use nfproxy.Prelude.{◌≡◌, subst, Option, none, some, Bool, true, false, if◌then◌else◌, arith}
use nfproxy.Go.Errors.{⊤, Result, ok, err}
use nfproxy.Go.Exec.{Exec}
use nfproxy.Go.Returns.{OnOk, OnOk-weaken, Returns, Returns-any}
use nfproxy.Go.Act.{Act, pure, on_ok, checked, deref, resume, run, when, ◌>>=◌}

-- The action ends, and its value has the property.
abbrev pub Ends : {S A : Type 0} → (A → Type 0) → Option (A × S) → Type 0
Ends Q none = ⊥
Ends Q (some (a, s)) = Q a

pub record Total {S A : Type 0} (m : Act S A) (Q : A → Type 0) : Type 0 where
  pub at : (s : S) → Ends Q (m s)

module _ {S A B : Type 0} where
  Ends-bind :
      (o : Option (A × S)) (f : A → Act S B) (Q : A → Type 0) (R : B → Type 0)
      → Ends Q o
      → ((a : A) → Q a → Total (f a) R)
      → Ends R (resume o f)
  Ends-bind none f Q R h k = absurd h
  Ends-bind (some (a, s)) f Q R h k = (k a h).at s

  pub Total-bind :
      (m : Act S A) (f : A → Act S B) (Q : A → Type 0) (R : B → Type 0)
      → Total m Q
      → ((a : A) → Q a → Total (f a) R)
      → Total (m >>= f) R
  unfolding ◌>>=◌
  Total-bind m f Q R hm hf = record { at = λ s. Ends-bind (m s) f Q R (hm.at s) hf }

module _ {S A : Type 0} (Q : A → Type 0) where
  pub Total-pure : (a : A) → Q a → Total (pure {S = S} a) Q
  unfolding ◌>>=◌
  Total-pure a h = record { at = λ s. h }

  pub Total-if : (b : Bool) (m n : Act S A) → Total m Q → Total n Q → Total (if b then m else n) Q
  Total-if true m n hm hn = hm
  Total-if false m n hm hn = hn

  pub Total-run : (m : S → A × S) → ((s : S) → Q (m s).0) → Total (run m) Q
  unfolding ◌>>=◌
  Total-run m h = record { at = λ s. h s }

  pub Total-deref : (o : Option A) (a : A) → o ≡ some a → Q a → Total (deref {S = S} o) Q
  unfolding ◌>>=◌
  Total-deref none a e h = cc
  Total-deref (some b) a e h = record { at = λ s. subst Q (ground arith) h }

module _ {S : Type 0} where
  pub Total-when : (b : Bool) (m : Act S ⊤) → Total m (λ _. Unit) → Total (when b m) (λ _. Unit)
  unfolding ◌>>=◌
  Total-when true m h = h
  Total-when false m h = Total-pure (λ _. Unit) tt tt

module _ {S A B : Type 0} where
  pub Total-deref_then :
      (o : Option A) (f : A → Act S B) (a : A) (R : B → Type 0)
      → o ≡ some a
      → Total (f a) R
      → Total (deref o >>= f) R
  unfolding ◌>>=◌
  Total-deref_then none f a R e h = cc
  Total-deref_then (some b) f a R e h = subst (λ (c : A). Total (f c) R) (ground arith) h

module _ {S A : Type 0} where
  Ends-weaken :
      (Q R : A → Type 0) (o : Option (Result A × S))
      → ((a : A) → Q a → R a)
      → Ends (OnOk Q) o
      → Ends (OnOk R) o
  Ends-weaken Q R (some (r, s)) k h = OnOk-weaken r Q R k h
  Ends-weaken Q R none k h = absurd h

  pub Total-returns : (m : Exec S A) (Q : A → Type 0) → Returns m Q → Total (run m) (OnOk Q)
  unfolding ◌>>=◌
  Total-returns m Q h = record { at = λ s. h.at s }

  pub Total-weaken :
      (Q R : A → Type 0) (m : Act S (Result A))
      → ((a : A) → Q a → R a)
      → Total m (OnOk Q)
      → Total m (OnOk R)
  Total-weaken Q R m k h = record { at = λ s. Ends-weaken Q R (m s) k (h.at s) }

-- The rest of a function, after the part that returned an error or a value with `P`.
module _ {S A B : Type 0} (P : A → Type 0) (Q : B → Type 0) where
  pub Total-on_ok :
      (f : A → Act S (Result B)) (r : Result A)
      → OnOk P r
      → ((a : A) → P a → Total (f a) (OnOk Q))
      → Total (on_ok f r) (OnOk Q)
  unfolding ◌>>=◌
  Total-on_ok f (ok a) h hf = hf a h
  Total-on_ok f (err e) h hf = record { at = λ s. tt }

  pub Total-then :
      (m : Act S (Result A)) (f : A → Act S (Result B))
      → Total m (OnOk P)
      → ((a : A) → P a → Total (f a) (OnOk Q))
      → Total (m >>= on_ok f) (OnOk Q)
  Total-then m f hm hf = Total-bind m (on_ok f) (OnOk P) (OnOk Q) hm (λ r h. Total-on_ok f r h hf)

module _ {S A B : Type 0} (Q : B → Type 0) where
  -- `checked`, of a part of which only the panics matter.
  pub Total-checked :
      (m : Act S (Result A)) (n : Act S (Result B))
      → Total m (OnOk (λ _. Unit))
      → Total n (OnOk Q)
      → Total (checked m n) (OnOk Q)
  Total-checked m n hm hn = Total-then (λ _. Unit) Q m (λ _. n) hm (λ _ _. hn)

  pub Total-checked-run :
      (m : Exec S A) (n : Act S (Result B)) → Total n (OnOk Q) → Total (checked (run m) n) (OnOk Q)
  Total-checked-run m n hn =
      Total-checked (run m) n (Total-returns m (λ _. Unit) (Returns-any m)) hn
