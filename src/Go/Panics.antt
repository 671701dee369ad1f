-- ===== src/Go/Panics.antt =====
-- Actions that panic in every state.
use nfproxy.Prelude.{◌≡◌, refl, subst, Bool, true, false, Option, none, some, arith, if◌then◌else◌}
use nfproxy.Go.Errors.{⊤}
use nfproxy.Go.Act.{Act, resume, deref, when, ◌>>=◌}

pub record Panics {S A : Type 0} (m : Act S A) : Type 0 where
  pub at : (s : S) → m s ≡ none

module _ {S A B : Type 0} where
  resume-none :
      (o : Option (A × S)) (f : A → Act S B) → ((a : A) → Panics (f a)) → resume o f ≡ none
  resume-none none f h = refl
  resume-none (some (a, s)) f h = (h a).at s

  pub Panics-left : (m : Act S A) (f : A → Act S B) → Panics m → Panics (m >>= f)
  unfolding ◌>>=◌
  Panics-left m f h = record { at = λ s. rw (h.at s) refl }

  pub Panics-right : (m : Act S A) (f : A → Act S B) → ((a : A) → Panics (f a)) → Panics (m >>= f)
  unfolding ◌>>=◌
  Panics-right m f h = record { at = λ s. resume-none (m s) f h }

  pub Panics-deref : (o : Option A) (f : A → Act S B) → o ≡ none → Panics (deref o >>= f)
  unfolding ◌>>=◌
  Panics-deref none f h = record { at = λ s. refl }
  Panics-deref (some a) f h = cc

  -- The value that is there.
  pub Panics-found :
      (o : Option A) (a : A) (f : A → Act S B) → o ≡ some a → Panics (f a) → Panics (deref o >>= f)
  unfolding ◌>>=◌
  Panics-found none a f e h = cc
  Panics-found (some b) a f e h = record {
    at = λ s. subst (λ x. f x s ≡ none) (ground arith) (h.at s);
  }

module _ {S A : Type 0} where
  pub Panics-else : (b : Bool) (m n : Act S A) → b ≡ false → Panics n → Panics (if b then m else n)
  Panics-else true m n e h = cc
  Panics-else false m n e h = h

module _ {S : Type 0} where
  pub Panics-when : (b : Bool) (m : Act S ⊤) → b ≡ true → Panics m → Panics (when b m)
  unfolding ◌>>=◌
  Panics-when true m e h = h
  Panics-when false m e h = cc
