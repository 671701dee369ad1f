-- ===== src/Go/Hoare.antt =====
-- What holds when an action that starts in `P` ends: `Q` of its value and its state. A panic ends
-- the process, and nothing is asked of it.
use nfproxy.Prelude.{
  Bool, true, false, Option, none, some, List, [], ◌∷◌, ◌≡◌, refl, sym, subst, if◌then◌else◌,
}
use nfproxy.Go.Errors.{⊤, Result, ok, err}
use nfproxy.Go.Act.{
  panic, Act, pure, resume, ◌>>=◌, deref, gets, when, checked, on_ok, if_some, if_ok, for_each,
}

abbrev pub Post : {S A : Type 0} → (A → S → Type 0) → Option (A × S) → Type 0
Post Q none = Unit
Post Q (some (a, s)) = Q a s

pub record Hoare {S A : Type 0} (P : S → Type 0) (m : Act S A) (Q : A → S → Type 0) : Type 0 where
  pub at : (s : S) → P s → Post Q (m s)

-- The action keeps `P`.
abbrev pub Keeps : {S A : Type 0} → (S → Type 0) → Act S A → Type 0
Keeps P m = Hoare P m (λ _. P)

Post-bind :
    {S A B : Type 0} (o : Option (A × S)) (f : A → Act S B) (Q : A → S → Type 0)
    (R : B → S → Type 0)
    → Post Q o
    → ((a : A) → Hoare (Q a) (f a) R)
    → Post R (resume o f)
Post-bind none f Q R h k = tt
Post-bind (some (a, s)) f Q R h k = (k a).at s h

module _ {S A B : Type 0} {P : S → Type 0} where
  pub Hoare-bind :
      (m : Act S A) (f : A → Act S B) (Q : A → S → Type 0) (R : B → S → Type 0)
      → Hoare P m Q
      → ((a : A) → Hoare (Q a) (f a) R)
      → Hoare P (m >>= f) R
  unfolding ◌>>=◌
  Hoare-bind m f Q R hm hf = record { at = λ s h. Post-bind (m s) f Q R (hm.at s h) hf }

module _ {S A : Type 0} where
  Post-weaken :
      (o : Option (A × S)) (Q R : A → S → Type 0)
      → ((a : A) (s : S) → Q a s → R a s)
      → Post Q o
      → Post R o
  Post-weaken none Q R k h = tt
  Post-weaken (some (a, s)) Q R k h = k a s h

  pub Hoare-weaken :
      {P : S → Type 0} (m : Act S A) (Q R : A → S → Type 0)
      → ((a : A) (s : S) → Q a s → R a s)
      → Hoare P m Q
      → Hoare P m R
  Hoare-weaken m Q R k h = record { at = λ s p. Post-weaken (m s) Q R k (h.at s p) }

module _ {S A : Type 0} {P : S → Type 0} where
  pub Keeps-pure : (a : A) → Keeps P (pure {S = S} a)
  unfolding ◌>>=◌
  Keeps-pure a = record { at = λ s h. h }

  pub Keeps-panic : Keeps P (panic {S = S} {A = A})
  unfolding ◌>>=◌
  Keeps-panic = record { at = λ s h. tt }

  pub Keeps-deref : (o : Option A) → Keeps P (deref {S = S} o)
  unfolding ◌>>=◌
  Keeps-deref none = record { at = λ s h. tt }
  Keeps-deref (some a) = record { at = λ s h. h }

  pub Keeps-gets : (f : S → A) → Keeps P (gets f)
  unfolding ◌>>=◌
  Keeps-gets f = record { at = λ s h. h }

  pub Keeps-if : (b : Bool) (m n : Act S A) → Keeps P m → Keeps P n → Keeps P (if b then m else n)
  Keeps-if true m n hm hn = hm
  Keeps-if false m n hm hn = hn

module _ {S : Type 0} {P : S → Type 0} where
  pub Keeps-when : (b : Bool) (m : Act S ⊤) → Keeps P m → Keeps P (when b m)
  unfolding ◌>>=◌
  Keeps-when true m hm = hm
  Keeps-when false m hm = Keeps-pure tt

module _ {S A B : Type 0} {P : S → Type 0} where
  pub Keeps-bind :
      (m : Act S A) (f : A → Act S B) → Keeps P m → ((a : A) → Keeps P (f a)) → Keeps P (m >>= f)
  Keeps-bind m f hm hf = Hoare-bind m f (λ _. P) (λ _. P) hm hf

  pub Keeps-on_ok :
      (f : A → Act S (Result B)) (r : Result A) → ((a : A) → Keeps P (f a)) → Keeps P (on_ok f r)
  unfolding ◌>>=◌
  Keeps-on_ok f (ok a) h = h a
  Keeps-on_ok f (err e) h = Keeps-pure (err e)

module _ {S A B : Type 0} {P : S → Type 0} where
  pub Keeps-checked :
      (m : Act S (Result A)) (n : Act S (Result B)) → Keeps P m → Keeps P n → Keeps P (checked m n)
  Keeps-checked m n hm hn = Keeps-bind m (on_ok (λ _. n)) hm (λ r. Keeps-on_ok (λ _. n) r (λ _. hn))

module _ {S A : Type 0} {P : S → Type 0} where
  pub Keeps-for_each :
      (xs : List A) (f : A → Act S ⊤) → ((a : A) → Keeps P (f a)) → Keeps P (for_each xs f)
  unfolding for_each
  Keeps-for_each [] f h = Keeps-pure tt
  Keeps-for_each (x ∷ xs) f h =
      Keeps-bind (f x) (λ _. for_each xs f) (h x) (λ _. Keeps-for_each xs f h)

module _ {S A B : Type 0} {P : S → Type 0} where
  pub Keeps-if_some :
      (m : Act S B) (f : A → Act S B) (o : Option A)
      → Keeps P m
      → ((a : A) → Keeps P (f a))
      → Keeps P (if_some m f o)
  unfolding ◌>>=◌
  Keeps-if_some m f none hm hf = hm
  Keeps-if_some m f (some a) hm hf = hf a

module _ {S A : Type 0} {P : S → Type 0} where
  pub Keeps-if_ok :
      (f : A → Act S ⊤) (r : Result A) → ((a : A) → Keeps P (f a)) → Keeps P (if_ok f r)
  unfolding ◌>>=◌
  Keeps-if_ok f (ok a) h = h a
  Keeps-if_ok f (err e) h = Keeps-pure tt

module _ {S A B : Type 0} {P R : S → Type 0} where
  Post-on_ok :
      (r : Result A) (n : Act S (Result B))
      → ((s : S) → P s → R s)
      → Hoare P n (λ _. R)
      → Hoare P (on_ok (λ _. n) r) (λ _. R)
  unfolding ◌>>=◌
  Post-on_ok (ok a) n k hn = hn
  Post-on_ok (err e) n k hn = record { at = k }

  -- The rest may end in another predicate, if that holds at an early return too.
  pub Hoare-checked :
      (m : Act S (Result A)) (n : Act S (Result B))
      → ((s : S) → P s → R s)
      → Keeps P m
      → Hoare P n (λ _. R)
      → Hoare P (checked m n) (λ _. R)
  Hoare-checked m n k hm hn =
      Hoare-bind m (on_ok (λ _. n)) (λ _. P) (λ _. R) hm (λ r. Post-on_ok r n k hn)

pub ruleset keeps_rules = (
  Keeps-pure, Keeps-panic, Keeps-deref, Keeps-gets, Keeps-if, Keeps-when, Keeps-bind, Keeps-on_ok,
  Keeps-checked, Keeps-for_each, Keeps-if_some, Keeps-if_ok,
)

-- The state in which an action ends.
module _ {S A : Type 0} {P : S → Type 0} where
  pub Keeps-run : (m : Act S A) (s t : S) (a : A) → Keeps P m → P s → m s ≡ some (a, t) → P t
  Keeps-run m s t a h p e = subst (Post (λ _. P)) e (h.at s p)

-- A read of a value that the precondition tells.
module _ {S A B : Type 0} {P : S → Type 0} where
  pub Hoare-gets :
      (g : S → A) (a : A) (f : A → Act S B) (R : B → S → Type 0)
      → ((s : S) → P s → g s ≡ a)
      → Hoare P (f a) R
      → Hoare P (gets g >>= f) R
  unfolding ◌>>=◌
  Hoare-gets g a f R known h = record {
    at = λ s p. subst (λ (x : A). Post R (f x s)) (sym (known s p)) (h.at s p);
  }

  -- A test for nil, with what the test tells.
  pub Hoare-if_some :
      (m : Act S B) (f : A → Act S B) (o : Option A) (R : B → S → Type 0)
      → (o ≡ none → Hoare P m R)
      → ((a : A) → o ≡ some a → Hoare P (f a) R)
      → Hoare P (if_some m f o) R
  unfolding ◌>>=◌
  Hoare-if_some m f none R hm hf = hm refl
  Hoare-if_some m f (some a) R hm hf = hf a refl

module _ {S B : Type 0} {P : S → Type 0} where
  pub Hoare-if :
      (b : Bool) (m n : Act S B) (R : B → S → Type 0)
      → (b ≡ true → Hoare P m R)
      → (b ≡ false → Hoare P n R)
      → Hoare P (if b then m else n) R
  Hoare-if true m n R hm hn = hm refl
  Hoare-if false m n R hm hn = hn refl
