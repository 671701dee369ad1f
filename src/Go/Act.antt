-- ===== src/Go/Act.antt =====
-- Code that may panic (a nil dereference, an index out of range): `none` is the panic.
use nfproxy.Prelude.{Bool, true, false, Option, none, some, List, [], ◌∷◌}
use nfproxy.Go.Errors.{⊤, Result, ok, err}

abbrev pub Act : Type 0 → Type 0 → Type 0
Act S A = S → Option (A × S)

unfoldable pub pure : {S A : Type 0} → A → Act S A
pure a s = some (a, s)

unfoldable pub panic : {S A : Type 0} → Act S A
panic s = none

unfoldable pub gets : {S A : Type 0} → (S → A) → Act S A
gets f s = some (f s, s)

unfoldable pub modify : {S : Type 0} → (S → S) → Act S ⊤
modify f s = some (tt, f s)

-- A dereference or an index, which panics at `none`.
unfoldable pub deref : {S A : Type 0} → Option A → Act S A
deref none = panic
deref (some a) = pure a

-- Code that cannot panic.
unfoldable pub run : {S A : Type 0} → (S → A × S) → Act S A
run m s = some (m s)

unfoldable pub when : {S : Type 0} → Bool → Act S ⊤ → Act S ⊤
when true m = m
when false m = pure tt

-- The rest of a function after an error has been returned, or goes on with the value.
unfoldable pub on_ok : {S A B : Type 0} → (A → Act S (Result B)) → Result A → Act S (Result B)
on_ok f (ok a) = f a
on_ok f (err e) = pure (err e)

-- A branch on a nil pointer, or on a missing key of a map.
unfoldable pub if_some : {S A B : Type 0} → Act S B → (A → Act S B) → Option A → Act S B
if_some m f none = m
if_some m f (some a) = f a

-- The rest of a function that only logs an error and returns.
unfoldable pub if_ok : {S A : Type 0} → (A → Act S ⊤) → Result A → Act S ⊤
if_ok f (ok a) = f a
if_ok f (err e) = pure tt

abbrev pub resume : {S A B : Type 0} → Option (A × S) → (A → Act S B) → Option (B × S)
resume none f = none
resume (some (a, s)) f = f a s

infixl 5 ◌>>=◌ ◌>>◌
-- Opening this opens the actions above.
unfoldable pub ◌>>=◌ : {S A B : Type 0} → Act S A → (A → Act S B) → Act S B
unfolding pure panic gets modify deref run when on_ok if_some if_ok
◌>>=◌ m f s = resume (m s) f

abbrev pub ◌>>◌ : {S A B : Type 0} → Act S A → Act S B → Act S B
m >> n = m >>= λ _. n

-- `if err := m; err != nil { return err }`, and then `n`
abbrev pub checked : {S A B : Type 0} → Act S (Result A) → Act S (Result B) → Act S (Result B)
checked m n = m >>= on_ok (λ _. n)

unfoldable pub for_each : {S A : Type 0} → List A → (A → Act S ⊤) → Act S ⊤
for_each [] f = pure tt
for_each (x ∷ xs) f = let rest = for_each xs f in f x >> rest
