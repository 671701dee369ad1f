-- ===== src/Go/Exec.antt =====
-- Code that returns a value or an error. The state comes back beside an error too.
use nfproxy.Prelude.{String, List, [], ◌∷◌}
use nfproxy.Go.Errors.{⊤, Error, message, Result, ok, err}

abbrev pub Exec : Type 0 → Type 0 → Type 0
Exec S A = S → Result A × S

abbrev pub pure : {S A : Type 0} → A → Exec S A
pure a s = (ok a, s)

abbrev pub fail : {S A : Type 0} → Error → Exec S A
fail e s = (err e, s)

abbrev pub lift : {S A : Type 0} → Result A → Exec S A
lift r s = (r, s)

abbrev pub resume : {S A B : Type 0} → Result A → (A → Exec S B) → Exec S B
resume (ok a) f s = f a s
resume (err e) f s = (err e, s)

abbrev pub rename : {A : Type 0} → String → Result A → Result A
rename text (ok a) = ok a
rename text (err e) = err (message text)

-- `if err != nil { return fmt.Errorf(text, err) }`
abbrev pub wrap : {S A : Type 0} → String → Exec S A → Exec S A
wrap text m s = let (r, s') = m s in (rename text r, s')

infixl 5 ◌>>=◌ ◌>>◌
-- `if err != nil { return err }`
abbrev pub ◌>>=◌ : {S A B : Type 0} → Exec S A → (A → Exec S B) → Exec S B
◌>>=◌ m f s = let (r, s') = m s in resume r f s'

abbrev pub ◌>>◌ : {S A B : Type 0} → Exec S A → Exec S B → Exec S B
m >> n = m >>= λ _. n

-- A loop that returns at the first error.
unfoldable pub for_each : {S A : Type 0} → List A → (A → Exec S ⊤) → Exec S ⊤
for_each [] f = pure tt
for_each (x ∷ xs) f = let rest = for_each xs f in f x >> rest
