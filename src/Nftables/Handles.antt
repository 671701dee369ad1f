-- ===== src/Nftables/Handles.antt =====
-- pkg/nftables/nftables.go: programChainRules returns as many rule handles as there are rules.
use nfproxy.Prelude.{ℕ, suc, String, ◌≡◌, refl, ap, List, [], ◌∷◌, length}
use nfproxy.Go.{Result, ok, err}
use nfproxy.Go.Exec
use nfproxy.Go.Exec.{rename, wrap}
use nfproxy.External.{External, Handle, Rule}
use nfproxy.Nftables.Chains.{create_rules, program_chain_rules}

-- A list of handles that came back without an error has this length.
abbrev pub HasLength : ℕ → Result (List ℕ) → Type 0
HasLength n (ok ids) = length ids ≡ n
HasLength n (err e) = Unit

module _ (ext : External) where
  open ext use {Kernel, Action, Addr}

  one_more :
      (n : ℕ) (id : ℕ) (o : Result (List ℕ) × Kernel)
      → HasLength n o.0
      → HasLength (suc n) (Exec.resume o.0 (λ ids. Exec.pure (id ∷ ids)) o.1).0
  one_more n id (ok ids, k) h = ap suc h
  one_more n id (err e, k) h = tt

  after_create :
      (n : ℕ) (o : Result ℕ × Kernel) (rest : ℕ → Exec.Exec Kernel (List ℕ))
      → ((id : ℕ) (k : Kernel) → HasLength n (rest id k).0)
      → HasLength
          (suc n)
          (Exec.resume o.0
            (λ id. λ k. Exec.resume (rest id k).0 (λ ids. Exec.pure (id ∷ ids)) (rest id k).1)
            o.1).0
  after_create n (ok id, k) rest h = one_more n id (rest id k) (h id k)
  after_create n (err e, k) rest h = tt

  -- One handle comes back for each rule.
  pub create_rules-HasLength :
      (ri : Handle) (rules : List (Rule Action Addr)) (id : ℕ) (k : Kernel)
      → HasLength (length rules) (create_rules ext ri id rules k).0
  unfolding create_rules
  create_rules-HasLength ri [] id k = refl
  create_rules-HasLength ri (r ∷ rules) id k =
      after_create (length rules) (ext.rules_create_imm ri (record r { position = id }) k)
        (λ id'. create_rules ext ri id' rules) (create_rules-HasLength ri rules)

  after_chain :
      (rules : List (Rule Action Addr)) (position : ℕ) (o : Result Handle × Kernel)
      → HasLength (length rules) (Exec.resume o.0 (λ ri. create_rules ext ri position rules) o.1).0
  after_chain rules position (ok ri, k) = create_rules-HasLength ri rules position k
  after_chain rules position (err e, k) = tt

  pub program_chain_rules-HasLength :
      (ci : Handle) (chain : String) (rules : List (Rule Action Addr)) (position : ℕ) (k : Kernel)
      → HasLength (length rules) (program_chain_rules ext ci chain rules position k).0
  unfolding program_chain_rules
  program_chain_rules-HasLength ci chain rules position k =
      after_chain rules position (ext.chains_chain ci chain k)

pub HasLength-rename :
    (n : ℕ) (text : String) (r : Result (List ℕ)) → HasLength n r → HasLength n (rename text r)
HasLength-rename n text (ok ids) h = h
HasLength-rename n text (err e) h = tt
