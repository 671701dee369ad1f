-- ===== src/Nftables/Setup/Positions.antt =====
-- programClusterIPRules: a handle for each rule.
use nfproxy.Prelude.{ℕ, suc, ◌≡◌, refl, ap, List, [], ◌∷◌, length}
use nfproxy.Go.Exec
use nfproxy.Go.Exec.{Exec}
use nfproxy.Go.Returns.{OnOk, Returns, Returns-bind, Returns-pure, Returns-any}
use nfproxy.Go.Total.{Ends, Total, Total-then, Total-returns}
use nfproxy.External.{External, Handle, Rule}
use nfproxy.Nftables.Base.{nat_services}
use nfproxy.Nftables.Setup.Init.{create_after, insert_first, program_cluster_ip_rules}

module _ (ext : External) where
  abbrev AreFor : List (Rule ext.Action ext.Addr) → List ℕ → Type 0
  AreFor rules ids = length ids ≡ length rules

  create_after-AreFor :
      (ri : Handle) (id : ℕ) (rules : List (Rule ext.Action ext.Addr))
      → Returns (create_after ext ri id rules) (AreFor rules)
  unfolding create_after
  create_after-AreFor ri id [] = Returns-pure (AreFor []) [] refl
  create_after-AreFor ri id (r ∷ rules) =
      Returns-bind (ext.rules_create_imm ri (record r { position = id })) _ (λ _. Unit)
        (AreFor (r ∷ rules)) (Returns-any _)
        λ new _.
          Returns-bind (create_after ext ri id rules) (λ ids. Exec.pure (new ∷ ids)) (AreFor rules)
            (AreFor (r ∷ rules)) (create_after-AreFor ri id rules)
            λ ids h. Returns-pure (AreFor (r ∷ rules)) (new ∷ ids) (ap suc h)

  insert_first-AreFor :
      (ri : Handle) (r : Rule ext.Action ext.Addr) (rules : List (Rule ext.Action ext.Addr))
      → Total (insert_first ext ri (r ∷ rules)) (OnOk (AreFor (r ∷ rules)))
  unfolding insert_first
  insert_first-AreFor ri r rules =
      Total-then (λ _. Unit) (AreFor (r ∷ rules)) _ _ (Total-returns _ (λ _. Unit) (Returns-any _))
        λ first _. Total-returns _ (AreFor (r ∷ rules)) (
          Returns-bind (create_after ext ri first rules) (λ ids. Exec.pure (first ∷ ids))
            (AreFor rules) (AreFor (r ∷ rules)) (create_after-AreFor ri first rules)
            λ ids h. Returns-pure (AreFor (r ∷ rules)) (first ∷ ids) (ap suc h))

  -- With at least one rule, programClusterIPRules does not panic, and without an error it returns as
  -- many handles as there are rules.
  pub program_cluster_ip_rules-length :
      (ci : Handle) (r : Rule ext.Action ext.Addr) (rules : List (Rule ext.Action ext.Addr))
      (s : ext.Kernel)
      → Ends
          (OnOk (λ (ids : List ℕ). length ids ≡ length (r ∷ rules)))
          (program_cluster_ip_rules ext ci (r ∷ rules) s)
  unfolding program_cluster_ip_rules
  program_cluster_ip_rules-length ci r rules s =
      (Total-then (λ _. Unit) (AreFor (r ∷ rules)) _ _
          (Total-returns (ext.chains_chain ci nat_services) (λ _. Unit) (Returns-any _))
          (λ ri _. insert_first-AreFor ri r rules)).at
        s
