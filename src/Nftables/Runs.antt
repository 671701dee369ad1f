-- ===== src/Nftables/Runs.antt =====
-- pkg/nftables/nftables.go: ProgramServiceEndpoints does not index out of range, and how many rule
-- handles come back.
use nfproxy.Prelude.{
  ℕ, zero, suc, ◌<◌, String, ◌≡◌, refl, sym, ◌∙◌, subst, Bool, true, false, Option, some, List, [],
  ◌∷◌, ◌++◌, map, length, length-set, get_elem?, arith, if◌then◌else◌,
}
use nfproxy.Go.{⊤, Error, Result, ok, err}
use nfproxy.Go.Act.{Act, pure, deref, ◌>>=◌}
use nfproxy.Go.Total.{Ends, Total, Total-bind, Total-pure, Total-run, Total-deref}
use nfproxy.Nftables.Handles.{HasLength, HasLength-rename, program_chain_rules-HasLength}
use nfproxy.External.{External, Handle, TableFamily, Rule, SetRef}
use nfproxy.Nftables.Base.{NftInterface}
use nfproxy.Nftables.Types.{EpRule}
use nfproxy.Nftables.Chains.{program_chain_rules}
use nfproxy.Nftables.Rules.{match_act_rule}
use nfproxy.Nftables.Program.{
  all_some, attempt, affinity_rules, replace_rule, replace_rules, place_rules,
  program_service_endpoints,
}

elem_below : (ids : List ℕ) (i : ℕ) → i < length ids → (id : ℕ) × (get_elem? ids i ≡ some id)
elem_below [] i lt = absurd (omega arith)
elem_below (x ∷ ids) zero lt = (x, refl)
elem_below (x ∷ ids) (suc i) lt = elem_below ids i (omega arith)

-- What is asked of the handles: those of the result, and the caller's slice.
abbrev pub KeepsLength : {A : Type 0} → ℕ → (A → Type 0) → A × List ℕ → Type 0
KeepsLength n P (a, ids) = P a × (length ids ≡ n)

module _ {S A B : Type 0} (Q : Result B × List ℕ → Type 0) where
  Total-attempt :
      (r : Result A) (ids : List ℕ) (f : A → Act S (Result B × List ℕ))
      → ((e : Error) → Q (err e, ids))
      → ((a : A) → r ≡ ok a → Total (f a) Q)
      → Total (attempt r ids f) Q
  Total-attempt (ok a) ids f he hf = hf a refl
  Total-attempt (err e) ids f he hf = Total-pure Q (err e, ids) (he e)

module _ (ext : External) where
  open ext use {Kernel, Action, Addr}

  replace_rule-Total :
      (ri : Handle) (rules : List (Rule Action Addr)) (rule : Rule Action Addr) (i n : ℕ)
      (ids : List ℕ)
      → get_elem? rules i ≡ some rule
      → i < length ids
      → length ids ≡ n
      → Total (replace_rule ext ri rules i ids) (KeepsLength n (λ (r : Result ⊤). Unit))
  unfolding replace_rule
  replace_rule-Total ri rules rule i n ids at lt e =
      let (old, at_old) = elem_below ids i lt in
      Total-bind _ _ (λ _. Unit) _ (Total-deref _ _ rule at tt)
        (λ r _.
          Total-bind _ _ (λ _. Unit) _ (Total-deref _ _ old at_old tt)
            (λ o _.
              Total-bind _ _ (λ _. Unit) _ (Total-run _ _ (λ s. tt))
                (λ rid _.
                  Total-attempt _ rid ids _ (λ err. (tt, e))
                    (λ new _.
                      Total-bind _ _ (λ _. Unit) _ (Total-run _ _ (λ s. tt))
                        (λ _ _. Total-pure _ _ (tt, length-set ids i new ∙ e))))))

  -- The rules of a service's chain, by whether it has affinity.
  abbrev pub rule_count : Bool → ℕ
  rule_count with_affinity = if with_affinity then 3 else 2

  Replaced : ℕ → Result (List ℕ) × List ℕ → Type 0
  Replaced n = KeepsLength n (HasLength n)

  replace_three :
      (ri : Handle) (c m v : Rule Action Addr) (ids : List ℕ)
      → length ids ≡ 3
      → Total (replace_rules ext ri (c ∷ m ∷ v ∷ []) true ids) (Replaced 3)
  unfolding replace_rules Replaced
  replace_three ri c m v ids e =
      Total-bind _ _ _ _ (replace_rule-Total ri _ m 1 3 ids refl (omega arith) e) (λ (r, ids') h.
        Total-attempt _ r ids' _ (λ err. (tt, h.1))
          (λ _ _.
            Total-bind _ _ _ _ (replace_rule-Total ri _ v 2 3 ids' refl (omega (arith, h.1)) h.1)
              (λ (q, ids'') h'.
                Total-attempt _ q ids'' _ (λ err. (tt, h'.1))
                  (λ _ _. Total-pure _ _ (h'.1, h'.1)))))

  replace_two :
      (ri : Handle) (c v : Rule Action Addr) (ids : List ℕ)
      → length ids ≡ 2
      → Total (replace_rules ext ri (c ∷ v ∷ []) false ids) (Replaced 2)
  unfolding replace_rules Replaced
  replace_two ri c v ids e =
      Total-bind _ _ _ _ (replace_rule-Total ri _ v 1 2 ids refl (omega arith) e) (λ (r, ids') h.
        Total-attempt _ r ids' _ (λ err. (tt, h.1)) (λ _ _. Total-pure _ _ (h.1, h.1)))

  -- The handles that are held: none, or one for each rule.
  abbrev pub IsHeld : Bool → List ℕ → Type 0
  IsHeld b [] = Unit
  IsHeld b (id ∷ ids) = length (id ∷ ids) ≡ rule_count b

  -- What comes back: one handle for each rule, and a slice of the caller's length.
  abbrev pub AreProgrammed : Bool → List ℕ → Result (List ℕ) × List ℕ → Type 0
  AreProgrammed b held = KeepsLength (length held) (HasLength (rule_count b))

  place_new :
      (ci ri : Handle) (chain : String) (rules : List (Rule Action Addr)) (b : Bool)
      → length rules ≡ rule_count b
      → Total (place_rules ext ci ri chain rules b []) (AreProgrammed b [])
  unfolding place_rules
  place_new ci ri chain rules b e =
      Total-bind _ _ (HasLength (rule_count b)) _
        (Total-run _ _ (λ k. HasLength-rename _ _ _ (
          subst (λ n. HasLength n (program_chain_rules ext ci chain rules 0 k).0) e
            (program_chain_rules-HasLength ext ci chain rules 0 k))))
        (λ ids h. Total-pure _ _ (h, refl))

  place_three :
      (ci ri : Handle) (chain : String) (c m v : Rule Action Addr) (held : List ℕ)
      → IsHeld true held
      → Total (place_rules ext ci ri chain (c ∷ m ∷ v ∷ []) true held) (AreProgrammed true held)
  unfolding place_rules Replaced
  place_three ci ri chain c m v [] h = place_new ci ri chain _ true refl
  place_three ci ri chain c m v (id ∷ ids) h =
      subst
        (λ n.
          Total (replace_rules ext ri (c ∷ m ∷ v ∷ []) true (id ∷ ids))
            (KeepsLength n (HasLength 3)))
        (sym h) (replace_three ri c m v (id ∷ ids) h)

  place_two :
      (ci ri : Handle) (chain : String) (c v : Rule Action Addr) (held : List ℕ)
      → IsHeld false held
      → Total (place_rules ext ci ri chain (c ∷ v ∷ []) false held) (AreProgrammed false held)
  unfolding place_rules Replaced
  place_two ci ri chain c v [] h = place_new ci ri chain _ false refl
  place_two ci ri chain c v (id ∷ ids) h =
      subst
        (λ n.
          Total (replace_rules ext ri (c ∷ v ∷ []) false (id ∷ ids)) (KeepsLength n (HasLength 2)))
        (sym h) (replace_two ri c v (id ∷ ids) h)

  -- The rules before the last one: with affinity one, and without none.
  IsAffinity : Bool → Result (List (Rule Action Addr)) → Type 0
  IsAffinity b (err e) = Unit
  IsAffinity b (ok rules) = length rules ≡ (if b then 1 else 0)

  match_act_rules :
      (epchains : List (Option EpRule)) (eps : List EpRule)
      → all_some epchains ≡ some eps
      → (s : Result SetRef)
      → Total {S = Kernel}
          (elim s [
            | err e ↦ pure (err e)
            | ok ref ↦
                deref (all_some epchains) >>= λ es. pure (ok (match_act_rule ext ref es ∷ []))
          ])
          (IsAffinity true)
  unfolding IsAffinity
  match_act_rules epchains eps e (err x) = Total-pure _ _ tt
  match_act_rules epchains eps e (ok ref) =
      Total-bind _ _ (λ _. Unit) _ (Total-deref _ _ eps e tt) (λ es _. Total-pure _ _ refl)

  affinity_rules-Total :
      (nfti : NftInterface) (fam : TableFamily) (svc_id : String) (epchains : List (Option EpRule))
      (eps : List EpRule) (b : Bool)
      → all_some epchains ≡ some eps
      → Total (affinity_rules ext nfti fam svc_id epchains b) (IsAffinity b)
  unfolding affinity_rules IsAffinity
  affinity_rules-Total nfti fam svc_id epchains eps false e = Total-pure _ _ refl
  affinity_rules-Total nfti fam svc_id epchains eps true e =
      Total-bind _ _ (λ _. Unit) _ (Total-run _ _ (λ k. tt))
        (λ s _. match_act_rules epchains eps e s)

  place_all :
      (ci ri : Handle) (chain : String) (c v : Rule Action Addr) (b : Bool)
      (affinity : List (Rule Action Addr)) (held : List ℕ)
      → length affinity ≡ (if b then 1 else 0)
      → IsHeld b held
      → Total (place_rules ext ci ri chain (c ∷ (affinity ++ v ∷ [])) b held) (AreProgrammed b held)
  place_all ci ri chain c v true (m ∷ []) held e h = place_three ci ri chain c m v held h
  place_all ci ri chain c v false [] held e h = place_two ci ri chain c v held h
  place_all ci ri chain c v true [] held e h = absurd (omega arith)
  place_all ci ri chain c v true (m ∷ n ∷ more) held e h = absurd (omega arith)
  place_all ci ri chain c v false (m ∷ more) held e h = absurd (omega arith)

  program_service_endpoints-Total :
      (nfti : NftInterface) (fam : TableFamily) (svc_id : String) (epchains : List (Option EpRule))
      (eps : List EpRule) (held : List ℕ) (b : Bool) (svc_port_name : String)
      → all_some epchains ≡ some eps
      → IsHeld b held
      → Total
          (program_service_endpoints ext nfti fam svc_id epchains held b svc_port_name)
          (AreProgrammed b held)
  unfolding program_service_endpoints IsAffinity
  program_service_endpoints-Total nfti fam svc_id epchains eps held b svc_port_name e h =
      Total-bind _ _ (λ _. Unit) _ (Total-run _ _ (λ k. tt))
        (λ chain _.
          Total-attempt _ chain held _ (λ x. (tt, refl))
            (λ ri _.
              Total-bind _ _ (IsAffinity b) _
                (affinity_rules-Total nfti fam svc_id epchains eps b e)
                (λ matching hm.
                  Total-attempt _ matching held _ (λ x. (tt, refl))
                    (λ affinity em.
                      Total-bind _ _ (λ _. Unit) _ (Total-deref _ _ eps e tt)
                        (λ es _.
                          Total-attempt _ (ext.set_loadbalance (map (λ ep. ep.chain) es)) held _
                            (λ x. (tt, refl))
                            (λ balance _.
                              place_all _ ri _ _ _ b affinity held (subst (IsAffinity b) em hm)
                                h))))))

  -- For endpoints of the family, and with no handles or one for each rule of the chain, the
  -- programming of a service's chain ends without a panic. Without an error it returns one handle
  -- for each rule (three with affinity, two without), and the caller's slice keeps its length.
  pub program_service_endpoints-Ends :
      (nfti : NftInterface) (fam : TableFamily) (svc_id : String) (epchains : List (Option EpRule))
      (eps : List EpRule) (held : List ℕ) (b : Bool) (svc_port_name : String) (k : Kernel)
      → all_some epchains ≡ some eps
      → IsHeld b held
      → Ends
          (AreProgrammed b held)
          (program_service_endpoints ext nfti fam svc_id epchains held b svc_port_name k)
  program_service_endpoints-Ends nfti fam svc_id epchains eps held b svc_port_name k e h =
      (program_service_endpoints-Total nfti fam svc_id epchains eps held b svc_port_name e h).at k
