-- ===== src/Nftables/Types.antt =====
-- pkg/nftables/nftables.go: what the proxy keeps of the rules that it has programmed. The field
-- `Interface` of EPnft and SVCnft is never read.
use nfproxy.Prelude.{ℕ, String, Bool, List, [], Assoc, insert, text_Eq}
use nfproxy.External.{TableFamily, family_Eq}
use nfproxy.Nftables.Base.{svc_chain}

-- Rule: a chain and the handles of its rules
pub record ChainRule : Type 0 where
  pub chain : String
  pub rule_id : List ℕ

-- EPRule; a nil `RuleID` is the empty list.
pub record EpRule : Type 0 where
  pub chain : String
  pub rule_id : List ℕ
  pub ep_index : ℕ
  pub with_affinity : Bool
  pub max_age_seconds : ℕ
  pub service_id : String

abbrev pub SvcChain : Type 0
SvcChain = Assoc String ChainRule

pub record SvcNft : Type 0 where
  pub chains : Assoc TableFamily SvcChain
  pub with_endpoints : Bool
  pub with_affinity : Bool
  pub max_age_seconds : ℕ
  pub service_id : String

unfoldable pub get_svc_chain : TableFamily → String → Assoc TableFamily SvcChain
get_svc_chain fam svc_id =
    insert fam (insert (svc_chain svc_id) (record { chain = svc_chain svc_id; rule_id = [] }) []) []
