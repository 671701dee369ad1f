-- ===== src/External.antt =====
-- What the program calls and does not contain: the nftables libraries, Go's standard library and
-- the Kubernetes helpers. `External` is the parameter of everything that uses them.
use nfproxy.Prelude.{ℕ, String, Bool, true, false, Option, List, Eq, ◌≡◌, ◌↔◌, arith}
use nfproxy.Go.{⊤, Result}
use nfproxy.Go.Exec.{Exec}
use nfproxy.Kube.{Service}

-- github.com/google/nftables: the two families that the program uses.
pub data TableFamily : Type 0 where
  ipv4 ipv6 : TableFamily

abbrev pub family_eq : TableFamily → TableFamily → Bool
family_eq ipv4 ipv4 = true
family_eq ipv6 ipv6 = true
family_eq _ _ = false

pub family_eq_iff : (a b : TableFamily) → (family_eq a b ≡ true) ↔ (a ≡ b)
family_eq_iff a b = ground arith

instance abbrev pub family_Eq : Eq TableFamily
family_Eq = record { beq = family_eq; beq_iff = family_eq_iff }

-- The data types of set elements.
pub data SetDatatype : Type 0 where
  type_inet_proto type_ip_addr type_ip6_addr type_inet_service type_integer type_verdict :
      SetDatatype

pub data ElementValue : Type 0 where
  inet_proto : ℕ → ElementValue
  ip_addr : List ℕ → ElementValue
  inet_service : ℕ → ElementValue

-- nftableslib.SetRef
pub record SetRef : Type 0 where
  pub name : String
  pub id : ℕ

-- nftableslib.SetAttributes; the timeout is in seconds, and the key type is GenSetKeyType of the
-- list, or its one type.
pub record SetAttributes : Type 0 where
  pub name : String
  pub constant : Bool
  pub is_map : Bool
  pub has_timeout : Bool
  pub timeout : ℕ
  pub key_type : List SetDatatype
  pub data_type : SetDatatype

-- The key of a verdict.
pub data Verdict : Type 0 where
  nft_jump nft_return nft_drop nft_accept : Verdict

pub data ChainType : Type 0 where
  chain_type_filter chain_type_nat : ChainType

pub data ChainHook : Type 0 where
  hook_input hook_output hook_forward hook_prerouting hook_postrouting : ChainHook

-- nftableslib.ChainAttributes: a base chain of priority 0 with the policy to accept.
pub record ChainAttributes : Type 0 where
  pub chain_type : ChainType
  pub hook : ChainHook

-- What a rule asks of a packet: `Conntracks` with the key NFT_CT_STATE, a mark, an address of `L3`
-- that is not the source, one that is the source or the destination together with a state, or
-- `Fib` with a local destination.
pub data Match (Addr : Type 0) : Type 0 where
  ct_state : List ℕ → Match Addr
  marked : ℕ → Match Addr
  source_not : Option Addr → Match Addr
  source_in_state destination_in_state : Option Addr → List ℕ → Match Addr
  local_destination : Match Addr

-- nftableslib.Rule, by the expressions that the program gives one.
pub data RuleBody (Action Addr : Type 0) : Type 0 where
  counter : RuleBody Action Addr
  -- `L3.Src.List` with one address, and `Meta.Mark` with `Set` and this value
  mark_source : Option Addr → ℕ → RuleBody Action Addr
  verdict : Option Action → RuleBody Action Addr
  -- `Meta.Mark` with `Set`, and an action
  set_mark : ℕ → Option Action → RuleBody Action Addr
  -- an action for the packets that match
  matching : Match Addr → Option Action → RuleBody Action Addr
  -- `Concat` with `VMap`: the set, and the types of its key
  verdict_map : SetRef → List SetDatatype → RuleBody Action Addr
  -- `Dynamic` with `MatchTypeL3Src` and the operation "update": the key, and the set
  update_set : ℕ → SetRef → RuleBody Action Addr
  -- `MatchAct` with `MatchTypeL3Src`: the map, and the actions by key
  match_act : SetRef → List (ℕ × Option Action) → RuleBody Action Addr

pub record Rule (Action Addr : Type 0) : Type 0 where
  pub body : RuleBody Action Addr
  pub position : ℕ
  pub user_data : Option (List ℕ)

-- An interface value of the library (the chains, sets or rules of one table) is a number.
abbrev pub Handle : Type 0
Handle = ℕ

-- url.URL, by the fields that the program reads.
pub record Url : Type 0 where
  pub scheme : String
  pub host : String

pub record External : Type 1 where
  -- the state of netfilter, and the values that nftableslib builds
  pub Kernel : Type 0
  pub Element : Type 0
  pub Action : Type 0
  pub Addr : Type 0
  -- TablesInterface
  pub tables_exist : String → TableFamily → Kernel → Bool × Kernel
  pub tables_create_imm : String → TableFamily → Exec Kernel ⊤
  pub tables_delete_imm : String → TableFamily → Exec Kernel ⊤
  pub tables_table_chains : String → TableFamily → Exec Kernel Handle
  pub tables_table_sets : String → TableFamily → Exec Kernel Handle
  -- ChainsInterface
  pub chains_create_imm : Handle → String → Option ChainAttributes → Exec Kernel ⊤
  pub chains_delete_imm : Handle → String → Exec Kernel ⊤
  pub chains_chain : Handle → String → Exec Kernel Handle
  -- RulesInterface
  pub rules_create_imm : Handle → Rule Action Addr → Exec Kernel ℕ
  pub rules_insert_imm : Handle → Rule Action Addr → Exec Kernel ℕ
  pub rules_delete_imm : Handle → ℕ → Exec Kernel ⊤
  -- SetsInterface
  pub sets_add_elements : Handle → String → List Element → Exec Kernel ⊤
  pub sets_del_elements : Handle → String → List Element → Exec Kernel ⊤
  pub sets_create_set : Handle → SetAttributes → Exec Kernel SetRef
  pub sets_del_set : Handle → String → Exec Kernel ⊤
  pub sets_get_set_by_name : Handle → String → Exec Kernel SetRef
  -- constructors of nftableslib; `set_loadbalance` is with NFT_JUMP and NFT_NG_RANDOM, `set_dnat`
  -- of one address and port, fully random, `set_masq` with no flag, and `set_reject` with
  -- NFT_REJECT_ICMP_UNREACH and NFT_REJECT_ICMPX_ADMIN_PROHIBITED
  pub make_concat_element : List SetDatatype → List ElementValue → Option Action → Result Element
  pub set_verdict : Verdict → List String → Result Action
  pub set_loadbalance : List String → Result Action
  pub set_dnat : Option Addr → ℕ → Result Action
  pub set_masq : Result Action
  pub set_reject : Result Action
  pub new_ip_addr : String → Result Addr
  pub make_rule_comment : String → List ℕ
  -- CTStateNew and the others, and binaryutil.BigEndian.PutUint32
  pub ct_state_new : ℕ
  pub ct_state_invalid : ℕ
  pub ct_state_related : ℕ
  pub ct_state_established : ℕ
  pub put_uint32 : ℕ → List ℕ
  -- net, strconv, crypto/sha256 and encoding/base32; a nil `net.IP` is the empty list
  pub parse_ip : String → List ℕ
  pub to4 : List ℕ → List ℕ
  pub to16 : List ℕ → List ℕ
  pub ip_string : List ℕ → String
  pub join_host_port : String → String → String
  pub itoa : ℕ → String
  -- net/url; host and port, both "" beside an error; the number of Atoi, an `int` as its 64 bits,
  -- which is there beside an error too
  pub url_parse : String → Result Url
  pub split_host_port : String → String × String
  pub atoi : String → ℕ × Result ⊤
  -- `fmt.Sprintf("%02X", b)`, and `strings.Replace(s, old, new, -1)`
  pub hex_byte : ℕ → String
  pub replace_all : String → String → String → String
  pub sha256 : String → List ℕ
  pub base32 : List ℕ → String
  -- k8s.io helpers
  pub namespaced_name_string : String → String → String
  pub is_ipv6_string : String → Bool
  pub should_skip_service : Service → Bool
  pub requests_only_local_traffic : Service → Bool
  pub needs_health_check : Service → Bool
