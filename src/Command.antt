-- ===== src/Command.antt =====
-- cmd/nfproxy.go: main, up to the moment when the informers start, and validateAPIEndpoint. An exit
-- with status 1 is an error.
pub mod Laws
pub mod Served
use nfproxy.Prelude.{
  ℕ, String, text_Eq, nat_Eq, ◌==◌, ltb, Bool, true, false, not, ◌&&◌, ◌||◌, Option, none, some,
  List, [], ◌∷◌, is_nil, ◌^◌, if◌then◌else◌,
}
use nfproxy.Go.{⊤, Error, message, Result, ok, err}
use nfproxy.Go.Act.{Act, pure, on_ok, ◌>>=◌, ◌>>◌}
use nfproxy.External.{External, Url}
use nfproxy.Nftables.Base.{NftInterface}
use nfproxy.Nftables.Setup.Init.{init_nftables}
use nfproxy.Proxy.State.{Proxy, new_proxy}
use nfproxy.Proxy.Bootstrap.{bootstrap_rules}

-- The flags that the set-up reads.
pub record Flags : Type 0 where
  pub ipv4_cluster_cidr : String
  pub ipv6_cluster_cidr : String
  pub endpoint_slice : Bool

-- The answers of GetClientset and of GetHostname, and the environment variables, "" if not set.
pub record Environment : Type 0 where
  pub client : Result ⊤
  pub hostname : Result String
  pub service_host : String
  pub service_port : String
  pub api_endpoint : String

module _ (ext : External) where
  open ext use {Kernel}

  -- `np > math.MaxUint16`: a number with the highest bit is negative.
  abbrev pub is_invalid_port : ℕ → Bool
  is_invalid_port np = (np == 0) || (ltb 65535 np && ltb np (2 ^ 63))

  abbrev pub check_port : Url → ℕ × Result ⊤ → Result Url
  check_port endpoint (np, ok _) =
      if is_invalid_port np then err (message "invalid port") else ok endpoint
  check_port endpoint (np, err e) = err (message "failed to parse port with error")

  abbrev pub check_host : Url → String × String → Result Url
  check_host endpoint (host, port) =
      if is_nil (ext.parse_ip host)
      then err (message "failed to parse api ip address")
      else check_port endpoint (ext.atoi port)

  abbrev pub check_parsed : Result Url → Result Url
  check_parsed (ok endpoint) = check_host endpoint (ext.split_host_port endpoint.host)
  check_parsed (err e) = err (message "nfproxy failed to parse api server endpoint with error")

  unfoldable pub validate_api_endpoint : String → Result Url
  validate_api_endpoint text = check_parsed (ext.url_parse text)

  -- The part for a proxy that runs in the cluster.
  unfoldable pub bootstrap : Flags → Environment → Act (Proxy Kernel) (Result ⊤)
  bootstrap flags env =
      if not (env.service_host == "") && not (env.service_port == "")
      then (if env.api_endpoint == ""
          then pure (err (message "API_PUBLIC_ENDPOINT must be set"))
          else on_ok
              (λ endpoint.
                bootstrap_rules ext env.service_host env.service_port endpoint flags.endpoint_slice
                >> pure (ok tt))
              (validate_api_endpoint env.api_endpoint))
      else pure (ok tt)

  -- The proxy that the controllers get.
  abbrev pub finish : Option (Result ⊤ × Proxy Kernel) → Option (Result (Proxy Kernel))
  finish none = none
  finish (some (ok _, q)) = some (ok q)
  finish (some (err e, q)) = some (err e)

  abbrev pub with_hostname :
      Flags → Environment → NftInterface → Kernel → Result String → Option (Result (Proxy Kernel))
  with_hostname flags env nfti k (err e) = some (err e)
  with_hostname flags env nfti k (ok host) =
      finish (bootstrap flags env (new_proxy nfti k host flags.endpoint_slice))

  abbrev pub with_interface :
      Flags → Environment → Option (Result NftInterface × Kernel) → Option (Result (Proxy Kernel))
  with_interface flags env none = none
  with_interface flags env (some (err e, k)) = some (err e)
  with_interface flags env (some (ok nfti, k)) = with_hostname flags env nfti k env.hostname

  abbrev pub with_client : Flags → Environment → Kernel → Result ⊤ → Option (Result (Proxy Kernel))
  with_client flags env k (err e) = some (err e)
  with_client flags env k (ok _) =
      with_interface flags env (init_nftables ext flags.ipv4_cluster_cidr flags.ipv6_cluster_cidr k)

  unfoldable pub start : Flags → Environment → Kernel → Option (Result (Proxy Kernel))
  start flags env k = with_client flags env k env.client
