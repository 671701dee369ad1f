-- ===== src/Proxy/Endpoint.antt =====
-- pkg/proxy/endpoints.go and topology.go: the information of an endpoint.
use nfproxy.Prelude.{
  ℕ, String, text_append, Bool, ◌&&◌, ◌==◌, text_Eq, bool_Eq, List, [], is_nil, Assoc,
  if◌then◌else◌,
}
use nfproxy.External.{External, TableFamily}
use nfproxy.Nftables.Types.{EpRule}

-- endpointsInfo with its BaseEndpointInfo; the field `Topology` is always nil. `rule` is
-- `epnft.Rule`.
pub record EndpointInfo : Type 0 where
  pub ip_family : String
  pub endpoint : String
  pub is_local : Bool
  pub rule : Assoc TableFamily EpRule
  pub protocol : String

-- BaseEndpointInfo.Equal
abbrev pub endpoint_equal : EndpointInfo → EndpointInfo → Bool
endpoint_equal info other = info.endpoint == other.endpoint && info.is_local == other.is_local

-- The text that names an endpoint: `family:host:port/protocol`.
abbrev pub endpoint_string : External → String → String → String → ℕ → String
endpoint_string ext ip_family protocol ip port = text_append ip_family (
    text_append ":"
      (text_append (ext.join_host_port ip (ext.itoa port)) (text_append "/" protocol)))

-- newBaseEndpointInfo with newEndpointInfo around it, and no rule yet.
unfoldable pub new_endpoint_info : External → String → String → String → ℕ → Bool → EndpointInfo
new_endpoint_info ext ip_family protocol ip port is_local = record {
  ip_family = ip_family;
  endpoint = endpoint_string ext ip_family protocol ip port;
  is_local = is_local;
  rule = [];
  protocol = protocol;
}

-- FilterTopologyEndpoint: the part that is not commented out
unfoldable pub filter_topology_endpoint :
    Assoc String String → List String → List EndpointInfo → List EndpointInfo
filter_topology_endpoint node_labels topology_keys endpoints =
    if is_nil topology_keys then endpoints else []
