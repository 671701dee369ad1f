-- ===== src/Proxy/Types.antt =====
-- pkg/proxy/types.go, and the structs epKey and epInfo.
use nfproxy.Prelude.{
  ℕ, String, text_append, Bool, true, ◌&&◌, ◌≡◌, ◌↔◌, Eq, ◌==◌, text_Eq, arith, eq_iff,
}
use nfproxy.External.{External}
use nfproxy.Kube.{EndpointAddress, EndpointPort}

-- types.NamespacedName
pub record NamespacedName : Type 0 where
  pub namespace : String
  pub name : String

abbrev pub namespaced_eq : NamespacedName → NamespacedName → Bool
namespaced_eq a b = a.namespace == b.namespace && a.name == b.name

pub namespaced_eq_iff : (a b : NamespacedName) → (namespaced_eq a b ≡ true) ↔ (a ≡ b)
namespaced_eq_iff a b = ground (arith, eq_iff a.namespace b.namespace, eq_iff a.name b.name)

instance abbrev pub namespaced_Eq : Eq NamespacedName
namespaced_Eq = record { beq = namespaced_eq; beq_iff = namespaced_eq_iff }

pub record ServicePortName : Type 0 where
  pub namespaced : NamespacedName
  pub port : String
  pub protocol : String

abbrev pub port_name_eq : ServicePortName → ServicePortName → Bool
port_name_eq a b = a.namespaced == b.namespaced && (a.port == b.port && a.protocol == b.protocol)

pub port_name_eq_iff : (a b : ServicePortName) → (port_name_eq a b ≡ true) ↔ (a ≡ b)
port_name_eq_iff a b = ground (
  arith,
  namespaced_eq_iff a.namespaced b.namespaced,
  eq_iff a.port b.port,
  eq_iff a.protocol b.protocol,
)

instance abbrev pub port_name_Eq : Eq ServicePortName
port_name_Eq = record { beq = port_name_eq; beq_iff = port_name_eq_iff }

-- ServicePortName.String: fmt.Sprintf("%s:%s:%s", …)
abbrev pub service_port_name_string : External → ServicePortName → String
service_port_name_string ext spn =
    text_append (ext.namespaced_name_string spn.namespaced.namespace spn.namespaced.name)
      (text_append ":" (text_append spn.port (text_append ":" spn.protocol)))

pub record EpKey : Type 0 where
  pub proto : String
  pub ipaddr : String
  pub port : ℕ

-- One processed address and port of an Endpoints or an EndpointSlice.
pub record EpInfo : Type 0 where
  pub name : ServicePortName
  pub addr : EndpointAddress
  pub port : EndpointPort
  pub ready : Bool
