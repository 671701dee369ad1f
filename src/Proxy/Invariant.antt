-- ===== src/Proxy/Invariant.antt =====
-- The invariant of the proxy's maps: a known service port is marked as having endpoints exactly
-- if it has some.
pub mod Frame
pub mod Update
pub mod Endpoints
pub mod Reads
pub mod Slices
pub mod Services
pub mod Changes
pub mod Affinity
pub mod Handlers
pub mod Events
use nfproxy.Prelude.{
  ◌≡◌, ◌≢◌, refl, sym, Bool, true, false, not, Option, none, some, List, [], is_nil, ◌==◌, lookup,
  insert, erase, lookup-insert, lookup-erase, or_else, Bool-cases, inl, inr, arith, if◌then◌else◌,
  beq_refl,
}
use nfproxy.Proxy.Types.{ServicePortName, port_name_Eq, port_name_eq_iff}
use nfproxy.Proxy.Service.{ServiceInfo}
use nfproxy.Proxy.Endpoint.{EndpointInfo}
use nfproxy.Proxy.State.{Proxy, service_of, endpoints_of}

-- What the mark of a service port says of its endpoints.
abbrev pub Marks : Option ServiceInfo → List EndpointInfo → Type 0
Marks none eps = Unit
Marks (some svc) eps = svc.base.svcnft.with_endpoints ≡ not (is_nil eps)

module _ {K : Type 0} where
  abbrev pub Agrees : ServicePortName → Proxy K → Type 0
  Agrees name p = Marks (service_of name p) (endpoints_of name p)

  pub record IsConsistent (p : Proxy K) : Type 0 where
    pub at_name : (name : ServicePortName) → Agrees name p

  -- Inside an operation: all but one service port agree, and that one has endpoints or not.
  pub record IsReady (hole : ServicePortName) (b : Bool) (p : Proxy K) : Type 0 where
    pub at_other : (name : ServicePortName) → name ≢ hole → Agrees name p
    pub count : not (is_nil (endpoints_of hole p)) ≡ b

  -- Later in the operation: all agree.
  pub record IsSettled (hole : ServicePortName) (b : Bool) (p : Proxy K) : Type 0 where
    pub consistent : IsConsistent p
    pub count : not (is_nil (endpoints_of hole p)) ≡ b
