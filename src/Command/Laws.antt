-- ===== src/Command/Laws.antt =====
-- cmd/nfproxy.go: the endpoint of the API server.
use nfproxy.Prelude.{
  ℕ, ◌<◌, ◌≤◌, ◌^◌, String, text_Eq, nat_Eq, ◌≡◌, refl, subst, Bool, true, false, is_nil,
  if◌then◌else◌, arith,
}
use nfproxy.Go.{⊤, Error, Result, ok, err}
use nfproxy.External.{External, Url}
use nfproxy.Proxy.Bootstrap.{to_int32}
use nfproxy.Command.{check_port, check_host, check_parsed, validate_api_endpoint}

ok-if :
    {A : Type 0} (b : Bool) (x : Error) (r : Result A) (a : A)
    → (if b then err x else r) ≡ ok a
    → (b ≡ false) × (r ≡ ok a)
ok-if true x r a h = cc h
ok-if false x r a h = (refl, h)

module _ (ext : External) where
  -- The number of the port of a URL.
  abbrev pub port_of : Url → ℕ
  port_of endpoint = (ext.atoi (ext.split_host_port endpoint.host).1).0

  check_port-bounds :
      (e endpoint : Url) (np : ℕ) (r : Result ⊤)
      → np < 2 ^ 63
      → check_port ext e (np, r) ≡ ok endpoint
      → (e ≡ endpoint) × (0 < np) × (np ≤ 65535)
  check_port-bounds e endpoint np (ok tt) small h = ground arith
  check_port-bounds e endpoint np (err x) small h = cc h

  check_host-bounds :
      (e endpoint : Url)
      → port_of e < 2 ^ 63
      → check_host ext e (ext.split_host_port e.host) ≡ ok endpoint
      → (e ≡ endpoint)
        × (is_nil (ext.parse_ip (ext.split_host_port e.host).0) ≡ false)
        × (0 < port_of e)
        × (port_of e ≤ 65535)
  check_host-bounds e endpoint small h =
      let (there, checked) = ok-if _ _ _ endpoint h in
      let (same, low, high) = check_port-bounds e endpoint _ _ small checked in
      (same, there, low, high)

  parsed-bounds :
      (r : Result Url) (endpoint : Url)
      → ((e : Url) → r ≡ ok e → port_of e < 2 ^ 63)
      → check_parsed ext r ≡ ok endpoint
      → (r ≡ ok endpoint)
        × (is_nil (ext.parse_ip (ext.split_host_port endpoint.host).0) ≡ false)
        × (0 < port_of endpoint)
        × (port_of endpoint ≤ 65535)
  parsed-bounds (ok e) endpoint digits h =
      let (same, there, low, high) = check_host-bounds e endpoint (digits e refl) h in
      subst
        (λ (u : Url).
          (ok e ≡ ok u)
          × (is_nil (ext.parse_ip (ext.split_host_port u.host).0) ≡ false)
          × (0 < port_of u)
          × (port_of u ≤ 65535))
        same (refl, there, low, high)
  parsed-bounds (err x) endpoint digits h = cc h

  -- An endpoint that validateAPIEndpoint accepts is the parsed URL, with an IP address as its host
  -- and a port from 1 to 65535, which the conversion to int32 keeps, if the library's parser lets
  -- no port pass that is negative.
  pub validate_api_endpoint-bounds :
      (text : String) (endpoint : Url)
      → ((e : Url) → ext.url_parse text ≡ ok e → port_of e < 2 ^ 63)
      → validate_api_endpoint ext text ≡ ok endpoint
      → (ext.url_parse text ≡ ok endpoint)
        × (is_nil (ext.parse_ip (ext.split_host_port endpoint.host).0) ≡ false)
        × (0 < port_of endpoint)
        × (port_of endpoint ≤ 65535)
        × (to_int32 (port_of endpoint) ≡ port_of endpoint)
  unfolding validate_api_endpoint
  validate_api_endpoint-bounds text endpoint digits h =
      let (same, there, low, high) = parsed-bounds (ext.url_parse text) endpoint digits h in
      (same, there, low, high, omega arith)
