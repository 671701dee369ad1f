-- ===== src/EndpointsGen/Cluster.antt =====
-- pkg/endpointsgen/util.go: the calls of the Kubernetes API, and GenerateTestObjects as a whole.
use nfproxy.Prelude.{
  ℕ, String, text_Eq, ◌==◌, Bool, true, false, Option, none, some, List, [], ◌∷◌, if◌then◌else◌,
}
use nfproxy.Go.{⊤, Result, ok, err}
use nfproxy.Go.Exec
use nfproxy.Go.Exec.{Exec, for_each}
use nfproxy.Go.Act.{Act, pure, run, deref, on_ok, checked, ◌>>=◌}
use nfproxy.External.{External}
use nfproxy.Kube.{Service, Endpoints}
use nfproxy.EndpointsGen.Addresses.{check_starting_ip}
use nfproxy.EndpointsGen.Objects.{
  total_ips, stress_test_label, generate_subsets, generate_endpoints, generate_services,
}

-- kubernetes.Clientset, by the calls of the generator; a namespace and a listed service are given
-- by their names.
pub record Clientset : Type 1 where
  pub State : Type 0
  pub namespaces_list : Exec State (List String)
  pub namespaces_create : String → Exec State ⊤
  pub endpoints_create : String → Endpoints → Exec State ⊤
  pub services_create : String → Service → Exec State ⊤
  -- by the label selector
  pub endpoints_delete_collection : String → String → Exec State ⊤
  pub services_list : String → String → Exec State (List String)
  pub services_delete : String → String → Exec State ⊤

module _ (k8s : Clientset) where
  open k8s use {State}

  unfoldable has_name : String → List String → Bool
  has_name name [] = false
  has_name name (x ∷ xs) = if x == name then true else has_name name xs

  unfoldable pub ensure_namespace : String → Exec State ⊤
  unfolding has_name
  ensure_namespace namespace =
      Exec.◌>>=◌ k8s.namespaces_list
        λ items. if has_name namespace items then Exec.pure tt else k8s.namespaces_create namespace

  unfoldable pub create_end_point : List Endpoints → Exec State ⊤
  create_end_point eps = for_each eps (λ ep. k8s.endpoints_create ep.meta.namespace ep)

  unfoldable pub create_service : List Service → Exec State ⊤
  create_service svcs = for_each svcs (λ svc. k8s.services_create svc.meta.namespace svc)

  unfoldable pub delete_end_points : String → Exec State ⊤
  delete_end_points namespace = k8s.endpoints_delete_collection namespace stress_test_label

  -- The errors of the deletions are ignored.
  unfoldable pub delete_each : String → List String → State → State
  delete_each namespace [] s = s
  delete_each namespace (name ∷ names) s =
      delete_each namespace names (k8s.services_delete namespace name s).1

  unfoldable pub delete_services : String → Exec State ⊤
  unfolding delete_each
  delete_services namespace =
      Exec.◌>>=◌ (k8s.services_list namespace stress_test_label)
        λ names s. (ok tt, delete_each namespace names s)

  unfoldable pub clean_services_and_endpoints : String → State → State
  unfolding delete_services delete_end_points
  clean_services_and_endpoints namespace s =
      (delete_services namespace (delete_end_points namespace s).1).1

  module _ (ext : External) (uuids : ℕ → String) where
    abbrev with_family : Bool → Option (Result (List ℕ)) → Option (Result (Bool × List ℕ))
    with_family is_ipv6 none = none
    with_family is_ipv6 (some (err e)) = some (err e)
    with_family is_ipv6 (some (ok addr)) = some (ok (is_ipv6, addr))

    -- A nil address for all other modes.
    unfoldable pub starting_address : String → ℕ → String → String → Option (Result (Bool × List ℕ))
    starting_address mode total start_ipv4 start_ipv6 =
        if mode == "ipv4"
        then with_family false (check_starting_ip ext start_ipv4 total false)
        else if mode == "ipv6"
        then with_family true (check_starting_ip ext start_ipv6 total true)
        else some (ok (false, []))

    unfoldable pub generate_test_objects :
        String → String → ℕ → ℕ → ℕ → String → String → Act State (Result ⊤)
    unfolding starting_address
    generate_test_objects namespace mode svc_number subset_number ip_in_subset start_ipv4
          start_ipv6 =
        do
          let total = total_ips svc_number subset_number ip_in_subset
          start ← deref (starting_address mode total start_ipv4 start_ipv6)
          on_ok
              (λ (is_ipv6, addr). do
                subsets ← deref (generate_subsets ext addr is_ipv6 total ip_in_subset)
                let eps = generate_endpoints uuids subsets namespace subset_number
                checked (run (create_service (generate_services eps)))
                    (checked (run (create_end_point eps)) (pure (ok tt))))
              start
