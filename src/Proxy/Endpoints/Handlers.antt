-- ===== src/Proxy/Endpoints/Handlers.antt =====
-- pkg/proxy/proxy_endpoints.go: the handlers of Endpoints events. Errors are only logged.
use nfproxy.Prelude.{Bool, true, not, ◌&&◌, ◌==◌, text_Eq, List, [], ◌∷◌, lookup, if◌then◌else◌}
use nfproxy.Go.{⊤, Result, ok, err}
use nfproxy.Go.Act.{if_some, if_ok, Act, pure, gets, checked, ◌>>=◌, ◌>>◌, for_each}
use nfproxy.External.{External}
use nfproxy.Kube.{Endpoints}
use nfproxy.Proxy.Types.{EpInfo, port_name_Eq}
use nfproxy.Proxy.Tools.{is_port_in_subset}
use nfproxy.Proxy.Cache.{store_ep_in_cache, remove_ep_from_cache, get_last_known_ep_from_cache}
use nfproxy.Proxy.State.{Proxy, cache_act, set_cache}
use nfproxy.Proxy.Endpoints.Subsets.{process_ep_subsets}
use nfproxy.Proxy.Endpoints.{add_endpoint, delete_endpoint}

-- What a list of processed endpoints is, if there was no error (`info, _ := …`).
abbrev pub infos : Result (List EpInfo) → List EpInfo
infos (ok xs) = xs
infos (err e) = []

-- The old object is the one in the cache, or else the one of the event.
abbrev pub stored_or : {A : Type 0} → Result A → A → A
stored_or (ok a) old = a
stored_or (err e) old = old

module _ (ext : External) where
  open ext use {Kernel}

  -- A loop that adds what passes the test and returns at the first error.
  unfoldable pub add_each : (EpInfo → Bool) → List EpInfo → Act (Proxy Kernel) (Result ⊤)
  add_each wanted [] = pure (ok tt)
  add_each wanted (e ∷ es) =
      let rest = add_each wanted es in
      if wanted e then checked (add_endpoint ext e.name e.addr e.port) rest else rest

  -- Remove one endpoint, if the service port has an entry.
  unfoldable pub delete_known : EpInfo → Act (Proxy Kernel) ⊤
  delete_known e = do
    known ← gets (λ p. lookup e.name p.endpoints_map)
    if_some (pure tt) (λ eps. delete_endpoint ext e.name e.addr e.port eps >> pure tt) known

  unfoldable pub add_endpoints : Endpoints → Act (Proxy Kernel) ⊤
  add_endpoints ep = do
    cache_act (store_ep_in_cache ep)
    if_ok (λ info. add_each (λ _. true) info >> pure tt) (process_ep_subsets ep)

  unfoldable pub delete_endpoints : Endpoints → Act (Proxy Kernel) ⊤
  delete_endpoints ep =
      if_ok
        (λ info.
          for_each info delete_known
          >> set_cache (remove_ep_from_cache ep.meta.name ep.meta.namespace))
        (process_ep_subsets ep)

  unfoldable pub replace_endpoints : Endpoints → Endpoints → Act (Proxy Kernel) ⊤
  replace_endpoints stored new =
      if_ok
        (λ info.
          checked (add_each (λ e. not (is_port_in_subset stored.subsets e.port e.addr)) info) (
            for_each (infos (process_ep_subsets stored))
              (λ e. if is_port_in_subset new.subsets e.port e.addr then pure tt else delete_known e)
            >> cache_act (store_ep_in_cache new)
            >> pure (ok tt))
          >> pure tt)
        (process_ep_subsets new)

  unfoldable pub update_endpoints : Endpoints → Endpoints → Act (Proxy Kernel) ⊤
  update_endpoints old new = if new.meta.namespace == "" && new.meta.name == "" then pure tt else do
    cache ← gets (λ p. p.cache)
    replace_endpoints
        (stored_or (get_last_known_ep_from_cache cache new.meta.name new.meta.namespace) old) new
