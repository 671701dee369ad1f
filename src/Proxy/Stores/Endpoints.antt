-- ===== src/Proxy/Stores/Endpoints.antt =====
-- What the handlers of Endpoints and of EndpointSlices do to the cache, which is `c` at the start.
use nfproxy.Prelude.{
  text_Eq, ◌≡◌, refl, sym, subst, ◌⊎◌, inl, inr, Bool, true, false, List, [], ◌∷◌, if◌then◌else◌,
}
use nfproxy.Go.{⊤, Result, ok, err}
use nfproxy.Go.Act.{Act, if_ok, ◌>>=◌, ◌>>◌}
use nfproxy.Go.Hoare.{
  Hoare, Hoare-bind, Hoare-weaken, Hoare-checked, Keeps, Keeps-pure, Keeps-gets, Keeps-if,
  Keeps-checked, Keeps-for_each,
}
use nfproxy.External.{External}
use nfproxy.Kube.{Endpoints, EndpointSlice}
use nfproxy.Proxy.Types.{EpInfo}
use nfproxy.Proxy.Cache.{
  Cache, store_ep_in_cache, remove_ep_from_cache, store_ep_sl_in_cache, remove_ep_sl_from_cache,
}
use nfproxy.Proxy.State.{Proxy, cache_act}
use nfproxy.Proxy.Endpoints.Subsets.{process_ep_subsets}
use nfproxy.Proxy.Endpoints.Handlers.{
  add_each, delete_known, add_endpoints, delete_endpoints, replace_endpoints, update_endpoints,
}
use nfproxy.Proxy.Slices.{
  add_endpoint_slice, delete_endpoint_slice, update_slice_port, replace_new_slice_ports,
  remove_old_slice_ports, replace_endpoint_slice, update_endpoint_slice,
}
use nfproxy.Proxy.Invariant.Slices.{process_ep_slice-Keeps}
use nfproxy.Proxy.Stores.{OfCache, cache_rules, add_endpoint-OfCache, delete_endpoint-OfCache}
use nfproxy.Proxy.Stores.Handlers.{Stored, cache_act-Stored, set_cache-Set}

-- Stored, or left alone because of an error.
abbrev pub Kept : Act Cache ⊤ → Cache → Cache → Type 0
Kept m c c' = Stored m c c' ⊎ (c' ≡ c)

abbrev pub Dropped : (Cache → Cache) → Cache → Cache → Type 0
Dropped f c c' = (c' ≡ f c) ⊎ (c' ≡ c)

module _ (ext : External) (c : Cache) where
  abbrev Start : Proxy ext.Kernel → Type 0
  Start = OfCache (λ c'. c' ≡ c)

  module _ {Q : Cache → Type 0} where
    pub add_each-OfCache :
        (wanted : EpInfo → Bool) (es : List EpInfo) → Keeps (OfCache Q) (add_each ext wanted es)
    unfolding add_each
    add_each-OfCache wanted [] = Keeps-pure (ok tt)
    add_each-OfCache wanted (e ∷ es) =
        Keeps-if (wanted e) _ _
          (Keeps-checked _ _ (add_endpoint-OfCache ext e.name e.addr e.port)
            (add_each-OfCache wanted es))
          (add_each-OfCache wanted es)

    pub delete_known-OfCache : (e : EpInfo) → Keeps (OfCache Q) (delete_known ext e)
    unfolding delete_known
    delete_known-OfCache e = search (cache_rules, delete_endpoint-OfCache) depth 10

  pub add_endpoints-Stored :
      (ep : Endpoints)
      → Hoare Start (add_endpoints ext ep) (λ _. OfCache (Stored (store_ep_in_cache ep) c))
  unfolding add_endpoints
  add_endpoints-Stored ep =
      Hoare-bind _ _ (λ _. OfCache (Stored (store_ep_in_cache ep) c)) _
        (cache_act-Stored c (store_ep_in_cache ep))
        (λ _. search (cache_rules, add_each-OfCache) depth 10)

  if_ok-Hoare :
      {A : Type 0} (Q : Cache → Type 0) (f : A → Act (Proxy ext.Kernel) ⊤) (r : Result A)
      → ((a : A) → Hoare Start (f a) (λ _. OfCache Q))
      → Q c
      → Hoare Start (if_ok f r) (λ _. OfCache Q)
  unfolding ◌>>=◌
  if_ok-Hoare Q f (ok a) h k = h a
  if_ok-Hoare Q f (err e) h k = record { at = λ p s. record { of = subst Q (sym s.of) k } }

  pub delete_endpoints-Dropped :
      (ep : Endpoints)
      → Hoare Start
          (delete_endpoints ext ep)
          (λ _. OfCache (Dropped (remove_ep_from_cache ep.meta.name ep.meta.namespace) c))
  unfolding delete_endpoints
  delete_endpoints-Dropped ep =
      if_ok-Hoare _ _ (process_ep_subsets ep)
        (λ info.
          Hoare-bind _ _ (λ _. Start) _ (search (cache_rules, delete_known-OfCache))
            (λ _. Hoare-weaken _ _ _ (λ _ p h. record { of = inl h.of }) (set_cache-Set c _)))
        (inr refl)

  store_last :
      {A : Type 0} (m : Act (Proxy ext.Kernel) A) (store : Act Cache ⊤)
      → Keeps Start m
      → Hoare Start (m >> cache_act store) (λ _. OfCache (Kept store c))
  store_last m store h =
      Hoare-bind _ _ (λ _. Start) _ h
        (λ _. Hoare-weaken _ _ _ (λ _ p k. record { of = inl k.of }) (cache_act-Stored c store))

  replace_endpoints-Kept :
      (stored new : Endpoints)
      → Hoare Start
          (replace_endpoints ext stored new)
          (λ _. OfCache (Kept (store_ep_in_cache new) c))
  unfolding replace_endpoints
  replace_endpoints-Kept stored new =
      if_ok-Hoare _ _ (process_ep_subsets new)
        (λ info.
          Hoare-bind _ _ (λ _. OfCache (Kept (store_ep_in_cache new) c)) _
            (Hoare-checked _ _ (λ p h. record { of = inr h.of }) (add_each-OfCache _ info)
              (Hoare-bind _ _ (λ _. OfCache (Kept (store_ep_in_cache new) c)) _
                (store_last _ (store_ep_in_cache new) (
                  Keeps-for_each _ _
                    (λ e. Keeps-if _ _ _ (Keeps-pure tt) (delete_known-OfCache e))))
                (λ _. Keeps-pure (ok tt))))
            (λ _. Keeps-pure tt))
        (inr refl)

  if-Hoare :
      (Q : Cache → Type 0) (b : Bool) (m n : Act (Proxy ext.Kernel) ⊤)
      → Hoare Start m (λ _. OfCache Q)
      → Hoare Start n (λ _. OfCache Q)
      → Hoare Start (if b then m else n) (λ _. OfCache Q)
  if-Hoare Q true m n hm hn = hm
  if-Hoare Q false m n hm hn = hn

  pub update_endpoints-Kept :
      (old new : Endpoints)
      → Hoare Start (update_endpoints ext old new) (λ _. OfCache (Kept (store_ep_in_cache new) c))
  unfolding update_endpoints
  update_endpoints-Kept old new =
      if-Hoare _ _ _ _ (Hoare-weaken _ _ _ (λ _ p h. record { of = inr h.of }) (Keeps-pure tt))
        (Hoare-bind _ _ (λ _. Start) _ (Keeps-gets _) (λ cache. replace_endpoints-Kept _ new))

  pub add_endpoint_slice-Stored :
      (epsl : EndpointSlice)
      → Hoare Start
          (add_endpoint_slice ext epsl)
          (λ _. OfCache (Stored (store_ep_sl_in_cache epsl) c))
  unfolding add_endpoint_slice
  add_endpoint_slice-Stored epsl =
      Hoare-bind _ _ (λ _. OfCache (Stored (store_ep_sl_in_cache epsl) c)) _
        (cache_act-Stored c (store_ep_sl_in_cache epsl))
        (λ _. search (cache_rules, process_ep_slice-Keeps, add_each-OfCache) depth 10)

  pub delete_endpoint_slice-Dropped :
      (epsl : EndpointSlice)
      → Hoare Start
          (delete_endpoint_slice ext epsl)
          (λ _. OfCache (Dropped (remove_ep_sl_from_cache epsl.meta.name epsl.meta.namespace) c))
  unfolding delete_endpoint_slice
  delete_endpoint_slice-Dropped epsl =
      Hoare-bind _ _ (λ _. Start) _ (process_ep_slice-Keeps epsl)
        λ r.
          if_ok-Hoare _ _ r
            (λ info.
              Hoare-bind _ _ (λ _. Start) _ (search (cache_rules, delete_known-OfCache) depth 8)
                (λ _. Hoare-weaken _ _ _ (λ _ p h. record { of = inl h.of }) (set_cache-Set c _)))
            (inr refl)

  module _ {Q : Cache → Type 0} where
    update_slice_port-OfCache :
        (old_ready found : Bool) (e : EpInfo)
        → Keeps (OfCache Q) (update_slice_port ext old_ready found e)
    unfolding update_slice_port
    update_slice_port-OfCache old_ready found e =
        search (cache_rules, delete_known-OfCache, add_endpoint-OfCache) depth 12

    replace_new_slice_ports-OfCache :
        (stored : EndpointSlice) (info : List EpInfo)
        → Keeps (OfCache Q) (replace_new_slice_ports ext stored info)
    unfolding replace_new_slice_ports
    replace_new_slice_ports-OfCache stored info =
        search (cache_rules, update_slice_port-OfCache) depth 10

    remove_old_slice_ports-OfCache :
        (new : EndpointSlice) (info : List EpInfo)
        → Keeps (OfCache Q) (remove_old_slice_ports ext new info)
    unfolding remove_old_slice_ports
    remove_old_slice_ports-OfCache new info = search (cache_rules, delete_known-OfCache) depth 10

  replace_endpoint_slice-Kept :
      (stored new : EndpointSlice)
      → Hoare Start
          (replace_endpoint_slice ext stored new)
          (λ _. OfCache (Kept (store_ep_sl_in_cache new) c))
  unfolding replace_endpoint_slice
  replace_endpoint_slice-Kept stored new =
      Hoare-bind _ _ (λ _. Start) _ (process_ep_slice-Keeps new)
        λ r.
          if_ok-Hoare _ _ r
            (λ info.
              Hoare-bind _ _ (λ _. Start) _ (replace_new_slice_ports-OfCache stored info)
                λ _.
                  Hoare-bind _ _ (λ _. Start) _ (process_ep_slice-Keeps stored)
                    λ q.
                      store_last _ (store_ep_sl_in_cache new)
                        (remove_old_slice_ports-OfCache new _))
            (inr refl)

  pub update_endpoint_slice-Kept :
      (old new : EndpointSlice)
      → Hoare Start
          (update_endpoint_slice ext old new)
          (λ _. OfCache (Kept (store_ep_sl_in_cache new) c))
  unfolding update_endpoint_slice
  update_endpoint_slice-Kept old new =
      Hoare-bind _ _ (λ _. Start) _ (Keeps-gets _) (λ cache. replace_endpoint_slice-Kept _ new)
