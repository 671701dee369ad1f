-- ===== src/Proxy/Endpoints/Resync.antt =====
-- pkg/proxy/proxy_endpoints.go: an UpdateEndpoints that brings the object that is stored already.
use nfproxy.Prelude.{
  ◌≡◌, refl, ap, Bool, true, false, not, ◌&&◌, ◌==◌, text_Eq, Option, none, some, List, [], ◌∷◌,
  All, if◌then◌else◌,
}
use nfproxy.Go.{⊤, Result, ok, err}
use nfproxy.Go.Act.{Act, pure, resume, if_ok, for_each, ◌>>=◌, ◌>>◌}
use nfproxy.External.{External}
use nfproxy.Kube.{Endpoints}
use nfproxy.Proxy.Types.{EpInfo}
use nfproxy.Proxy.Cache.{store_ep_in_cache, get_last_known_ep_from_cache}
use nfproxy.Proxy.Tools.{is_port_in_subset}
use nfproxy.Proxy.State.{Proxy, cache_act}
use nfproxy.Proxy.Endpoints.Subsets.{process_ep_subsets}
use nfproxy.Proxy.Endpoints.Handlers.{
  stored_or, add_each, delete_known, replace_endpoints, update_endpoints,
}
use nfproxy.Proxy.Endpoints.Laws.{AllOk, IsEntryOf, process_ep_subsets-IsEntryOf}

module _ {S : Type 0} where
  dropped_ok :
      (o : Option (⊤ × S))
      → resume (resume o (λ _. pure {A = Result ⊤} (ok tt))) (λ _. pure {A = ⊤} tt) ≡ o
  unfolding ◌>>=◌
  dropped_ok none = refl
  dropped_ok (some (_, s)) = refl

  -- What is left of a replacement of which the loop does nothing.
  rest_of_replacement :
      (m n : Act S ⊤) (s : S)
      → m s ≡ some (tt, s)
      → resume ((m >> n >> pure {A = Result ⊤} (ok tt)) s) (λ _. pure {A = ⊤} tt) ≡ n s
  unfolding ◌>>=◌
  rest_of_replacement m n s h = rw h (dropped_ok (n s))

module _ (ext : External) where
  -- Nothing is added if no entry is wanted.
  add_each-none :
      (wanted : EpInfo → Bool) (es : List EpInfo)
      → All (λ e. wanted e ≡ false) es
      → add_each ext wanted es ≡ pure (ok tt)
  unfolding add_each
  add_each-none wanted [] all = refl
  add_each-none wanted (e ∷ es) all = rw all.0 (add_each-none wanted es all.1)

  -- Nothing is removed if every entry is kept.
  keep_each :
      (kept : EpInfo → Bool) (es : List EpInfo) (p : Proxy ext.Kernel)
      → All (λ e. kept e ≡ true) es
      → for_each es (λ e. if kept e then pure tt else delete_known ext e) p ≡ some (tt, p)
  unfolding for_each ◌>>=◌
  keep_each kept [] p all = refl
  keep_each kept (e ∷ es) p all = rw all.0 (keep_each kept es p all.1)

  module _ (ep : Endpoints) where
    abbrev known : EpInfo → Bool
    known e = is_port_in_subset ep.subsets e.port e.addr

    All-found :
        (es : List EpInfo)
        → All (IsEntryOf ep.meta (is_port_in_subset ep.subsets)) es
        → All (λ e. known e ≡ true) es
    All-found [] all = tt
    All-found (e ∷ es) all = (all.0.in_subsets, All-found es all.1)

    All-unwanted :
        (es : List EpInfo) → All (λ e. known e ≡ true) es → All (λ e. not (known e) ≡ false) es
    All-unwanted [] all = tt
    All-unwanted (e ∷ es) all = (ap not all.0, All-unwanted es all.1)

    replace_same :
        (r : Result (List EpInfo)) (p : Proxy ext.Kernel)
        → process_ep_subsets ep ≡ r
        → AllOk (IsEntryOf ep.meta (is_port_in_subset ep.subsets)) r
        → replace_endpoints ext ep ep p ≡ if_ok (λ _. cache_act (store_ep_in_cache ep)) r p
    unfolding replace_endpoints ◌>>=◌
    replace_same (err e) p h all = rw h refl
    replace_same (ok es) p h all =
        rw (h, add_each-none (λ e. not (known e)) es (All-unwanted es (All-found es all)))
          (rest_of_replacement (for_each es (λ e. if known e then pure tt else delete_known ext e))
            (cache_act (store_ep_in_cache ep)) p (keep_each known es p (All-found es all)))

    -- An update that brings the object that is stored, and is not without a name, programs nothing
    -- and changes no endpoint: it only stores the object again, or does nothing if the object is
    -- not valid.
    pub update_endpoints-resync :
        (p : Proxy ext.Kernel)
        → (ep.meta.namespace == "" && ep.meta.name == "") ≡ false
        → stored_or (get_last_known_ep_from_cache p.cache ep.meta.name ep.meta.namespace) ep ≡ ep
        → update_endpoints ext ep ep p
          ≡ if_ok (λ _. cache_act (store_ep_in_cache ep)) (process_ep_subsets ep) p
    unfolding update_endpoints ◌>>=◌
    update_endpoints-resync p named stored =
        rw (named, stored)
          (replace_same (process_ep_subsets ep) p refl (process_ep_subsets-IsEntryOf ep))
