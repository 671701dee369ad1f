-- ===== src/Command/Served.antt =====
-- The whole process: main, and then notifications of the informers that it starts, in any order.
use nfproxy.Prelude.{
  String, text_Eq, ◌≡◌, refl, sym, subst, Bool, true, not, Option, none, some, is_some, ◌∙◌, inl,
  inr,
}
use nfproxy.Go.{⊤, Result, ok, err}
use nfproxy.Go.Hoare.{Post, Keeps, Keeps-run, Keeps-pure, Keeps-bind, Keeps-if, Keeps-on_ok}
use nfproxy.External.{External, Url}
use nfproxy.Kube.{Service, Endpoints, EndpointSlice}
use nfproxy.Nftables.Base.{NftInterface}
use nfproxy.Proxy.State.{Proxy, new_proxy}
use nfproxy.Proxy.Bootstrap.{bootstrap_rules}
use nfproxy.Proxy.Invariant.Events.{Event, service_added, endpoints_added, slice_added, handle}
use nfproxy.Proxy.Types.{NamespacedName}
use nfproxy.Proxy.Cache.{
  Cache, Store, put, store_svc_in_cache, store_ep_in_cache, store_ep_sl_in_cache,
}
use nfproxy.Proxy.Stores.{OfCache}
use nfproxy.Proxy.Stores.Shape.{HasStores}
use nfproxy.Proxy.Stores.Events.{handle-HasStores, new_proxy-HasStores}
use nfproxy.Controller.Notify.{Informer, services, endpoints, endpoint_slices, Notification, notify}
use nfproxy.Controller.Refinement.{Moved, notify-Moved}
use nfproxy.Command.{
  Flags, Environment, bootstrap, finish, with_hostname, with_interface, with_client, start,
}

-- The controllers that main makes: the one of endpoints or the one of slices.
abbrev pub is_started : Flags → Informer → Bool
is_started flags services = true
is_started flags endpoints = not flags.endpoint_slice
is_started flags endpoint_slices = flags.endpoint_slice

-- Storing an object of the informer's kind does not panic.
abbrev pub CanStore : Informer → Cache → Type 0
CanStore services c = (x : Service) → is_some (store_svc_in_cache x c) ≡ true
CanStore endpoints c = (x : Endpoints) → is_some (store_ep_in_cache x c) ≡ true
CanStore endpoint_slices c = (x : EndpointSlice) → is_some (store_ep_sl_in_cache x c) ≡ true

store-some :
    {A : Type 0} (f : Store A → Cache) (k : NamespacedName) (x : A) (o : Store A)
    → is_some o ≡ true
    → is_some
        (elim (put k x o) as (λ _. Option (⊤ × Cache)) [ none ↦ none | some m ↦ some (tt, f m) ])
      ≡ true
unfolding put
store-some f k x none h = cc h
store-some f k x (some m) h = refl

started-CanStore :
    (flags : Flags) (i : Informer) (c : Cache)
    → HasStores flags.endpoint_slice c
    → is_started flags i ≡ true
    → CanStore i c
unfolding store_svc_in_cache store_ep_in_cache store_ep_sl_in_cache
started-CanStore flags services c h on =
    λ x. store-some (λ m. record c { svc_cache = m }) _ x c.svc_cache h.svc
started-CanStore flags endpoints c h on =
    λ x. store-some (λ m. record c { ep_cache = m }) _ x c.ep_cache (h.ep ∙ on)
started-CanStore flags endpoint_slices c h on =
    λ x. store-some (λ m. record c { epsl_cache = m }) _ x c.epsl_cache (h.epsl ∙ on)

module _ (ext : External) (flags : Flags) (env : Environment) where
  open ext use {Kernel}

  -- The states of the proxy between two notifications.
  pub data Served : Proxy Kernel → Type 0 where
    begun : (k : Kernel) (p : Proxy Kernel) → start ext flags env k ≡ some (ok p) → Served p
    notified :
        (p q : Proxy Kernel) (i : Informer) (n : Notification)
        → is_started flags i ≡ true
        → Served p
        → notify ext i n p ≡ some (tt, q)
        → Served q

  -- What holds of a new proxy and is kept by every event holds in all these states.
  module _ (P : Proxy Kernel → Type 0) (keeps : (e : Event) → Keeps P (handle ext e))
      (first : (nfti : NftInterface) (k : Kernel) (host : String)
        → P (new_proxy nfti k host flags.endpoint_slice)) where
    bootstrap_rules-Keeps :
        (in_host in_port : String) (endpoint : Url) (slices : Bool)
        → Keeps P (bootstrap_rules ext in_host in_port endpoint slices)
    unfolding bootstrap_rules handle
    bootstrap_rules-Keeps in_host in_port endpoint slices =
        Keeps-bind _ _ (keeps (service_added _))
          (λ _. Keeps-if slices _ _ (keeps (slice_added _)) (keeps (endpoints_added _)))

    bootstrap-Keeps : Keeps P (bootstrap ext flags env)
    unfolding bootstrap
    bootstrap-Keeps =
        Keeps-if _ _ _
          (Keeps-if _ _ _ (Keeps-pure _) (
            Keeps-on_ok _ _ λ endpoint.
              Keeps-bind _ _
                (bootstrap_rules-Keeps env.service_host env.service_port endpoint
                  flags.endpoint_slice)
                (λ _. Keeps-pure _)))
          (Keeps-pure _)

    finish_lem :
        (o : Option (Result ⊤ × Proxy Kernel)) (q : Proxy Kernel)
        → Post (λ (_ : Result ⊤). P) o
        → finish ext o ≡ some (ok q)
        → P q
    finish_lem none q h e = cc e
    finish_lem (some (ok _, p)) q h e = subst P (cc e) h
    finish_lem (some (err x, p)) q h e = cc e

    with_hostname_lem :
        (nfti : NftInterface) (k : Kernel) (host : Result String) (q : Proxy Kernel)
        → with_hostname ext flags env nfti k host ≡ some (ok q)
        → P q
    with_hostname_lem nfti k (ok host) q e =
        finish_lem _ q (bootstrap-Keeps.at _ (first nfti k host)) e
    with_hostname_lem nfti k (err x) q e = cc e

    with_interface_lem :
        (o : Option (Result NftInterface × Kernel)) (q : Proxy Kernel)
        → with_interface ext flags env o ≡ some (ok q)
        → P q
    with_interface_lem none q e = cc e
    with_interface_lem (some (ok nfti, k)) q e = with_hostname_lem nfti k env.hostname q e
    with_interface_lem (some (err x, k)) q e = cc e

    with_client_lem :
        (k : Kernel) (client : Result ⊤) (q : Proxy Kernel)
        → with_client ext flags env k client ≡ some (ok q)
        → P q
    with_client_lem k (ok _) q e = with_interface_lem _ q e
    with_client_lem k (err x) q e = cc e

    Moved-keeps : (i : Informer) (p q : Proxy Kernel) → P p → Moved ext i p q → P q
    Moved-keeps i p q r (inl same) = subst P (sym same) r
    Moved-keeps i p q r (inr (e, _, h)) = Keeps-run (handle ext e) p q tt (keeps e) r h

    Served-keeps : (p : Proxy Kernel) → Served p → P p
    unfolding start
    Served-keeps _ (begun k p e) = with_client_lem k env.client p e
    Served-keeps _ (notified p q i n on s h) =
        Moved-keeps i p q (Served-keeps p s) (notify-Moved ext i n p q h)

  Served-HasStores : (p : Proxy Kernel) → Served p → HasStores flags.endpoint_slice p.cache
  Served-HasStores p s =
      (Served-keeps (OfCache (HasStores flags.endpoint_slice))
        (handle-HasStores ext flags.endpoint_slice)
        (λ nfti k host. new_proxy-HasStores nfti k host flags.endpoint_slice) p s).of

  -- In every state that main and the notifications of its informers lead to, each object of the kind
  -- that a started controller is for can be stored in the cache without a write to a nil map.
  pub Served-CanStore :
      (p : Proxy Kernel) (i : Informer) → Served p → is_started flags i ≡ true → CanStore i p.cache
  Served-CanStore p i s on = started-CanStore flags i p.cache (Served-HasStores p s) on
