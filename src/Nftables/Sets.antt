-- ===== src/Nftables/Sets.antt =====
-- pkg/nftables/nftables.go: elements of the common sets, and the affinity maps.
pub mod Laws
use nfproxy.Prelude.{ℕ, String, List, [], ◌∷◌, true, false}
use nfproxy.Go.{⊤, Error, from_lib, message, ebusy, eexist, enoent, Result, ok, err}
use nfproxy.Go.Exec.{Exec, pure, fail, wrap, ◌>>◌}
use nfproxy.External.{
  External, nft_jump, TableFamily, ipv4, ipv6, SetDatatype, type_inet_proto, type_ip_addr,
  type_ip6_addr, type_inet_service, type_integer, inet_proto, ip_addr, inet_service, SetAttributes,
}
use nfproxy.Nftables.Base.{
  NftInterface, si_for_table_family, proto_byte_from_v1_proto, set_action_verdict, nodeport_set,
  affinity_map,
}

-- What the callers of `SetAddElements` make of its error: an element that is there already counts
-- as added.
abbrev pub forgive_eexist : Error → Result ⊤
forgive_eexist (from_lib ebusy) = err (from_lib ebusy)
forgive_eexist (from_lib eexist) = ok tt
forgive_eexist e = err e

-- The same after `SetDelElements`, for an element that is not there.
abbrev pub forgive_enoent : Error → Result ⊤
forgive_enoent (from_lib ebusy) = err (from_lib ebusy)
forgive_enoent (from_lib enoent) = ok tt
forgive_enoent e = err e

abbrev pub recover : (Error → Result ⊤) → Result ⊤ → Result ⊤
recover h (ok a) = ok a
recover h (err e) = h e

abbrev pub catch : {S : Type 0} → (Error → Result ⊤) → Exec S ⊤ → Exec S ⊤
catch h m s = let (r, s') = m s in (recover h r, s')

module _ (ext : External) where
  open ext use {Kernel, Element}

  abbrev ip_for_family : TableFamily → String → List ℕ
  ip_for_family ipv4 addr = ext.to4 (ext.parse_ip addr)
  ip_for_family ipv6 addr = ext.to16 (ext.parse_ip addr)

  abbrev ip_datatype : TableFamily → SetDatatype
  ip_datatype ipv4 = type_ip_addr
  ip_datatype ipv6 = type_ip6_addr

  -- proto.ip.port with a jump to the chain
  abbrev pub service_element : TableFamily → String → String → ℕ → String → Result Element
  service_element fam proto addr port chain =
      ext.make_concat_element (type_inet_proto ∷ ip_datatype fam ∷ type_inet_service ∷ [])
        (inet_proto (proto_byte_from_v1_proto proto)
          ∷ ip_addr (ip_for_family fam addr)
          ∷ inet_service port
          ∷ [])
        (set_action_verdict ext nft_jump (chain ∷ []))

  -- proto.port with a jump to the chain
  abbrev pub nodeport_element : String → ℕ → String → Result Element
  nodeport_element proto port chain =
      ext.make_concat_element (type_inet_proto ∷ type_inet_service ∷ [])
        (inet_proto (proto_byte_from_v1_proto proto) ∷ inet_service port ∷ [])
        (set_action_verdict ext nft_jump (chain ∷ []))

  abbrev with_element : Result Element → (Element → Exec Kernel ⊤) → Exec Kernel ⊤
  with_element (ok element) f = f element
  with_element (err e) f = fail (message "failed to create a concat element with error")

  unfoldable pub add_to_set :
      NftInterface → TableFamily → String → String → ℕ → String → String → Exec Kernel ⊤
  add_to_set nfti fam proto addr port set_name chain =
      with_element (service_element fam proto addr port chain) λ element.
        catch forgive_eexist
          (ext.sets_add_elements (si_for_table_family nfti fam) set_name (element ∷ []))

  unfoldable pub remove_from_set :
      NftInterface → TableFamily → String → String → ℕ → String → String → Exec Kernel ⊤
  remove_from_set nfti fam proto addr port set_name chain =
      with_element (service_element fam proto addr port chain) λ element.
        catch forgive_enoent
          (ext.sets_del_elements (si_for_table_family nfti fam) set_name (element ∷ []))

  unfoldable pub add_to_nodeport_set :
      NftInterface → TableFamily → String → ℕ → String → Exec Kernel ⊤
  add_to_nodeport_set nfti fam proto port chain =
      with_element (nodeport_element proto port chain) λ element.
        catch forgive_eexist
          (ext.sets_add_elements (si_for_table_family nfti fam) nodeport_set (element ∷ []))

  unfoldable pub remove_from_nodeport_set :
      NftInterface → TableFamily → String → ℕ → String → Exec Kernel ⊤
  remove_from_nodeport_set nfti fam proto port chain =
      with_element (nodeport_element proto port chain) λ element.
        catch forgive_enoent
          (ext.sets_del_elements (si_for_table_family nfti fam) nodeport_set (element ∷ []))

  -- The key type is TypeIPAddr in either family.
  abbrev affinity_attributes : String → ℕ → SetAttributes
  affinity_attributes svc_id timeout = record {
    name = affinity_map svc_id;
    constant = false;
    is_map = true;
    has_timeout = true;
    timeout = timeout;
    key_type = type_ip_addr ∷ [];
    data_type = type_integer;
  }

  unfoldable pub add_service_affinity_map : NftInterface → TableFamily → String → ℕ → Exec Kernel ⊤
  add_service_affinity_map nfti fam svc_id timeout = do
    wrap "failed to create affinity map"
        (ext.sets_create_set (si_for_table_family nfti fam) (affinity_attributes svc_id timeout))
    pure tt

  unfoldable pub delete_service_affinity_map : NftInterface → TableFamily → String → Exec Kernel ⊤
  delete_service_affinity_map nfti fam svc_id =
      wrap "failed to delete affinity map"
        (ext.sets_del_set (si_for_table_family nfti fam) (affinity_map svc_id))
