-- ===== src/Nftables/Sets/Laws.antt =====
-- pkg/nftables/nftables.go: which errors of the library the operations on set elements report.
use nfproxy.Prelude.{ℕ, String, ◌≡◌, refl, [], ◌∷◌, ◌⊎◌, inl, inr, ◌↔◌, true}
use nfproxy.Go.{⊤, Error, from_lib, message, ebusy, eexist, enoent, other, Result, ok, err, is_ok}
use nfproxy.External.{External, TableFamily}
use nfproxy.Nftables.Base.{NftInterface, si_for_table_family, nodeport_set}
use nfproxy.Nftables.Sets.{
  recover, forgive_eexist, forgive_enoent, service_element, nodeport_element, add_to_set,
  remove_from_set, add_to_nodeport_set, remove_from_nodeport_set,
}

-- An operation on an element answers without an error exactly if the library did, or had nothing
-- to do.
abbrev pub Forgives : Error → Result ⊤ → Result ⊤ → Type 0
Forgives e answer result = (is_ok result ≡ true) ↔ ((answer ≡ ok tt) ⊎ (answer ≡ err e))

Forgives-eexist : (r : Result ⊤) → Forgives (from_lib eexist) r (recover forgive_eexist r)
Forgives-eexist (ok _) = ((λ _. inl refl), (λ _. refl))
Forgives-eexist (err (from_lib eexist)) = ((λ _. inr refl), (λ _. refl))
Forgives-eexist (err (from_lib ebusy)) =
    ((λ h. cc h), (λ h. elim h [ inl e ↦ cc e | inr e ↦ cc e ]))
Forgives-eexist (err (from_lib enoent)) =
    ((λ h. cc h), (λ h. elim h [ inl e ↦ cc e | inr e ↦ cc e ]))
Forgives-eexist (err (from_lib other)) =
    ((λ h. cc h), (λ h. elim h [ inl e ↦ cc e | inr e ↦ cc e ]))
Forgives-eexist (err (message s)) = ((λ h. cc h), (λ h. elim h [ inl e ↦ cc e | inr e ↦ cc e ]))

Forgives-enoent : (r : Result ⊤) → Forgives (from_lib enoent) r (recover forgive_enoent r)
Forgives-enoent (ok _) = ((λ _. inl refl), (λ _. refl))
Forgives-enoent (err (from_lib enoent)) = ((λ _. inr refl), (λ _. refl))
Forgives-enoent (err (from_lib ebusy)) =
    ((λ h. cc h), (λ h. elim h [ inl e ↦ cc e | inr e ↦ cc e ]))
Forgives-enoent (err (from_lib eexist)) =
    ((λ h. cc h), (λ h. elim h [ inl e ↦ cc e | inr e ↦ cc e ]))
Forgives-enoent (err (from_lib other)) =
    ((λ h. cc h), (λ h. elim h [ inl e ↦ cc e | inr e ↦ cc e ]))
Forgives-enoent (err (message s)) = ((λ h. cc h), (λ h. elim h [ inl e ↦ cc e | inr e ↦ cc e ]))

module _ (ext : External) (nfti : NftInterface) (fam : TableFamily) (proto : String) where
  open ext use {Kernel, Element}

  -- If the element can be made, adding it to a set and removing it from there succeed exactly if
  -- the library does, or says that the element is there already, or that it is not there.
  pub set_elements-Forgive :
      (addr : String) (port : ℕ) (set_name chain : String) (e : Element) (k : Kernel)
      → service_element ext fam proto addr port chain ≡ ok e
      → Forgives
          (from_lib eexist)
          (ext.sets_add_elements (si_for_table_family nfti fam) set_name (e ∷ []) k).0
          (add_to_set ext nfti fam proto addr port set_name chain k).0
        × Forgives
            (from_lib enoent)
            (ext.sets_del_elements (si_for_table_family nfti fam) set_name (e ∷ []) k).0
            (remove_from_set ext nfti fam proto addr port set_name chain k).0
  unfolding add_to_set remove_from_set
  set_elements-Forgive addr port set_name chain e k h = rw h (Forgives-eexist _, Forgives-enoent _)

  -- If the element can be made, adding a node port to the set of node ports and removing it from
  -- there succeed exactly if the library does, or says that the element is there already, or that it
  -- is not there.
  pub nodeport_elements-Forgive :
      (port : ℕ) (chain : String) (e : Element) (k : Kernel)
      → nodeport_element ext proto port chain ≡ ok e
      → Forgives
          (from_lib eexist)
          (ext.sets_add_elements (si_for_table_family nfti fam) nodeport_set (e ∷ []) k).0
          (add_to_nodeport_set ext nfti fam proto port chain k).0
        × Forgives
            (from_lib enoent)
            (ext.sets_del_elements (si_for_table_family nfti fam) nodeport_set (e ∷ []) k).0
            (remove_from_nodeport_set ext nfti fam proto port chain k).0
  unfolding add_to_nodeport_set remove_from_nodeport_set
  nodeport_elements-Forgive port chain e k h = rw h (Forgives-eexist _, Forgives-enoent _)
