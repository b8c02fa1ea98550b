-- ===== src/Vm/States.antt =====
-- virtual_machine.go: the list of the states.
use teleskop.Api.Responses.{VirtualMachineState, ListVirtualMachineStateResponse}
use teleskop.Common.{⊤, ◌≡◌, refl, sym, List, [], ◌∷◌, map}
use teleskop.Go.Action.{Action}
use teleskop.Go.Bits.{bit_or}
use teleskop.Go.Error.{ok}
use teleskop.Go.Hex.{hex_text}
use teleskop.Go.Text.{Text}
use teleskop.Go.Triple.{Triple, Triple-any, Triple-pure, Triple-wrap, Triple-bind}
use teleskop.Vm.Handlers.{state_of, states_of, list_virtual_machine_state}
use teleskop.Vm.Libvirt.{Libvirt, Domain}

-- Who a state is of, and who a domain is.
abbrev pub state_names : VirtualMachineState → Text × Text
state_names s = (s.uuid, s.name)

abbrev pub domain_names : Domain → Text × Text
domain_names d = (hex_text d.uuid, d.name)

module _ {Host : Type 0} (libvirt : Libvirt Host) where
  states_of-names :
      (domains : List Domain)
      → Triple
          (λ _. ⊤)
          (states_of libvirt domains)
          (λ states _. map state_names states ≡ map domain_names domains)
  unfolding states_of state_of
  states_of-names [] = Triple-pure _ _ _ λ _ _. refl
  states_of-names (domain ∷ domains) = Triple-bind _ _ _ _ _ (Triple-any _ _) λ state.
      Triple-bind _ _ _ _ _ (states_of-names domains)
        λ rest. Triple-pure _ _ _ λ w same. rw same refl

  abbrev pub listed : Action Host (List Domain)
  listed =
      libvirt.connect_list_all_domains
        (bit_or libvirt.list_domains_active libvirt.list_domains_inactive)

  listed-Same : (w : Host) → Triple (λ v. v ≡ w) listed (λ domains _. (listed w).0 ≡ ok domains)
  listed-Same w = record { at = λ v domains same h. rw (sym same) h }

  -- ListVirtualMachineState, where it returns no error, tells the UUIDs and the names of the domains that
  -- libvirt lists, active or not, each once and in their order.
  pub list_virtual_machine_state_lem :
      (w : Host) (resp : ListVirtualMachineStateResponse)
      → (list_virtual_machine_state libvirt w).0 ≡ ok resp
      → (domains : List Domain) × ((listed w).0 ≡ ok domains)
        × (map state_names resp.states ≡ map domain_names domains)
  unfolding list_virtual_machine_state
  list_virtual_machine_state_lem w resp h =
      (Triple-bind (λ v. v ≡ w) _ _ _
          (λ resp _.
            (domains : List Domain) × ((listed w).0 ≡ ok domains)
            × (map state_names resp.states ≡ map domain_names domains))
          (Triple-wrap _ _ _ _ (listed-Same w))
          λ domains.
            Triple-bind _ _ _
              (λ states _.
                ((listed w).0 ≡ ok domains) × (map state_names states ≡ map domain_names domains))
              _
              (record {
                at = λ v states known e. (known, (states_of-names domains).at v states tt e);
              })
              λ states. Triple-pure _ _ _ λ v (known, same). (domains, known, same)).at
        w resp refl h
