-- ===== src/Iptables/Rules.antt =====
-- iptables.go: the rules, as the arguments that the client is given.
use teleskop.Common.{List, [], ◌∷◌, ◌++◌}
use teleskop.Go.Text.{Text, codes}
use teleskop.Iptables.Client.{Rule}
use teleskop.Iptables.Chain.{
  chain_callisto_sg_fallback, chain_callisto_sg, chain_callisto_input, chain_callisto_forward,
  chain_callisto_input_prefix, chain_callisto_output_prefix, chain_callisto_source_prefix,
  get_valid_chain_name,
}

abbrev pub action_accept : Text
action_accept = codes "ACCEPT"

abbrev pub action_drop : Text
action_drop = codes "DROP"

abbrev pub action_return : Text
action_return = codes "RETURN"

-- The type link: the interface of a virtual machine. The addresses are byte strings.
pub record Link : Type 0 where
  pub name : Text
  pub ip_address : Text
  pub mac_address : Text

unfoldable pub get_input_chain_name : Link → Text
get_input_chain_name intf = get_valid_chain_name chain_callisto_input_prefix intf.name

unfoldable pub get_output_chain_name : Link → Text
get_output_chain_name intf = get_valid_chain_name chain_callisto_output_prefix intf.name

unfoldable pub get_source_chain_name : Link → Text
get_source_chain_name intf = get_valid_chain_name chain_callisto_source_prefix intf.name

-- `"-m", "comment", "--comment", text`, and then the rest of the rule.
unfoldable pub comment : Text → Rule → Rule
comment text rest = codes "-m" ∷ codes "comment" ∷ codes "--comment" ∷ text ∷ rest

-- `"-j", target`, the end of each rule.
unfoldable pub jump : Text → Rule
jump target = codes "-j" ∷ target ∷ []

abbrev pub rule_sg_fallback : Rule
rule_sg_fallback = comment (codes "Default drop rule for unmatched traffic.") (jump action_drop)

abbrev pub rule_input : Rule
rule_input = jump chain_callisto_input

abbrev pub rule_forward : Rule
rule_forward = jump chain_callisto_forward

-- Rules that more than one chain has.
abbrev pub rule_known_session : Rule
rule_known_session =
    codes "-m"
    ∷ codes "state"
    ∷ codes "--state"
    ∷ codes "RELATED,ESTABLISHED"
    ∷ comment (codes "Direct packets associated with a known session to the RETURN chain.")
        (jump action_return)

-- `"-p", protocol, "-m", protocol, "-m", "multiport", "--dports", "1:65535", "-j", "RETURN"`
unfoldable pub rule_all_ports : Text → Rule
rule_all_ports protocol =
    codes "-p"
    ∷ protocol
    ∷ codes "-m"
    ∷ protocol
    ∷ codes "-m"
    ∷ codes "multiport"
    ∷ codes "--dports"
    ∷ codes "1:65535"
    ∷ jump action_return

abbrev pub rule_icmp : Rule
rule_icmp = codes "-p" ∷ codes "icmp" ∷ jump action_return

abbrev pub rule_to_fallback : Rule
rule_to_fallback =
    comment (codes "Send unmatched traffic to the fallback chain.")
      (jump chain_callisto_sg_fallback)

-- `"-p", "udp", "-m", "udp", "--sport", from, "--dport", to`, and then the rest of the rule.
unfoldable pub dhcp_ports : Text → Text → Rule → Rule
dhcp_ports from to rest =
    codes "-p"
    ∷ codes "udp"
    ∷ codes "-m"
    ∷ codes "udp"
    ∷ codes "--sport"
    ∷ from
    ∷ codes "--dport"
    ∷ to
    ∷ rest

-- `"-m", "physdev", direction, name, "--physdev-is-bridged"`, a comment and a jump.
unfoldable pub rule_physdev : Text → Text → Text → Text → Rule
rule_physdev direction name text target =
    codes "-m"
    ∷ codes "physdev"
    ∷ direction
    ∷ name
    ∷ codes "--physdev-is-bridged"
    ∷ comment text (jump target)

-- The rules of each function, in the order of its list. The two arguments of `source_rules` are the
-- printed addresses of the interface.
unfoldable pub source_rules : Text → Text → List Rule
source_rules ip_text mac_text =
    (codes "-s"
      ∷ (ip_text ++ codes "/32")
      ∷ codes "-m"
      ∷ codes "mac"
      ∷ codes "--mac-source"
      ∷ mac_text
      ∷ comment (codes "Allow traffic from defined IP/MAC pairs.") (jump action_return))
    ∷ comment (codes "Drop traffic without an IP/MAC allow rule.") (jump action_drop)
    ∷ []

unfoldable pub input_sg_rules : List Rule
input_sg_rules =
    rule_known_session
    ∷ dhcp_ports (codes "67") (codes "68") (jump action_return)
    ∷ rule_all_ports (codes "tcp")
    ∷ rule_all_ports (codes "udp")
    ∷ rule_icmp
    ∷ rule_to_fallback
    ∷ []

unfoldable pub output_sg_rules : Link → List Rule
output_sg_rules intf =
    dhcp_ports (codes "68") (codes "67")
      (comment (codes "Allow DHCP client traffic.") (jump action_return))
    ∷ jump (get_source_chain_name intf)
    ∷ dhcp_ports (codes "67") (codes "68")
        (comment (codes "Prevent DHCP Spoofing by VM.") (jump action_drop))
    ∷ rule_known_session
    ∷ rule_all_ports (codes "tcp")
    ∷ rule_all_ports (codes "udp")
    ∷ rule_icmp
    ∷ jump action_return
    ∷ rule_to_fallback
    ∷ []

abbrev vm_comment : Text
vm_comment = codes "Jump to the VM specific chain."

unfoldable pub sg_rules : Link → List Rule
sg_rules intf =
    rule_physdev (codes "--physdev-out") intf.name vm_comment (get_input_chain_name intf)
    ∷ rule_physdev (codes "--physdev-in") intf.name vm_comment (get_output_chain_name intf)
    ∷ []

unfoldable pub input_rules : Link → List Rule
input_rules intf =
    rule_physdev (codes "--physdev-in") intf.name
      (codes "Direct incoming traffic from VM to the security group chain.")
      (get_output_chain_name intf)
    ∷ []

abbrev forward_comment : Text
forward_comment = codes "Direct traffic from the VM interface to the security group chain."

unfoldable pub forward_rules : Link → List Rule
forward_rules intf =
    rule_physdev (codes "--physdev-out") intf.name forward_comment chain_callisto_sg
    ∷ rule_physdev (codes "--physdev-in") intf.name forward_comment chain_callisto_sg
    ∷ []
