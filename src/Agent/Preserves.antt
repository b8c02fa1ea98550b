-- ===== src/Agent/Preserves.antt =====
-- The whole service, and the domains that are defined.
mod Tests
use teleskop.Agent.OsBrick.{
  OsBrick, connect, disconnect, connect_block_device, disconnect_block_device,
  get_iscsi_qualified_name,
}
use teleskop.Agent.Service.{
  add_bridge_call, add_interface_to_bridge_call, add_security_group_call, add_virtual_machine_call,
  add_vlan_interface_call, attach_block_device_call, attach_interface_call,
  connect_block_device_call, delete_bridge_call, delete_interface_from_bridge_call,
  delete_virtual_machine_call, delete_vlan_interface_call, detach_block_device_call,
  detach_interface_call, disconnect_block_device_call, get_interface_name_call, get_ip_tables_call,
  get_iscsi_qualified_name_call, get_virtual_machine_state_call, list_virtual_machine_state_call,
  setup_default_security_group_call, start_virtual_machine_call, stop_virtual_machine_call, Call,
  Response, Services, serve,
}
use teleskop.Api.Requests.{ConnectBlockDeviceRequest, DisconnectBlockDeviceRequest}
use teleskop.Common.{ℕ, ⊤, ◌≡◌, Option, some, List, [], ◌∷◌}
use teleskop.Go.Moves.{IsPreorder, Moves, Moves-pure, Moves-wrap, Moves-bind, moving}
use teleskop.Go.Text.{Text}
use teleskop.Iptables.Preserves.{
  ChainPrimitives, get_ip_tables-Moves, setup_handler-Moves, add_handler-Moves,
}
use teleskop.Network.Handlers.{get_interface_name}
use teleskop.Network.Preserves.{
  LinkPrimitives, NetworkPrimitives, add_interface_to_bridge-Moves, delete_interface-Moves,
  add_vlan_interface-Moves, delete_vlan_interface-Moves, add_bridge-Moves, delete_bridge-Moves,
}
use teleskop.Vm.Libvirt.{Domain}
use teleskop.Vm.Preserves.{
  DomainPrimitives, attach_block_device-Moves, attach_interface-Moves, detach_block_device-Moves,
  detach_interface-Moves, add_virtual_machine-Moves, start_virtual_machine-Moves,
  stop_virtual_machine-Moves, get_state-Moves, list_state-Moves,
}

pub record DiskPrimitives {Host : Type 0} (osbrick : OsBrick Host) (R : Host → Host → Type 0)
    : Type 0 where
  pub connect_single :
      (address : Text) (lun : ℕ) → Moves R (osbrick.connect_single_path_volume address lun)
  pub connect_many :
      (addresses : List Text) (lun : ℕ) → Moves R (osbrick.connect_multipath_volume addresses lun)
  pub disconnect_single :
      (address : Text) (lun : ℕ) → Moves R (osbrick.disconnect_single_path_volume address lun)
  pub disconnect_many :
      (addresses : List Text) (lun : ℕ) → Moves R (osbrick.disconnect_volume addresses lun)
  pub iqn : Moves R osbrick.get_iqn

module _ {Host : Type 0} (osbrick : OsBrick Host) (R : Host → Host → Type 0) (order : IsPreorder R)
    (ops : DiskPrimitives osbrick R) where
  connect-Moves : (addresses : List Text) (lun : ℕ) → Moves R (connect osbrick addresses lun)
  unfolding connect
  connect-Moves [] lun = ops.connect_many [] lun
  connect-Moves (address ∷ []) lun = ops.connect_single address lun
  connect-Moves (a ∷ b ∷ addresses) lun = ops.connect_many (a ∷ b ∷ addresses) lun

  disconnect-Moves : (addresses : List Text) (lun : ℕ) → Moves R (disconnect osbrick addresses lun)
  unfolding disconnect
  disconnect-Moves [] lun = ops.disconnect_many [] lun
  disconnect-Moves (address ∷ []) lun = ops.disconnect_single address lun
  disconnect-Moves (a ∷ b ∷ addresses) lun = ops.disconnect_many (a ∷ b ∷ addresses) lun

  connect_block_device-Moves :
      (req : ConnectBlockDeviceRequest) → Moves R (connect_block_device osbrick req)
  unfolding connect_block_device
  connect_block_device-Moves req = search (moving, order, connect-Moves)

  disconnect_block_device-Moves :
      (req : DisconnectBlockDeviceRequest) → Moves R (disconnect_block_device osbrick req)
  unfolding disconnect_block_device
  disconnect_block_device-Moves req = search (moving, order, disconnect-Moves)

  get_iqn-Moves : Moves R (get_iscsi_qualified_name osbrick)
  unfolding get_iscsi_qualified_name
  get_iqn-Moves =
      Moves-bind R order _ _ (Moves-wrap R order _ _ ops.iqn) λ iqn. Moves-pure R order _

-- All that the methods call, but for DomainUndefine.
pub record AllPrimitives (s : Services) (R : s.iptables.Host → s.iptables.Host → Type 0)
    : Type 0 where
  pub chains : ChainPrimitives s.iptables R
  pub domains : DomainPrimitives s.libvirt R
  pub links : LinkPrimitives s.netlink R
  pub networks : NetworkPrimitives s.networks R
  pub disks : DiskPrimitives s.osbrick R

-- Any call but DeleteVirtualMachine, which is the one that undefines a domain.
abbrev pub KeepsDomains : Call → Type 0
KeepsDomains (delete_virtual_machine_call _) = ⊥
KeepsDomains _ = ⊤

module _ (s : Services) (R : s.iptables.Host → s.iptables.Host → Type 0) (order : IsPreorder R)
    (ops : AllPrimitives s R) where
  pub serve-Moves : (call : Call) → KeepsDomains call → Moves R (serve s call)
  unfolding serve Response get_interface_name
  serve-Moves get_iscsi_qualified_name_call k = get_iqn-Moves s.osbrick R order ops.disks
  serve-Moves get_ip_tables_call k = get_ip_tables-Moves s.iptables R order ops.chains
  serve-Moves setup_default_security_group_call k =
      setup_handler-Moves s.iptables R order ops.chains
  serve-Moves (add_security_group_call req) k =
      add_handler-Moves s.iptables R order ops.chains s.net req
  serve-Moves get_interface_name_call k = Moves-pure R order _
  serve-Moves (add_bridge_call req) k =
      add_bridge-Moves s.netlink R order ops.links s.networks ops.networks s.net req
  serve-Moves (add_vlan_interface_call req) k =
      add_vlan_interface-Moves s.netlink R order ops.links req
  serve-Moves (add_interface_to_bridge_call req) k =
      add_interface_to_bridge-Moves s.netlink R order ops.links req
  serve-Moves (add_virtual_machine_call req) k =
      add_virtual_machine-Moves s.libvirt R order ops.domains req
  serve-Moves (connect_block_device_call req) k =
      connect_block_device-Moves s.osbrick R order ops.disks req
  serve-Moves (get_virtual_machine_state_call req) k =
      get_state-Moves s.libvirt R order ops.domains req
  serve-Moves list_virtual_machine_state_call k = list_state-Moves s.libvirt R order ops.domains
  serve-Moves (start_virtual_machine_call req) k =
      start_virtual_machine-Moves s.libvirt R order ops.domains req
  serve-Moves (attach_block_device_call req) k =
      attach_block_device-Moves s.libvirt R order ops.domains req
  serve-Moves (attach_interface_call req) k =
      attach_interface-Moves s.libvirt R order ops.domains req
  serve-Moves (delete_bridge_call req) k =
      delete_bridge-Moves s.netlink R order ops.links s.networks ops.networks req
  serve-Moves (delete_vlan_interface_call req) k =
      delete_vlan_interface-Moves s.netlink R order ops.links req
  serve-Moves (delete_interface_from_bridge_call req) k =
      delete_interface-Moves s.netlink R order ops.links req
  serve-Moves (delete_virtual_machine_call req) k = absurd k
  serve-Moves (disconnect_block_device_call req) k =
      disconnect_block_device-Moves s.osbrick R order ops.disks req
  serve-Moves (stop_virtual_machine_call req) k =
      stop_virtual_machine-Moves s.libvirt R order ops.domains req
  serve-Moves (detach_block_device_call req) k =
      detach_block_device-Moves s.libvirt R order ops.domains req
  serve-Moves (detach_interface_call req) k =
      detach_interface-Moves s.libvirt R order ops.domains req

-- What is defined stays defined, as the same domain.
pub record IsKept (v v' : List ℕ → Option Domain) : Type 0 where
  pub at : (uuid : List ℕ) (domain : Domain) → v uuid ≡ some domain → v' uuid ≡ some domain

module _ (s : Services) (domains : s.iptables.Host → List ℕ → Option Domain) where
  abbrev pub Kept : s.iptables.Host → s.iptables.Host → Type 0
  Kept w w' = IsKept (domains w) (domains w')

  Kept-order : IsPreorder Kept
  Kept-order = record {
    stay = λ w. record { at = λ uuid domain h. h };
    go_on = λ u v w h h'. record { at = λ uuid domain e. h'.at uuid domain (h.at uuid domain e) };
  }

  -- Calls one after the other, however each of them ends, and what others do in between.
  pub data Serving (w : s.iptables.Host) : s.iptables.Host → Type 0 where
    here : Serving w w
    call_next :
        {u : s.iptables.Host}
        → Serving w u
        → (call : Call) → KeepsDomains call
        → Serving w (serve s call u).1
    others_next : {u v : s.iptables.Host} → Serving w u → Kept u v → Serving w v

  module _ (ops : AllPrimitives s Kept) where
    -- Whatever calls of its methods other than DeleteVirtualMachine the agent serves, failed ones included, a
    -- domain that was defined stays defined, as the same domain. The primitive calls but DomainUndefine keep
    -- to this, and so do others in between.
    pub Serving-IsKept : {w w' : s.iptables.Host} → Serving w w' → IsKept (domains w) (domains w')
    Serving-IsKept {w} here = Kept-order.stay w
    Serving-IsKept {w} (call_next {u} served call k) =
        Kept-order.go_on w u (serve s call u).1 (Serving-IsKept served)
          ((serve-Moves s Kept Kept-order ops call k).at u)
    Serving-IsKept {w} (others_next {u} {v} served h) =
        Kept-order.go_on w u v (Serving-IsKept served) h
