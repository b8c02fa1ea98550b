-- ===== src/Vm/Templates.antt =====
-- virtual_machine.go: the templates of the XML that libvirt is given.
use teleskop.Api.Requests.{
  AddVirtualMachineRequest, AttachBlockDeviceRequest, DetachBlockDeviceRequest,
  AttachInterfaceRequest, DetachInterfaceRequest,
}
use teleskop.Common.{List, [], ◌∷◌, ◌++◌}
use teleskop.Go.Template.{Piece, words, field, if_positive, each}
use teleskop.Go.Text.{Text, codes, decimal}

pub record DomainParams : Type 0 where
  pub request : AddVirtualMachineRequest
  pub cpu_sets : List Text

unfoldable pub domain_tmpl : List (Piece DomainParams)
domain_tmpl =
    words (codes "\n")
    ∷ words (codes "<domain type='kvm' xmlns:qemu='http://libvirt.org/schemas/domain/qemu/1.0'>\n")
    ∷ words (codes "  <name>")
    ∷ field (λ p. p.request.name)
    ∷ words (codes "</name>\n")
    ∷ words (codes "  <memory unit='KiB'>")
    ∷ field (λ p. decimal p.request.memory_kib)
    ∷ words (codes "</memory>\n")
    ∷ words (codes "  <currentMemory unit='KiB'>")
    ∷ field (λ p. decimal p.request.memory_kib)
    ∷ words (codes "</currentMemory>\n")
    ∷ words (codes "  <vcpu placement='static'>")
    ∷ field (λ p. decimal p.request.vcpus)
    ∷ words (codes "</vcpu>\n")
    ∷ words (codes "  <cputune>")
    ∷ each (λ p. p.cpu_sets)
        (λ i cpu_set.
          codes "\n    <vcpupin vcpu='"
          ++ decimal i
          ++ codes "' cpuset='"
          ++ cpu_set
          ++ codes "'/>")
    ∷ words (codes "\n")
    ∷ words (codes "  </cputune>\n")
    ∷ words (codes "  <resource>\n")
    ∷ words (codes "    <partition>/machine</partition>\n")
    ∷ words (codes "  </resource>\n")
    ∷ words (codes "  <sysinfo type='smbios'>\n")
    ∷ words (codes "    <system>\n")
    ∷ words (codes "      <entry name='manufacturer'>CyberAgent, Inc.</entry>\n")
    ∷ words (codes "    </system>\n")
    ∷ words (codes "  </sysinfo>\n")
    ∷ words (codes "  <os>\n")
    ∷ words (codes "    <type arch='x86_64' machine='pc-i440fx-bionic'>hvm</type>\n")
    ∷ words (codes "    <boot dev='hd'/>\n")
    ∷ words (codes "    <smbios mode='sysinfo'/>\n")
    ∷ words (codes "  </os>\n")
    ∷ words (codes "  <features>\n")
    ∷ words (codes "    <acpi/>\n")
    ∷ words (codes "    <apic/>\n")
    ∷ words (codes "  </features>\n")
    ∷ words (codes "  <cpu mode='host-model'/>\n")
    ∷ words (codes "  <clock offset='utc'>\n")
    ∷ words (codes "    <timer name='pit' tickpolicy='delay'/>\n")
    ∷ words (codes "    <timer name='rtc' tickpolicy='catchup'/>\n")
    ∷ words (codes "    <timer name='hpet' present='no'/>\n")
    ∷ words (codes "  </clock>\n")
    ∷ words (codes "  <on_poweroff>destroy</on_poweroff>\n")
    ∷ words (codes "  <on_reboot>restart</on_reboot>\n")
    ∷ words (codes "  <on_crash>destroy</on_crash>\n")
    ∷ words (codes "  <devices>\n")
    ∷ words (codes "    <emulator>/usr/bin/kvm-spice</emulator>\n")
    ∷ words (codes "    <controller type='usb' index='0' model='piix3-uhci'>\n")
    ∷ words (codes "      <alias name='usb'/>\n")
    ∷ words (codes "    </controller>\n")
    ∷ words (codes "    <controller type='pci' index='0' model='pci-root'>\n")
    ∷ words (codes "      <alias name='pci.0'/>\n")
    ∷ words (codes "    </controller>\n")
    ∷ words (codes "    <input type='tablet' bus='usb'>\n")
    ∷ words (codes "      <alias name='input0'/>\n")
    ∷ words (codes "      <address type='usb' bus='0' port='1'/>\n")
    ∷ words (codes "    </input>\n")
    ∷ words (codes "    <input type='mouse' bus='ps2'>\n")
    ∷ words (codes "      <alias name='input1'/>\n")
    ∷ words (codes "    </input>\n")
    ∷ words (codes "    <input type='keyboard' bus='ps2'>\n")
    ∷ words (codes "      <alias name='input2'/>\n")
    ∷ words (codes "    </input>\n")
    ∷ words (codes "    <video>\n")
    ∷ words (codes "      <model type='cirrus' vram='16384' heads='1' primary='yes'/>\n")
    ∷ words (codes "      <alias name='video0'/>\n")
    ∷ words (codes "    </video>\n")
    ∷ words (codes "    <serial type='pty'>\n")
    ∷ words (codes "      <target port='0'/>\n")
    ∷ words (codes "      <alias name='serial0'/>\n")
    ∷ words (codes "    </serial>\n")
    ∷ words (codes "    <console type='pty' >\n")
    ∷ words (codes "      <target type='serial' port='0'/>\n")
    ∷ words (codes "      <alias name='serial0'/>\n")
    ∷ words (codes "    </console>\n")
    ∷ words (codes "  </devices>\n")
    ∷ words (codes "  <qemu:commandline>\n")
    ∷ words (codes "    <qemu:arg value='-smbios'/>\n")
    ∷ words
        (codes "    <qemu:arg value='type=1,serial=ds=nocloud-net;s=http://169.254.169.254/'/>\n")
    ∷ words (codes "  </qemu:commandline>\n")
    ∷ words (codes "</domain>\n")
    ∷ []

unfoldable pub attach_disk_tmpl : List (Piece AttachBlockDeviceRequest)
attach_disk_tmpl =
    words (codes "\n")
    ∷ words (codes "<disk type='block'>\n")
    ∷ words (codes "  <source dev='")
    ∷ field (λ p. p.source_device)
    ∷ words (codes "'/>\n")
    ∷ words (codes "  <target dev='")
    ∷ field (λ p. p.target_device)
    ∷ words (codes "'/>\n")
    ∷ words (codes "  <iotune>\n")
    ∷ words (codes "  ")
    ∷ if_positive (λ p. p.read_bytes_sec)
        (λ p. codes "<read_bytes_sec>" ++ decimal p.read_bytes_sec ++ codes "</read_bytes_sec>")
    ∷ words (codes "\n")
    ∷ words (codes "  ")
    ∷ if_positive (λ p. p.write_bytes_sec)
        (λ p. codes "<write_bytes_sec>" ++ decimal p.write_bytes_sec ++ codes "</write_bytes_sec>")
    ∷ words (codes "\n")
    ∷ words (codes "  ")
    ∷ if_positive (λ p. p.read_iops_sec)
        (λ p. codes "<read_iops_sec>" ++ decimal p.read_iops_sec ++ codes "</read_iops_sec>")
    ∷ words (codes "\n")
    ∷ words (codes "  ")
    ∷ if_positive (λ p. p.write_iops_sec)
        (λ p. codes "<write_iops_sec>" ++ decimal p.write_iops_sec ++ codes "</write_iops_sec>")
    ∷ words (codes "\n")
    ∷ words (codes "  </iotune>\n")
    ∷ words (codes "</disk>\n")
    ∷ []

unfoldable pub detach_disk_tmpl : List (Piece DetachBlockDeviceRequest)
detach_disk_tmpl =
    words (codes "\n")
    ∷ words (codes "<disk type='block'>\n")
    ∷ words (codes "  <source dev='")
    ∷ field (λ p. p.source_device)
    ∷ words (codes "'/>\n")
    ∷ words (codes "  <target dev='")
    ∷ field (λ p. p.target_device)
    ∷ words (codes "'/>\n")
    ∷ words (codes "</disk>\n")
    ∷ []

-- interfaceTmpl, on the request of AttachInterface and on that of DetachInterface.
unfoldable pub attach_interface_tmpl : List (Piece AttachInterfaceRequest)
attach_interface_tmpl =
    words (codes "\n")
    ∷ words (codes "<interface type='bridge'>\n")
    ∷ words (codes "  <mac address='")
    ∷ field (λ p. p.mac_address)
    ∷ words (codes "'/>\n")
    ∷ words (codes "  <source bridge='")
    ∷ field (λ p. p.bridge)
    ∷ words (codes "'/>\n")
    ∷ words (codes "  <model type='virtio'/>\n")
    ∷ words (codes "  <target dev='")
    ∷ field (λ p. p.name)
    ∷ words (codes "'/>\n")
    ∷ words (codes "  <bandwidth>\n")
    ∷ words (codes "    <inbound average='")
    ∷ field (λ p. decimal p.inbound_average)
    ∷ words (codes "'/>\n")
    ∷ words (codes "    <outbound average='")
    ∷ field (λ p. decimal p.outbound_average)
    ∷ words (codes "'/>\n")
    ∷ words (codes "  </bandwidth>\n")
    ∷ words (codes "</interface>\n")
    ∷ []

unfoldable pub detach_interface_tmpl : List (Piece DetachInterfaceRequest)
detach_interface_tmpl =
    words (codes "\n")
    ∷ words (codes "<interface type='bridge'>\n")
    ∷ words (codes "  <mac address='")
    ∷ field (λ p. p.mac_address)
    ∷ words (codes "'/>\n")
    ∷ words (codes "  <source bridge='")
    ∷ field (λ p. p.bridge)
    ∷ words (codes "'/>\n")
    ∷ words (codes "  <model type='virtio'/>\n")
    ∷ words (codes "  <target dev='")
    ∷ field (λ p. p.name)
    ∷ words (codes "'/>\n")
    ∷ words (codes "  <bandwidth>\n")
    ∷ words (codes "    <inbound average='")
    ∷ field (λ p. decimal p.inbound_average)
    ∷ words (codes "'/>\n")
    ∷ words (codes "    <outbound average='")
    ∷ field (λ p. decimal p.outbound_average)
    ∷ words (codes "'/>\n")
    ∷ words (codes "  </bandwidth>\n")
    ∷ words (codes "</interface>\n")
    ∷ []
