-- ===== src/Vm/Tests.antt =====
-- Virtual machines on a small libvirt that is kept in memory.
use teleskop.Api.Requests.{AddVirtualMachineRequest, StartVirtualMachineRequest}
use teleskop.Api.Responses.{
  AddVirtualMachineResponse, StartVirtualMachineResponse, ListVirtualMachineStateResponse,
}
use teleskop.Common.{
  ℕ, ◌≡◌, refl, sym, Option, none, some, List, [], ◌∷◌, ◌++◌, map, eq_bytes, if◌then◌else◌, arith,
  length, replicate,
}
use teleskop.Go.Action.{pure}
use teleskop.Go.Error.{Outcome, ok, err, panic, external}
use teleskop.Go.Hex.{hex_text, hex_digit, hex_decode, hex_char, from_hex_char}
use teleskop.Go.Hex.Sound.{Reads}
use teleskop.Go.Int.{pos}
use teleskop.Go.Outcome.{ok_inj}
use teleskop.Go.Text.{Text, codes, remove_all, split, decimal, digits, join}
use teleskop.Vm.Added.{start_added, add_keeps_defined}
use teleskop.Vm.Handlers.{
  list_virtual_machine_state, states_of, state_of, pin_pair, pin_pairs, cpu_sets,
  add_virtual_machine, attach_boot_device, attach_block_device, start_virtual_machine,
  get_domain_state,
}
use teleskop.Vm.Lawful.{IsLawful}
use teleskop.Vm.Libvirt.{Libvirt, Domain, PinnedPair}
use teleskop.Vm.Pinning.{core_words, pin_pairs_words}
use teleskop.Vm.States.{listed, state_names, domain_names, list_virtual_machine_state_lem}
use teleskop.Vm.Uuid.{parse_uuid, lookup_domain}
use teleskop.Vm.Uuid.RoundTrip.{parse_uuid_print}
use teleskop.Vm.Uuid.Sound.{parse_uuid-Reads, parse_uuid_overflow}

abbrev pub vm_uuid : List ℕ
vm_uuid = 17 ∷ 34 ∷ replicate 13 0 ++ 255 ∷ []

-- With dashes, and a digit in upper case.
abbrev dashed : Text
dashed = codes "11220000-0000-0000-0000-0000000000ff"

parse_uuid_print_example : parse_uuid dashed ≡ ok vm_uuid
parse_uuid_print_example =
    parse_uuid_print vm_uuid dashed (unfold codes remove_all in ground arith) refl
      (unfold codes remove_all hex_text hex_digit in refl)

abbrev short_uuid : List ℕ
short_uuid = 17 ∷ 34 ∷ replicate 14 0

short_parses : parse_uuid (codes "1122") ≡ ok short_uuid
unfolding parse_uuid codes remove_all hex_decode hex_char from_hex_char
short_parses = refl

parse_uuid-Reads_example :
    (length short_uuid ≡ 16) × Reads (replicate 16 0) (remove_all (codes "1122") b'-') short_uuid
parse_uuid-Reads_example = parse_uuid-Reads (codes "1122") short_uuid short_parses

abbrev long_text : Text
long_text = codes "0101010101010101010101010101010101"

parse_uuid_overflow_example : parse_uuid long_text ≡ panic
parse_uuid_overflow_example =
    parse_uuid_overflow (replicate 17 1) long_text (ground arith) (omega arith)
      (unfold codes remove_all hex_text hex_digit in refl)

abbrev pair_0 : PinnedPair
pair_0 = record { physical_core = 3; logical_core = 824634351616 }

abbrev pair_1 : PinnedPair
pair_1 = record { physical_core = 4; logical_core = 0 }

pin_pairs_words_example :
    split (pin_pairs [] (pair_0 ∷ pair_1 ∷ [])) b',' ≡ core_words (pair_0 ∷ pair_1 ∷ []) []
pin_pairs_words_example = pin_pairs_words pair_0 (pair_1 ∷ [])

-- At most one domain, always of the same UUID.
abbrev pub vm : Domain
vm = record { name = codes "vm"; uuid = vm_uuid }

abbrev found : List ℕ → Option Domain → Outcome Domain
found uuid none = err (external "no domain")
found uuid (some domain) =
    if eq_bytes uuid domain.uuid then ok domain else err (external "no domain")

abbrev small_domains : Option Domain → List ℕ → Option Domain
small_domains none uuid = none
small_domains (some domain) uuid = if eq_bytes uuid domain.uuid then some domain else none

abbrev all_of : Option Domain → List Domain
all_of none = []
all_of (some domain) = domain ∷ []

abbrev small : Libvirt (Option Domain)
small = record {
  domain_define_xml = λ xml w. (ok vm, some vm);
  domain_lookup_by_uuid = λ uuid w. (found uuid w, w);
  domain_create = λ domain. pure tt;
  domain_undefine = λ domain w. (ok tt, none);
  domain_destroy = λ domain. pure tt;
  domain_attach_device_flags = λ domain xml flags. pure tt;
  domain_detach_device_flags = λ domain xml flags. pure tt;
  domain_get_state = λ domain. pure (pos 5);
  connect_list_all_domains = λ flags w. (ok (all_of w), w);
  get_cpu_core_by_pinning_group = λ hostname group. pure (pair_0 ∷ []);
  hostname = pure (codes "host");
  domain_running = pos 1;
  domain_shutoff = pos 5;
  modify_config = 2;
  modify_live = 1;
  modify_force = 4;
  list_domains_active = 1;
  list_domains_inactive = 2;
}

found_small :
    (uuid : List ℕ) (w : Option Domain) (domain : Domain)
    → found uuid w ≡ ok domain
    → small_domains w uuid ≡ some domain
found_small uuid none domain h = cc
found_small uuid (some d) domain h = ground arith

small-IsLawful : IsLawful small small_domains
unfolding codes eq_bytes
small-IsLawful = record {
  defines = λ xml w domain h. rw (sym (ok_inj vm domain h)) refl;
  uuid_size = λ xml w domain h. rw (sym (ok_inj vm domain h)) refl;
  uuid_bytes = λ xml w domain h. rw (sym (ok_inj vm domain h)) (ground arith);
  looks_up = λ uuid w domain h. found_small uuid w domain h;
  lookup_keeps = λ uuid. record { at = λ w. refl };
  state_keeps = λ domain. record { at = λ w. refl };
  attach_keeps = λ domain xml flags. record { at = λ w. refl };
}

abbrev add_request : AddVirtualMachineRequest
add_request = record {
  name = codes "vm";
  vcpus = 2;
  memory_kib = 1024;
  boot_device = codes "/dev/sda";
  read_bytes_sec = 0;
  write_bytes_sec = 0;
  read_iops_sec = 0;
  write_iops_sec = 0;
  pinning_group_name = codes "group";
}

abbrev add_response : AddVirtualMachineResponse
add_response = record { uuid = codes "112200000000000000000000000000ff"; name = codes "vm" }

abbrev start_request : StartVirtualMachineRequest
start_request = record { uuid = dashed }

abbrev start_response : StartVirtualMachineResponse
start_response = record { uuid = codes "112200000000000000000000000000ff"; name = codes "vm" }

added : (add_virtual_machine small add_request none).0 ≡ ok add_response
unfolding add_virtual_machine cpu_sets attach_boot_device attach_block_device lookup_domain
    parse_uuid hex_decode hex_char from_hex_char hex_text hex_digit codes remove_all eq_bytes
    get_domain_state
added = refl

added_host : (add_virtual_machine small add_request none).1 ≡ some vm
unfolding add_virtual_machine cpu_sets attach_boot_device attach_block_device lookup_domain
    parse_uuid hex_decode hex_char from_hex_char hex_text hex_digit codes remove_all eq_bytes
    get_domain_state
added_host = refl

started : (start_virtual_machine small start_request (some vm)).0 ≡ ok start_response
unfolding start_virtual_machine lookup_domain parse_uuid hex_decode hex_char from_hex_char hex_text
    hex_digit codes remove_all eq_bytes
started = refl

start_added_example :
    (start_response.uuid ≡ add_response.uuid) × (start_response.name ≡ add_response.name)
start_added_example =
    start_added small small_domains small-IsLawful add_request none add_response start_request
      start_response added (unfold codes remove_all in refl) (rw added_host started)

abbrev pinned : Text
pinned = codes "3,824634351616"

add_keeps_defined_example :
    small_domains (add_virtual_machine small add_request none).1 vm.uuid ≡ some vm
add_keeps_defined_example =
    add_keeps_defined small small_domains small-IsLawful add_request none (pinned ∷ pinned ∷ []) vm
      (unfold cpu_sets codes eq_bytes pin_pairs pin_pair join decimal digits in refl) refl

abbrev states_response : ListVirtualMachineStateResponse
states_response = record {
  states =
      record { uuid = codes "112200000000000000000000000000ff"; name = codes "vm"; state = pos 5 }
      ∷ [];
}

lists : (list_virtual_machine_state small (some vm)).0 ≡ ok states_response
unfolding list_virtual_machine_state states_of state_of hex_text hex_digit codes
lists = refl

list_virtual_machine_state_lem_example :
    (domains : List Domain) × ((listed small (some vm)).0 ≡ ok domains)
    × (map state_names states_response.states ≡ map domain_names domains)
list_virtual_machine_state_lem_example =
    list_virtual_machine_state_lem small (some vm) states_response lists
