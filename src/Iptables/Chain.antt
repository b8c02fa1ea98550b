-- ===== src/Iptables/Chain.antt =====
-- iptables.go: the names of tables and chains.
pub mod Names
use teleskop.Common.{ℕ, ◌++◌, length, take, ltb, if◌then◌else◌}
use teleskop.Go.Text.{Text, codes}

abbrev pub max_chain_name_length : ℕ
max_chain_name_length = 29

abbrev pub table_filter : Text
table_filter = codes "filter"

abbrev pub chain_input : Text
chain_input = codes "INPUT"

abbrev pub chain_forward : Text
chain_forward = codes "FORWARD"

abbrev pub chain_callisto_sg_fallback : Text
chain_callisto_sg_fallback = codes "callisto-sg-fallback"

abbrev pub chain_callisto_sg : Text
chain_callisto_sg = codes "callisto-sg-chain"

abbrev pub chain_callisto_input : Text
chain_callisto_input = codes "callisto-INPUT"

abbrev pub chain_callisto_forward : Text
chain_callisto_forward = codes "callisto-FORWARD"

abbrev pub chain_callisto_input_prefix : Text
chain_callisto_input_prefix = codes "callisto-i"

abbrev pub chain_callisto_output_prefix : Text
chain_callisto_output_prefix = codes "callisto-o"

abbrev pub chain_callisto_source_prefix : Text
chain_callisto_source_prefix = codes "callisto-s"

-- `tmp[:maxChainNameLength]` counts bytes.
unfoldable pub get_valid_chain_name : Text → Text → Text
get_valid_chain_name prefix val =
    let tmp = prefix ++ val in
    if ltb max_chain_name_length (length tmp) then take max_chain_name_length tmp else tmp
