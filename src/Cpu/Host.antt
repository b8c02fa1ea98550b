-- ===== src/Cpu/Host.antt =====
-- cpu.go, GetLocalNUMANodes: over the host's files.
use teleskop.Common.{List, [], ◌∷◌, ◌++◌}
use teleskop.Cpu.Node.{NumaNode}
use teleskop.Cpu.Parse.{parse_node_list}
use teleskop.Go.Error.{Outcome, ok, ◌>>=◌}
use teleskop.Go.Text.{Text, codes}

abbrev pub node_pattern : Text
node_pattern = codes "/sys/devices/system/node/node*"

-- What filepath.Glob and ioutil.ReadFile return on the host.
pub record Files : Type 0 where
  pub glob : Text → Outcome (List Text)
  pub read_file : Text → Outcome Text

module _ (files : Files) where
  -- filepath.Join of a matched path, which is clean, and cpulist.
  unfoldable pub read_nodes : List Text → Outcome (List NumaNode)
  read_nodes [] = ok []
  read_nodes (node ∷ nodes) = do
    tmp ← files.read_file (node ++ codes "/cpulist")
    cpu ← parse_node_list tmp
    rest ← read_nodes nodes
    ok (cpu ∷ rest)

  unfoldable pub get_local_numa_nodes : Outcome (List NumaNode)
  unfolding read_nodes
  get_local_numa_nodes = do nodes ← files.glob node_pattern; read_nodes nodes
