-- ===== src/Harness/Nodes.antt =====
-- internal/harness/nodes.go
use quorum_kv.Prelude.{String, Option, none, some, List, [], ◌∷◌, Try}
use quorum_kv.Specs.{SpecError, parse_specs}

pub record Node : Type 0 where
  pub id : String
  pub url : String
  pub container : String
  pub ip : String

abbrev pub node_of : List String → Option Node
node_of (a ∷ b ∷ c ∷ d ∷ []) = some (record { id = a; url = b; container = c; ip = d })
node_of _ = none

-- ParseNodes
unfoldable pub parse_nodes : String → Try SpecError (List Node)
unfolding parse_specs
parse_nodes = parse_specs node_of b'='
