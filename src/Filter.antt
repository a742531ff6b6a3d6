-- ===== src/Filter.antt =====
-- filter.go: the builders of tags filters, as trees of `protocol.FilterNode`.
use centrifuge_go.Prelude.{String, List, []}

mutual
  -- `protocol.FilterNode`: the operation and the nodes of a logical node, or the key, comparison,
  -- value and values of a leaf. The other fields are empty.
  pub data FilterNode : Type 0 where
    filter_node : String → String → String → String → List String → FilterNodes → FilterNode

  pub data FilterNodes : Type 0 where
    no_nodes : FilterNodes
    and_node : FilterNode → FilterNodes → FilterNodes

unfoldable pub leaf_filter : String → String → String → List String → FilterNode
leaf_filter key cmp val vals = filter_node "" key cmp val vals no_nodes

unfoldable pub logical_filter : String → FilterNodes → FilterNode
logical_filter op nodes = filter_node op "" "" "" [] nodes

unfoldable pub filter_eq : String → String → FilterNode
filter_eq key val = leaf_filter key "eq" val []

unfoldable pub filter_neq : String → String → FilterNode
filter_neq key val = leaf_filter key "neq" val []

unfoldable pub filter_in : String → List String → FilterNode
filter_in key vals = leaf_filter key "in" "" vals

unfoldable pub filter_nin : String → List String → FilterNode
filter_nin key vals = leaf_filter key "nin" "" vals

unfoldable pub filter_exists : String → FilterNode
filter_exists key = leaf_filter key "ex" "" []

unfoldable pub filter_not_exists : String → FilterNode
filter_not_exists key = leaf_filter key "nex" "" []

unfoldable pub filter_starts_with : String → String → FilterNode
filter_starts_with key val = leaf_filter key "sw" val []

unfoldable pub filter_ends_with : String → String → FilterNode
filter_ends_with key val = leaf_filter key "ew" val []

unfoldable pub filter_contains : String → String → FilterNode
filter_contains key val = leaf_filter key "ct" val []

unfoldable pub filter_gt : String → String → FilterNode
filter_gt key val = leaf_filter key "gt" val []

unfoldable pub filter_gte : String → String → FilterNode
filter_gte key val = leaf_filter key "gte" val []

unfoldable pub filter_lt : String → String → FilterNode
filter_lt key val = leaf_filter key "lt" val []

unfoldable pub filter_lte : String → String → FilterNode
filter_lte key val = leaf_filter key "lte" val []

unfoldable pub filter_and : FilterNodes → FilterNode
filter_and nodes = logical_filter "and" nodes

unfoldable pub filter_or : FilterNodes → FilterNode
filter_or nodes = logical_filter "or" nodes

unfoldable pub filter_not : FilterNode → FilterNode
filter_not node = logical_filter "not" (and_node node no_nodes)
