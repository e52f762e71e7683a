-- ===== src/Topology/Find.antt =====
-- The searches for a free VLAN and for a path with enough bandwidth: `find_vlan_on_path`,
-- `find_vlan_on_tree` and `find_valid_path` of sdxctlr/TopologyManager.py.
pub mod Points
pub mod Search
use atlanticwave_proto.Prelude.{
  String, Option, none, some, List, [], ◌∷◌, Bool, true, false, not, if◌then◌else◌, ◌==◌,
  text_equality,
}
use atlanticwave_proto.Prelude.Lists.{contains, pairs}
use atlanticwave_proto.Prelude.Int.{ℤ, pos, ◌+ℤ◌, ltb_ℤ, int_eq}
use atlanticwave_proto.Prelude.Action.{
  Action, pure, raise, gets, or_raise, key_error, type_error, network_x_no_path, ◌>>=◌, ◌>>◌,
}
use atlanticwave_proto.Topology.Graph.{NetworkX}
use atlanticwave_proto.Topology.Manager.{Manager, node_at, edge_at}
use atlanticwave_proto.Topology.Available.{range, get_available_vlan_list}

-- `range(1, 4089)`
unfoldable pub vlan_range : List ℤ
vlan_range = range (pos 1) (pos 4089)

-- `path[1:-1]`
abbrev pub drop_last : List String → List String
drop_last [] = []
drop_last (x ∷ []) = []
drop_last (x ∷ y ∷ ys) = x ∷ drop_last (y ∷ ys)

abbrev pub middle_of : List String → List String
middle_of [] = []
middle_of (x ∷ xs) = drop_last xs

module _ (N : NetworkX) where
  -- `for point in path`: is the VLAN in use on a switch?
  unfoldable pub used_on_points : ℤ → List String → Action (Manager N) Bool
  used_on_points vlan [] = pure false
  used_on_points vlan (point ∷ points) = do
    let rest = used_on_points vlan points
    v ← node_at N point
    kind ← or_raise v.kind key_error
    if kind == "switch"
        then (do
          xs ← or_raise v.vlans_in_use key_error
          if contains xs vlan then pure true else rest)
        else rest

  -- `for (node, nextnode) in zip(path[0:-1], path[1:])`: is the VLAN in use or not allowed?
  unfoldable pub closed_on_edges : ℤ → List (String × String) → Action (Manager N) Bool
  closed_on_edges vlan [] = pure false
  closed_on_edges vlan ((node, nextnode) ∷ node_pairs) = do
    let rest = closed_on_edges vlan node_pairs
    e ← edge_at N node nextnode
    if contains e.vlans_in_use vlan then pure true else (do
      allowed ← get_available_vlan_list N e.available_vlans
      if contains allowed vlan then rest else pure true)

  -- the outer loop, over the VLANs that are left to try
  unfoldable pub try_vlans_on_path : List String → List ℤ → Action (Manager N) (Option ℤ)
  try_vlans_on_path path [] = pure none
  try_vlans_on_path path (vlan ∷ vlans) = do
    let rest = try_vlans_on_path path vlans
    used ← used_on_points vlan path
    if used then rest else (do
      closed ← closed_on_edges vlan (pairs path)
      if closed then rest else pure (some vlan))

  unfoldable pub find_vlan_on_path : List String → Action (Manager N) (Option ℤ)
  find_vlan_on_path path = try_vlans_on_path path vlan_range

  -- the loop of `find_vlan_on_tree` over the tree's edges
  unfoldable pub used_on_edges : ℤ → List (String × String) → Action (Manager N) Bool
  used_on_edges vlan [] = pure false
  used_on_edges vlan ((node, nextnode) ∷ node_pairs) = do
    let rest = used_on_edges vlan node_pairs
    e ← edge_at N node nextnode
    if contains e.vlans_in_use vlan then pure true else rest

  unfoldable pub try_vlans_on_tree : N.Graph → List ℤ → Action (Manager N) (Option ℤ)
  try_vlans_on_tree tree [] = pure none
  try_vlans_on_tree tree (vlan ∷ vlans) = do
    let rest = try_vlans_on_tree tree vlans
    used ← used_on_points vlan (N.nodes tree)
    if used then rest else (do
      closed ← used_on_edges vlan (N.edges tree)
      if closed then rest else pure (some vlan))

  unfoldable pub find_vlan_on_tree : N.Graph → Action (Manager N) (Option ℤ)
  find_vlan_on_tree tree = try_vlans_on_tree tree vlan_range

  -- `bw_in_use + bw`, a `TypeError` where `bw` is `None`
  abbrev pub plus_bw : ℤ → Option ℤ → Action (Manager N) ℤ
  plus_bw in_use bw = elim bw [ none ↦ raise type_error | some b ↦ pure (in_use +ℤ b) ]

  -- the inner loop of `find_valid_path`: has every edge enough bandwidth?
  unfoldable pub enough_bw : Option ℤ → List (String × String) → Action (Manager N) Bool
  enough_bw bw [] = pure true
  enough_bw bw ((node, nextnode) ∷ node_pairs) = do
    let rest = enough_bw bw node_pairs
    e ← edge_at N node nextnode
    wanted ← plus_bw e.bw_in_use bw
    if ltb_ℤ e.weight wanted then pure false else rest

  -- the outer loop of `find_valid_path`
  unfoldable pub try_paths :
      Option ℤ → Bool → List (List String) → Action (Manager N) (Option (List String))
  try_paths bw ignore_endpoints [] = pure none
  try_paths bw ignore_endpoints (whole ∷ paths) = do
    let rest = try_paths bw ignore_endpoints paths
    let path = if ignore_endpoints then middle_of whole else whole
    vlan ← find_vlan_on_path path
    elim vlan [
      | none ↦ rest
      | some _ ↦ (do enough ← enough_bw bw (pairs path); if enough then pure (some path) else rest)
    ]

  -- `none` stands for every exception of `all_shortest_paths`, whatever its class: also for that of a
  -- source which is no node.
  unfoldable pub find_valid_path :
      String → String → Option ℤ → Bool → Action (Manager N) (Option (List String))
  find_valid_path src dst bw ignore_endpoints = do
    paths ← or_raise (← gets (λ m. N.all_shortest_paths m.topo src dst)) network_x_no_path
    try_paths bw ignore_endpoints paths
