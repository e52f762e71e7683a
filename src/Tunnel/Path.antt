-- ===== src/Tunnel/Path.antt =====
-- The rules that `breakdown_rule` of shared/L2TunnelPolicy.py makes for the switches of a path. The
-- topology is only read.
use atlanticwave_proto.Prelude.{
  String, some, List, [], ◌∷◌, true, ◌==◌, text_equality, if◌then◌else◌,
}
use atlanticwave_proto.Prelude.Lists.{lookup}
use atlanticwave_proto.Prelude.Int.{ℤ}
use atlanticwave_proto.Prelude.Action.{Result, ok, err, key_error, index_error, name_error}
use atlanticwave_proto.Prelude.Outcome.{get_or, returns, ◌>>=◌}
use atlanticwave_proto.Topology.Graph.{NetworkX}
use atlanticwave_proto.Rules.{LcRule, Breakdown}
use atlanticwave_proto.Tunnel.{VlanTunnel, TunnelEnd, vlan_tunnel_lc_rule}

-- `fullpath[-2]` of a path with this first node
abbrev pub before_last : String → List String → Result String
before_last x [] = err index_error
before_last x (y ∷ []) = ok x
before_last x (y ∷ z ∷ rest) = before_last y (z ∷ rest)

-- a `UserPolicyBreakdown` with one rule
abbrev pub with_rule : String → LcRule VlanTunnel → Breakdown VlanTunnel
with_rule shortname r = record { lc = shortname; rules = r ∷ [] }

module _ (N : NetworkX) (topology : N.Graph) where
  -- `topology.node[location]['locationshortname']` and `['dpid']`
  abbrev pub location_of : String → Result (String × ℤ)
  location_of location = do
    v ← get_or (N.node topology location) key_error
    shortname ← get_or v.locationshortname key_error
    switch_id ← get_or v.dpid key_error
    returns (shortname, switch_id)

  -- `topology.edge[a][b][c]`
  abbrev pub port_at : String → String → String → Result ℤ
  port_at a b c = do
    edge ← get_or (N.edge topology a b) key_error
    get_or (lookup c edge.ports) key_error

  -- the rule of the only node
  abbrev pub only_rule : TunnelEnd → TunnelEnd → ℤ → Result (List (Breakdown VlanTunnel))
  only_rule src dst bandwidth = do
    (shortname, switch_id) ← location_of src.switch
    r ← vlan_tunnel_lc_rule switch_id src.port dst.port src.vlan dst.vlan true (some bandwidth)
    returns (with_rule shortname r ∷ [])

  -- Where the switches differ, the message reads a name that is not defined.
  unfoldable pub single_rule : TunnelEnd → TunnelEnd → ℤ → Result (List (Breakdown VlanTunnel))
  single_rule src dst bandwidth =
      let bds = only_rule src dst bandwidth in
      if src.switch == dst.switch then bds else err name_error

  -- the rule of an end, whose neighbour on the path is `path`
  unfoldable pub end_rule : ℤ → ℤ → TunnelEnd → String → Result (Breakdown VlanTunnel)
  end_rule intermediate_vlan bandwidth end path = do
    (shortname, switch_id) ← location_of end.switch
    outport ← port_at end.switch path end.switch
    r ←
        vlan_tunnel_lc_rule switch_id end.port outport end.vlan intermediate_vlan true
          (some bandwidth)
    returns (with_rule shortname r)

  -- the rule of a node between its two neighbours
  unfoldable pub middle_rule : ℤ → ℤ → String → String → String → Result (Breakdown VlanTunnel)
  middle_rule intermediate_vlan bandwidth prevnode node nextnode = do
    (shortname, switch_id) ← location_of node
    inport ← port_at prevnode node node
    outport ← port_at node nextnode node
    r ←
        vlan_tunnel_lc_rule switch_id inport outport intermediate_vlan intermediate_vlan true
          (some bandwidth)
    returns (with_rule shortname r)

  -- the loop over `zip(fullpath[0:-2], fullpath[1:-1], fullpath[2:])`
  unfoldable pub middle_rules : ℤ → ℤ → List String → Result (List (Breakdown VlanTunnel))
  middle_rules intermediate_vlan bandwidth (prevnode ∷ node ∷ nextnode ∷ nodes) = do
    let rest = middle_rules intermediate_vlan bandwidth (node ∷ nextnode ∷ nodes)
    bd ← middle_rule intermediate_vlan bandwidth prevnode node nextnode
    bds ← rest
    returns (bd ∷ bds)
  middle_rules intermediate_vlan bandwidth _ = returns []

  -- everything after the endpoints are filled out
  unfoldable pub path_rules :
      TunnelEnd → TunnelEnd → ℤ → ℤ → List String → Result (List (Breakdown VlanTunnel))
  path_rules src dst intermediate_vlan bandwidth [] = err index_error
  path_rules src dst intermediate_vlan bandwidth (x ∷ []) = single_rule src dst bandwidth
  path_rules src dst intermediate_vlan bandwidth (x ∷ srcpath ∷ nodes) = do
    dstpath ← before_last x (srcpath ∷ nodes)
    src_bd ← end_rule intermediate_vlan bandwidth src srcpath
    dst_bd ← end_rule intermediate_vlan bandwidth dst dstpath
    bds ← middle_rules intermediate_vlan bandwidth (x ∷ srcpath ∷ nodes)
    returns (src_bd ∷ dst_bd ∷ bds)
