-- ===== src/Tunnel/Route.antt =====
-- `breakdown_rule` of shared/L2TunnelPolicy.py: the path and the VLAN of a tunnel, its resources, and
-- the rules for each switch of the path.
use atlanticwave_proto.Prelude.{String, Option, some, List, [], ◌∷◌, false}
use atlanticwave_proto.Prelude.Int.{ℤ}
use atlanticwave_proto.Prelude.Action.{Action, gets, lift, pure, user_policy_error, ◌>>=◌, or_raise}
use atlanticwave_proto.Topology.Graph.{NetworkX}
use atlanticwave_proto.Topology.Manager.{Manager}
use atlanticwave_proto.Topology.Resources.{
  Resource, vlan_path, vlan_port, bandwidth_path, bandwidth_port, get_switch_port_neighbor,
}
use atlanticwave_proto.Topology.Find.{find_valid_path, find_vlan_on_path}
use atlanticwave_proto.Tunnel.{TunnelEnd, L2TunnelPolicy}
use atlanticwave_proto.Tunnel.Path.{path_rules}

module _ {N : NetworkX} where
  -- `self.resources`, in the order in which they are appended
  abbrev pub tunnel_resources : L2TunnelPolicy N → List String → ℤ → List (Resource N)
  tunnel_resources policy fullpath vlan =
      vlan_path fullpath vlan
      ∷ vlan_port policy.src.switch policy.src.port policy.src.vlan
      ∷ vlan_port policy.dst.switch policy.dst.port policy.dst.vlan
      ∷ bandwidth_path fullpath policy.bandwidth
      ∷ bandwidth_port policy.src.switch policy.src.port policy.bandwidth
      ∷ bandwidth_port policy.dst.switch policy.dst.port policy.bandwidth
      ∷ []

  -- an entry of `self.endpoints`
  abbrev pub endpoint_of : TunnelEnd → Action (Manager N) (String × Option String × ℤ)
  endpoint_of end = do
    neighbor ← get_switch_port_neighbor N end.switch end.port
    pure (end.switch, neighbor, end.vlan)

  abbrev pub path_for : L2TunnelPolicy N → Action (Manager N) (List String)
  path_for policy = do
    found_path ← find_valid_path N policy.src.switch policy.dst.switch (some policy.bandwidth) false
    or_raise found_path user_policy_error

  abbrev pub vlan_for : List String → Action (Manager N) ℤ
  vlan_for fullpath = do or_raise (← find_vlan_on_path N fullpath) user_policy_error

  -- the policy with the rules that are made last
  abbrev pub with_rules :
      L2TunnelPolicy N
      → List String
      → ℤ
      → List (String × Option String × ℤ)
      → Action (Manager N) (L2TunnelPolicy N)
  with_rules policy fullpath vlan endpoints = do
    topology ← gets (λ m. m.topo)
    breakdown ← lift (path_rules N topology policy.src policy.dst vlan policy.bandwidth fullpath)
    pure (record policy {
      fullpath = some fullpath;
      intermediate_vlan = some vlan;
      resources = tunnel_resources policy fullpath vlan;
      endpoints = endpoints;
      breakdown = some breakdown;
    })

  -- The policy as a return leaves it, with the breakdown that is returned. A policy is dropped when
  -- its breakdown raises.
  unfoldable pub breakdown_rule : L2TunnelPolicy N → Action (Manager N) (L2TunnelPolicy N)
  breakdown_rule policy = do
    fullpath ← path_for policy
    vlan ← vlan_for fullpath
    src_endpoint ← endpoint_of policy.src
    dst_endpoint ← endpoint_of policy.dst
    with_rules policy fullpath vlan (src_endpoint ∷ dst_endpoint ∷ [])
