-- ===== src/Lib.antt =====
-- The AtlanticWave/SDX controller: models of its core and theorems about them.
--
-- The SDX controller takes rules (policies) from participants, breaks them down into rules for local
-- controllers, reserves the VLANs and the bandwidth that they need, and installs them.
--
-- Prelude models what is used of Python: integers of any size (Prelude/Int), lists and dictionaries
-- (Prelude/Lists), `int` and `split` on text (Prelude/Text), and methods that read and write a state
-- and may raise (Prelude/Action). After a raise the state is what was written so far.
--
-- Topology is sdxctlr/TopologyManager.py with the resources of shared/PathResource.py:
--   * Topology/Graph: what is used of the networkx package, an interface with laws (Graph/Laws) and an
--     instance that meets them (Graph/Memory). The attribute dictionaries are records.
--   * Topology/Manager: the state, `self.topo` and `self._cached_vlans`.
--   * Topology/Loops: the loops over nodes and pairs of nodes, and what they do to each of them.
--   * Topology/Bandwidth: `reserve_bw`, `unreserve_bw`.
--   * Topology/Vlans: `reserve_vlan`, `unreserve_vlan`.
--   * Topology/Resources: the functions on paths, trees and ports, `reserve_resource` and
--     `unreserve_resource`.
--   * Topology/Available: the text format of allowed VLANs, its parser and its cache.
--   * Topology/Find: `find_vlan_on_path`, `find_vlan_on_tree`, `find_valid_path`.
--
-- Database is what is used of the dataset package, a table of rows, and of pickle: interfaces with
-- laws that count rows, and a table in memory that meets them (Database/Memory).
--
-- LocalRules is the local controller's side:
--   * LocalRules: `LCRuleManager` of localctlr/LCRuleManager.py, over any class of rules.
--   * LocalRules/Laws, LocalRules/Status, LocalRules/Initial: what its operations do to the lists of
--     rules at a cookie and a switch.
--   * LocalRules/Controller: the handlers of localctlr/LocalController.py that install and remove
--     rules, and the commands they send to the switch; LocalRules/Messages: what they do. An initial
--     rule is kept as the rule; the source keeps the message that holds it.
--
-- Rules is `RuleManager` of sdxctlr/RuleManager.py, which calls Topology and sends messages to the
-- local controllers:
--   * Rules: its state, the rules of participants (shared/UserPolicy.py) and the record `Outside` of
--     what it calls. The methods that each class of policies defines are parameters there.
--   * Rules/Install: reserving resources, sending breakdowns, restarting the timers. Sending returns,
--     with no exception. A timer is the time it goes off at, and the clock stands still during a call.
--   * Rules/Cycle: adding and removing a rule. The callbacks before it are empty in every class of
--     policies, so they are left out.
--   * Rules/Callbacks, Rules/Queries: the callbacks of the timers, the registered callbacks, and the
--     queries (`get_rules` without an ordering).
--   * Rules/Keeps, Rules/Numbers, Rules/Fresh, Rules/Partial,
--     Rules/Timer, Rules/Quiet: what these operations change and keep.
--
-- Controllers is `LocalControllerManager` of sdxctlr/LocalControllerManager.py with the credentials
-- that it hands to sdxctlr/AuthenticationInspector.py; Controllers/Credentials has its theorems.
--
-- Connection is the handshake of shared/SDXControllerConnectionManagerConnection.py, in which a local
-- controller that has connected to the SDX controller gets its initial rules:
--   * Connection, Connection/Message: `SDXMessage`, its subclasses, and reading a received dictionary;
--     Connection/RoundTrip has the theorems about it.
--   * Connection/Local, Connection/Sdx: `transition_to_main_phase_LC` and
--     `transition_to_main_phase_SDX`, cut at each receive into what is done with one message,
--     and once more after the message that the initial rules are complete.
--   * Connection/Handshake: both sides and the messages under way, which TCP keeps in order; a move is
--     the start of a side, a receive, or the call of `initial_rules_complete_callback` with what
--     follows, once its message is sent. Connection/Phases, Connection/Runs, Connection/Outcome: the
--     states that are reached, and how the handshake ends.
-- The callbacks of the handshake return, and no connection is lost during it.
--
-- Tunnel is the policy for a tunnel between two switches, shared/L2TunnelPolicy.py, with its rules
-- (shared/VlanTunnelLCRule.py). It takes its path and its VLAN from Topology:
--   * Tunnel, Tunnel/Syntax: the policy, its equality, `check_syntax` and `_parse_json`. The parser of
--     times and `str` of a number are parameters; a text is a unicode text, as `json.loads` gives it.
--   * Tunnel/Path, Tunnel/Route: `breakdown_rule`. Its result is the policy that a return leaves.
--   * Tunnel/Delivery: what rules do with a frame. A switch has one `dpid`, an edge has a port at each
--     end, and a rule also works the other way round. Tunnel/Serves, Tunnel/Carries, Tunnel/Arrives:
--     where the rules of a tunnel bring a frame.
--   * Tunnel/Checked, Tunnel/Same: what passes the check, and the equality.
--
-- Multipoint is the policy for a network between several switches, shared/L2MultipointPolicy.py, with
-- its three kinds of rules (shared/L2Multipoint*LCRule.py):
--   * Multipoint, Multipoint/Syntax: the policy, its equality, `check_syntax` and `_parse_json`.
--   * Multipoint/Nodes: `breakdown_rule`, over the tree that Topology/Steiner finds
--     (`find_valid_steiner_tree`; the algorithm of lib/SteinerTree.py and the removal of an edge are
--     parameters). Multipoint/Covers, Topology/Steiner/Enough: the nodes that get a rule, and the tree.
--   * Multipoint/Learned: `switch_change_callback`, with the shortest paths of networkx a parameter;
--     Multipoint/Sends, Multipoint/Toward: where its rules bring a frame.
--
-- Learning has the policies with which switches learn where destinations are
-- (shared/EdgePortPolicy.py, shared/FloodTreePolicy.py, shared/LearnedDestinationPolicy.py) and their
-- rules; the spanning tree and the shortest paths of networkx are parameters.
--
-- Fields has the fields that rules match on (shared/LCFields.py), with their checks and their
-- equality, Fields/Actions the actions of rules (shared/LCAction.py), and Fields/Participant the
-- matches and actions of participants (shared/SDXMatches.py, shared/SDXActions.py). An int has 64 bits
-- there, as in the Python 2 of a 64-bit system.
--
-- Loops are recursions over the list that the code walks through, so there is no fuel but `timeout`
-- of `find_valid_steiner_tree`, which is the source's. VLANs, ports and bandwidths are integers of any
-- size, as in Python. `topolock` is held over each operation, so each operation is one step. Logging
-- and printing are left out. A key of an attribute dictionary that is a node's name is kept apart from
-- the fixed keys.
--
-- Not modelled: `change_callback_dispatch` and the ordering of `get_rules` of the rule manager, the
-- import of the manifest, the breakdowns of the other policies, the REST and SENSE interfaces (HTTP
-- handlers), the translation to OpenFlow by Ryu, sockets, pickling and threads, the heartbeats of the
-- main phase, and lib/SteinerTree.py, which is a copy of another project's library.
pub mod Prelude
pub mod Topology
pub mod Database
pub mod LocalRules
pub mod Rules
pub mod Controllers
pub mod Connection
pub mod Tunnel
pub mod Multipoint
pub mod Learning
pub mod Fields
