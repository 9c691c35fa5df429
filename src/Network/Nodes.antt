-- ===== src/Network/Nodes.antt =====
-- hayabusa/network.go: the nodes of a network and their ports, from `NewNetwork` to `Stop`. The
-- name of a network is a number, zero for the empty name, and the ports that a node's address
-- holds stand in the node. The networkhub library and the build of thor are parameters, and so is
-- the genesis, which is left out, as the additional arguments of an attached node are.
use hayabusa_e2e.Prelude.{
  ℕ, zero, suc, ◌+◌, Option, none, some, List, [], ◌∷◌, ◌++◌, ltb, if◌then◌else◌, length, get_elem?,
}
use hayabusa_e2e.Prelude.Go.{
  Error, Reply, ok, err, Outcome, returns, fails, panics, or_panic, ◌>>=◌, ◌>>◌,
}
use hayabusa_e2e.Network.Ports.{PortManager, System, new_port, remove_ports}
use hayabusa_e2e.Network.Parameters.{Parameters, validate}

-- "Node-2", and "name-Node-2".
pub data NodeId : Type 0 where
  unnamed : ℕ → NodeId
  named : ℕ → ℕ → NodeId

pub record Node : Type 0 where
  pub id : NodeId
  pub key : ℕ
  pub verbosity : ℕ
  pub staker_verbosity : Option ℕ
  pub api_port : ℕ
  pub p2p_port : ℕ
  pub exec_path : ℕ

pub record NetworkSettings : Type 0 where
  pub name : ℕ
  pub nodes : ℕ
  pub verbosity : ℕ
  pub staker_verbosity : ℕ
  pub parameters : Parameters

pub record Network : Type 0 where
  pub settings : NetworkSettings
  pub nodes : List Node
  pub used_ports : List ℕ

-- What is called of the networkhub library, with the ports of the system.
pub record Hub : Type 1 where
  pub system : System
  pub default_epoch_length : ℕ
  -- the keys of `ValidatorAccounts`
  pub validator_accounts : List ℕ
  pub build : system.World → Reply ℕ × system.World
  pub new_client : List Node → system.World → Option Error × system.World
  pub add_node : Node → system.World → Option Error × system.World
  pub health_check : Node → system.World → Option Error × system.World
  pub stop_client : system.World → system.World

-- The global port manager, and the world.
pub record Ports (W : Type 0) : Type 0 where
  pub manager : PortManager
  pub world : W

unfoldable pub node_id : ℕ → ℕ → NodeId
node_id zero i = unnamed i
node_id (suc name) i = named (suc name) i

abbrev pub staker_verbosity_of : NetworkSettings → ℕ → Option ℕ
staker_verbosity_of c zero = some (if ltb 3 c.staker_verbosity then c.staker_verbosity else 3)
staker_verbosity_of c (suc i) = none

abbrev pub node_ports : List Node → List ℕ
node_ports [] = []
node_ports (n ∷ rest) = n.api_port ∷ n.p2p_port ∷ node_ports rest

module _ (e : Hub) where
  abbrev pub Handler : Type 0 → Type 0
  Handler A = Ports e.system.World → Outcome A (Ports e.system.World)

  abbrev pub port_given :
      (Option ℕ × PortManager) × e.system.World → Outcome ℕ (Ports e.system.World)
  port_given ((none, pm), w) = panics
  port_given ((some port, pm), w) = returns port (record { manager = pm; world = w })

  unfoldable pub port : ℕ → Handler ℕ
  port name s = port_given (new_port e.system name s.manager s.world)

  unfoldable pub make_node : NetworkSettings → ℕ → ℕ → ℕ → Handler Node
  unfolding port node_id
  make_node c i key path = do
    api ← port c.name
    p2p ← port c.name
    (λ s.
        returns
          (record {
            id = node_id c.name i;
            key = key;
            verbosity = if ltb 0 c.verbosity then c.verbosity else 3;
            staker_verbosity = staker_verbosity_of c i;
            api_port = api;
            p2p_port = p2p;
            exec_path = path;
          })
          s)

  -- So many nodes, from one index on.
  unfoldable pub make_nodes : NetworkSettings → ℕ → ℕ → ℕ → Handler (List Node)
  unfolding make_node
  make_nodes c path zero i s = returns [] s
  make_nodes c path (suc n) i s =
      (do
        key ← or_panic (get_elem? e.validator_accounts i)
        node ← make_node c i key path
        nodes ← make_nodes c path n (i + 1)
        (λ t. returns (node ∷ nodes) t))
        s

  abbrev pub tried : (e.system.World → Option Error × e.system.World) → Handler (Unit {0})
  tried f s = elim (f s.world).0 [
    | none ↦ returns tt (record s { world = (f s.world).1 })
    | some x ↦ fails x (record s { world = (f s.world).1 })
  ]

  abbrev pub called : (e.system.World → Reply ℕ × e.system.World) → Handler ℕ
  called f s = elim (f s.world).0 [
    | ok a ↦ returns a (record s { world = (f s.world).1 })
    | err x ↦ fails x (record s { world = (f s.world).1 })
  ]

  abbrev pub valid : Option Error → Handler (Unit {0})
  valid none s = returns tt s
  valid (some x) s = fails x s

  unfoldable pub new_network : NetworkSettings → Handler Network
  unfolding make_nodes
  new_network c = do
    valid (validate e.default_epoch_length c.parameters)
    path ← called e.build
    nodes ← make_nodes c path c.nodes 0
    tried (e.new_client nodes)
    (λ s. returns (record { settings = c; nodes = nodes; used_ports = node_ports nodes }) s)

  -- The network as the call leaves it: a node that cannot be attached stays listed.
  abbrev pub attached : Network → Node → Network
  attached n node = record n {
    nodes = n.nodes ++ (node ∷ []);
    used_ports = n.used_ports ++ (node.api_port ∷ node.p2p_port ∷ []);
  }

  unfoldable pub attach_node : Network → Handler (Network × Option Error)
  unfolding make_node
  attach_node n = do
    path ← called e.build
    key ← or_panic (get_elem? e.validator_accounts (length n.nodes))
    node ← make_node n.settings (length n.nodes) key path
    (λ s.
        let (x, w) = e.add_node node s.world in
        let (y, w') = e.health_check node w in
        elim x [
          | some x' ↦ returns (attached n node, some x') (record s { world = w })
          | none ↦ returns (attached n node, y) (record s { world = w' })
        ])

  -- The error of the client's `Stop` is logged.
  unfoldable pub stop : Network → Ports e.system.World → Ports e.system.World
  stop n s = record {
    manager = remove_ports n.settings.name s.manager;
    world = e.stop_client s.world;
  }
