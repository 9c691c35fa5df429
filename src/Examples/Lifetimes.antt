-- ===== src/Examples/Lifetimes.antt =====
-- A network of one node, to which another is attached.
use hayabusa_e2e.Prelude.{ℕ, suc, ◌≡◌, refl, true, false, none, [], ◌∷◌, ltb, elem, Distinct, ◌||◌}
use hayabusa_e2e.Prelude.Go.{ok, ◌>>=◌}
use hayabusa_e2e.Prelude.Results.{Leaves}
use hayabusa_e2e.Network.Ports.{System, is_used, ports_of}
use hayabusa_e2e.Network.Nodes.{Hub, Ports, NetworkSettings, node_ports, new_network, stop}
use hayabusa_e2e.Network.Lifetime.{attach_times, lifetime_lem}

-- A world that counts, and that gives its number as random bytes.
abbrev system : System
system = record {
  World = ℕ;
  read = λ w. ((0, w), suc w);
  is_port_available = λ port w. (ltb port 20100, w);
}

abbrev hub : Hub
hub = record {
  system = system;
  default_epoch_length = 180;
  validator_accounts = 11 ∷ 12 ∷ [];
  build = λ w. (ok 1, w);
  new_client = λ nodes w. (none, w);
  add_node = λ n w. (none, w);
  health_check = λ n w. (none, w);
  stop_client = λ w. w;
}

abbrev settings : NetworkSettings
settings = record {
  name = 4;
  nodes = 1;
  verbosity = 0;
  staker_verbosity = 5;
  parameters = record {
    block_interval = 10;
    epoch_length = 6;
    eviction_check_interval = 5;
    min_staking_period = 12;
    mid_staking_period = 24;
    high_staking_period = 36;
    transition_period = 6;
  };
}

abbrev at_start : Ports ℕ
at_start = record { manager = record { ports = []; ports_by_id = [] }; world = 0 }

lifetime_example :
    Leaves
      (λ n t.
        (n.used_ports ≡ node_ports n.nodes)
        × Distinct n.used_ports
        × ((p : ℕ) → elem p n.used_ports ≡ true → is_used p at_start.manager ≡ false)
        × ((p : ℕ) → is_used p t.manager ≡ (elem p n.used_ports || is_used p at_start.manager))
        × ((p : ℕ) → is_used p (stop hub n t).manager ≡ is_used p at_start.manager))
      ((new_network hub settings >>= attach_times hub 1) at_start)
unfolding ports_of
lifetime_example = lifetime_lem hub settings 1 at_start refl
