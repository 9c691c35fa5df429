-- ===== src/Network/Ports.antt =====
-- hayabusa/port_manager.go. The random bytes and the probes of a port are taken from the world;
-- an identifier of a test is a number. The manager is used under its lock.
use hayabusa_e2e.Prelude.{
  ℕ, zero, suc, ◌+◌, ◌-◌, ◌*◌, ◌%◌, Bool, true, false, Option, none, some, List, [], ◌∷◌,
  if◌then◌else◌, ◌++◌,
}
use hayabusa_e2e.Prelude.Dict.{Dict, lookup, insert, erase}

pub record PortManager : Type 0 where
  pub ports : Dict Bool
  pub ports_by_id : Dict (List ℕ)

pub record System : Type 1 where
  pub World : Type 0
  -- `rand.Read` of two bytes
  pub read : World → (ℕ × ℕ) × World
  -- `isPortAvailable`
  pub is_port_available : ℕ → World → Bool × World

abbrev pub min_port : ℕ
min_port = 20000

abbrev pub max_port : ℕ
max_port = 32767

abbrev pub max_attempts : ℕ
max_attempts = 100

-- `pm.ports[port]`
unfoldable pub is_used : ℕ → PortManager → Bool
is_used port pm = elim (lookup port pm.ports) [ none ↦ false | some b ↦ b ]

unfoldable pub ports_of : ℕ → PortManager → List ℕ
ports_of id pm = elim (lookup id pm.ports_by_id) [ none ↦ [] | some ports ↦ ports ]

-- The bytes as a number, reduced to the range.
unfoldable pub port_of : ℕ × ℕ → ℕ
port_of (high, low) = min_port + (high * 256 + low) % (max_port - min_port + 1)

module _ (e : System) where
  -- The test that a port is not handed out and can be bound, which is probed only if it is not.
  unfoldable pub try_port : PortManager → ℕ → e.World → Bool × e.World
  unfolding is_used
  try_port pm port w = if is_used port pm then (false, w) else e.is_port_available port w

  unfoldable pub random_port : PortManager → ℕ → e.World → Option ℕ × e.World
  unfolding try_port port_of
  random_port pm zero w = (none, w)
  random_port pm (suc attempts) w =
      let (bytes, w₁) = e.read w in
      let (free, w₂) = try_port pm (port_of bytes) w₁ in
      let rest = random_port pm attempts w₂ in if free then (some (port_of bytes), w₂) else rest

  -- The ports from one on, of which `n` are left up to the last.
  unfoldable pub sequential_port : PortManager → ℕ → ℕ → e.World → Option ℕ × e.World
  unfolding try_port
  sequential_port pm zero port w = (none, w)
  sequential_port pm (suc n) port w =
      let (free, w₁) = try_port pm port w in
      let rest = sequential_port pm n (port + 1) w₁ in if free then (some port, w₁) else rest

  unfoldable pub after_attempts : PortManager → Option ℕ × e.World → Option ℕ × e.World
  unfolding sequential_port
  after_attempts pm (some port, w) = (some port, w)
  after_attempts pm (none, w) = sequential_port pm (max_port + 1 - min_port) min_port w

  -- `none` is the panic.
  unfoldable pub rnd_port : PortManager → e.World → Option ℕ × e.World
  unfolding after_attempts random_port
  rnd_port pm w = after_attempts pm (random_port pm max_attempts w)

  unfoldable pub hand_out : ℕ → PortManager → Option ℕ → Option ℕ × PortManager
  unfolding ports_of
  hand_out id pm none = (none, pm)
  hand_out id pm (some port) = (
    some port,
    record {
      ports = insert port true pm.ports;
      ports_by_id = insert id (ports_of id pm ++ port ∷ []) pm.ports_by_id;
    },
  )

  unfoldable pub new_port : ℕ → PortManager → e.World → (Option ℕ × PortManager) × e.World
  unfolding rnd_port hand_out
  new_port id pm w = let (port, w') = rnd_port pm w in (hand_out id pm port, w')

unfoldable pub erase_all : List ℕ → Dict Bool → Dict Bool
erase_all [] d = d
erase_all (port ∷ ports) d = erase_all ports (erase port d)

unfoldable pub remove_ports : ℕ → PortManager → PortManager
unfolding erase_all
remove_ports id pm = elim (lookup id pm.ports_by_id) [
  | none ↦ pm
  | some ports ↦ record { ports = erase_all ports pm.ports; ports_by_id = erase id pm.ports_by_id }
]
