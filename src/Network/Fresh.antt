-- ===== src/Network/Fresh.antt =====
-- hayabusa/port_manager.go: the ports that are handed out.
use hayabusa_e2e.Prelude.{
  elem, ℕ, zero, suc, ◌+◌, ◌≡◌, ◌≤◌, refl, inl, inr, Bool, true, false, Bool-cases, Option-cases,
  ◌==◌, ==_iff, subst, sym, Option, none, some, List, [], ◌∷◌, ◌++◌, if◌then◌else◌, arith,
}
use hayabusa_e2e.Prelude.Dict.{Dict, lookup, erase, lookup-insert, lookup-erase}
use hayabusa_e2e.Network.Ports.{
  PortManager, System, is_used, ports_of, port_of, try_port, random_port, sequential_port,
  after_attempts, rnd_port, hand_out, max_attempts, new_port, erase_all, remove_ports,
}

-- In range and not handed out.
abbrev pub IsFree : PortManager → ℕ → Type 0
IsFree pm port = (20000 ≤ port) × (port ≤ 32767) × (is_used port pm ≡ false)

module _ (e : System) where
  -- What a call of `NewPort` does, panic included.
  abbrev pub NewPort : ℕ → PortManager → Option ℕ × PortManager → Type 0
  NewPort id pm (some port, t) =
      IsFree pm port × (is_used port t ≡ true) × (ports_of id t ≡ ports_of id pm ++ port ∷ [])
  NewPort id pm (none, t) = t ≡ pm

  -- A port that is tried with success, whatever the probe of the system answers.
  try_port_lem :
      (pm : PortManager) (port : ℕ) (w : e.World)
      → (try_port e pm port w).0 ≡ true
      → is_used port pm ≡ false
  unfolding try_port
  try_port_lem pm port w h = ground arith

  random_port-IsFree :
      (pm : PortManager) (n : ℕ) (w : e.World) {port : ℕ}
      → (random_port e pm n w).0 ≡ some port
      → IsFree pm port
  unfolding random_port port_of
  random_port-IsFree pm zero w h = cc
  random_port-IsFree pm (suc n) w {port} h =
      let w₁ = (e.read w).1 in
      let tried = port_of (e.read w).0 in
      ground (
        arith,
        h,
        try_port_lem pm tried w₁,
        random_port-IsFree pm n (try_port e pm tried w₁).1 {port = port},
      )

  sequential_port-IsFree :
      (pm : PortManager) (n first : ℕ) (w : e.World) {port : ℕ}
      → 20000 ≤ first
      → first + n ≤ 32768
      → (sequential_port e pm n first w).0 ≡ some port
      → IsFree pm port
  unfolding sequential_port
  sequential_port-IsFree pm zero first w lo hi h = cc
  sequential_port-IsFree pm (suc n) first w {port} lo hi h = ground (
    arith,
    h,
    try_port_lem pm first w,
    sequential_port-IsFree pm n (first + 1) (try_port e pm first w).1 {port = port} (omega arith)
        (omega arith),
  )

  after_attempts-IsFree :
      (pm : PortManager) (r : Option ℕ × e.World) {port : ℕ}
      → (r.0 ≡ some port → IsFree pm port)
      → (after_attempts e pm r).0 ≡ some port
      → IsFree pm port
  unfolding after_attempts
  after_attempts-IsFree pm (some tried, w) k h = k h
  after_attempts-IsFree pm (none, w) k h =
      sequential_port-IsFree pm 12768 20000 w (omega arith) (omega arith) h

  hand_out-NewPort :
      (id : ℕ) (pm : PortManager) (r : Option ℕ)
      → ((port : ℕ) → r ≡ some port → IsFree pm port)
      → NewPort id pm (hand_out e id pm r)
  unfolding hand_out is_used ports_of
  hand_out-NewPort id pm none free = refl
  hand_out-NewPort id pm (some port) free = (
    free port refl,
    ground (arith, lookup-insert port port true pm.ports),
    ground (arith, lookup-insert id id (ports_of id pm ++ port ∷ []) pm.ports_by_id),
  )

  -- A new port is one in the range that was not handed out, it is handed out from then on and listed
  -- last under the identifier; a call that panics leaves the manager as it was.
  pub new_port_lem :
      (id : ℕ) (pm : PortManager) (w : e.World) → NewPort id pm (new_port e id pm w).0
  unfolding new_port rnd_port
  new_port_lem id pm w =
      let tried = random_port e pm max_attempts w in
      hand_out-NewPort id pm (after_attempts e pm tried).0
        (λ port h. after_attempts-IsFree pm tried (random_port-IsFree pm max_attempts w) h)

lookup-erase_all :
    (port : ℕ) (ports : List ℕ) (d : Dict Bool)
    → lookup port (erase_all ports d) ≡ (if elem port ports then none else lookup port d)
unfolding erase_all
lookup-erase_all port [] d = refl
lookup-erase_all port (p ∷ ports) d =
    ground (arith, lookup-erase_all port ports (erase p d), lookup-erase port p d)

-- Removing an identifier's ports frees exactly those that are listed under it, and the identifier
-- has none afterwards; another identifier keeps its list.
pub remove_ports_lem :
    (id : ℕ) (pm : PortManager)
    → ((port : ℕ)
        → is_used port (remove_ports id pm)
          ≡ (if elem port (ports_of id pm) then false else is_used port pm))
      × ((other : ℕ)
          → ports_of other (remove_ports id pm) ≡ (if other == id then [] else ports_of other pm))
unfolding remove_ports is_used ports_of
remove_ports_lem id pm = elim (Option-cases (lookup id pm.ports_by_id)) [
  | inl unknown ↦ (
    λ port. ground (arith, unknown),
    λ other. elim (Bool-cases (other == id)) [
      | inl hit ↦
          let gone : ports_of id (remove_ports id pm) ≡ [] = ground (arith, unknown) in
          rw hit
            (subst (λ x. ports_of x (remove_ports id pm) ≡ []) (sym ((==_iff other id).0 hit)) gone)
      | inr miss ↦ rw miss (ground (arith, unknown))
    ],
  )
  | inr (ports, known) ↦ (
    λ port. ground (arith, known, lookup-erase_all port ports pm.ports),
    λ other. ground (arith, known, lookup-erase other id pm.ports_by_id),
  )
]
