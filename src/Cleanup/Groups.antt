-- ===== src/Cleanup/Groups.antt =====
-- delegations.go: the groups that a list of identifiers is cut into.
use hayabusa_e2e.Prelude.{
  append_assoc, append-nil, ℕ, zero, suc, ◌+◌, ◌-◌, ◌≡◌, ◌≤◌, ◌<◌, refl, inl, inr, sym, true, List,
  [], ◌∷◌, ◌++◌, ltb, ltb→lt, ltb→le, Bool-cases, if◌then◌else◌, arith, ap, ◌∙◌, length, take, drop,
  take_all, drop-drop, length-drop, length-take,
}
use hayabusa_e2e.Prelude.Go.{Reply, returns}
use hayabusa_e2e.Cleanup.Run.{
  Chain, Cleanup, groups_from, groups, group_size, send_all, send_groups, exit_delegations,
  exit_some,
}

abbrev pub concat : List (List ℕ) → List ℕ
concat [] = []
concat (x ∷ xs) = x ++ concat xs

-- No group is empty, and none is larger than the group size.
abbrev pub Sized : List (List ℕ) → Type 0
Sized [] = Unit
Sized (x ∷ xs) = (1 ≤ length x) × (length x ≤ group_size) × Sized xs

take-drop : (n : ℕ) (xs : List ℕ) → take n xs ++ drop n xs ≡ xs
take-drop zero xs = refl
take-drop (suc n) [] = refl
take-drop (suc n) (x ∷ xs) = ap (λ l. x ∷ l) (take-drop n xs)

drop_all : (n : ℕ) (xs : List ℕ) → length xs ≤ n → drop n xs ≡ []
drop_all zero [] h = refl
drop_all zero (x ∷ xs) h = absurd (omega arith)
drop_all (suc n) [] h = refl
drop_all (suc n) (x ∷ xs) h = drop_all n xs (omega arith)

-- One group and what comes after it.
group-rest :
    (i : ℕ) (ids : List ℕ)
    → ltb i (length ids) ≡ true
    → take ((if ltb (length ids) (i + 100) then length ids else i + 100) - i) (drop i ids)
        ++ drop (i + 100) ids
      ≡ drop i ids
group-rest i ids more = elim (Bool-cases (ltb (length ids) (i + 100))) [
  | inl short ↦
      let after : length ids ≤ i + 100 = omega (arith, ltb→lt) in
      rw
        (
          short,
          drop_all (i + 100) ids after,
          take_all (length ids - i) (drop i ids) (omega (arith, length-drop i ids)),
        )
        (append-nil (drop i ids))
  | inr long ↦
      let size : i + 100 - i ≡ 100 = omega arith in
      rw (long, size)
        (ap (λ l. take 100 (drop i ids) ++ l) (sym (drop-drop i 100 ids))
          ∙ take-drop 100 (drop i ids))
]

group-length :
    (i : ℕ) (ids : List ℕ)
    → i < length ids
    → (1
        ≤ length
            (take ((if ltb (length ids) (i + 100) then length ids else i + 100) - i) (drop i ids)))
      × (length
            (take ((if ltb (length ids) (i + 100) then length ids else i + 100) - i) (drop i ids))
          ≤ 100)
group-length i ids more = elim (Bool-cases (ltb (length ids) (i + 100))) [
  | inl short ↦
      let after : length ids < i + 100 = ltb→lt _ _ short in
      rw (short, length-take (length ids - i) (drop i ids), length-drop i ids)
        (omega arith, omega arith)
  | inr long ↦
      let after : i + 100 ≤ length ids = ltb→le _ _ long in
      rw (long, length-take (i + 100 - i) (drop i ids), length-drop i ids)
        (omega arith, omega arith)
]

groups_from-all :
    (fuel i : ℕ) (ids : List ℕ)
    → length ids ≤ i + fuel
    → concat (groups_from fuel i ids) ≡ drop i ids
unfolding groups_from
groups_from-all zero i ids h = sym (drop_all i ids (omega arith))
groups_from-all (suc fuel) i ids h = elim (Bool-cases (ltb i (length ids))) [
  | inl more ↦
      let here = group-rest i ids more in
      let later = groups_from-all fuel (i + 100) ids (omega arith) in rw (more, later) here
  | inr done ↦ rw done (sym (drop_all i ids (ltb→le _ _ done)))
]

groups_from-Sized : (fuel i : ℕ) (ids : List ℕ) → Sized (groups_from fuel i ids)
unfolding groups_from
groups_from-Sized zero i ids = tt
groups_from-Sized (suc fuel) i ids = elim (Bool-cases (ltb i (length ids))) [
  | inl more ↦
      let (low, high) = group-length i ids (ltb→lt _ _ more) in
      rw more (low, high, groups_from-Sized fuel (i + 100) ids)
  | inr done ↦ rw done tt
]

-- The groups are the list, cut: put together again they are the list itself, in order, and each has
-- at least one identifier and at most a hundred.
pub groups_lem : (ids : List ℕ) → (concat (groups ids) ≡ ids) × Sized (groups ids)
unfolding groups
groups_lem ids =
    (groups_from-all (length ids) 0 ids (omega arith), groups_from-Sized (length ids) 0 ids)

module _ (e : Chain) (send : ℕ → e.World → Reply ℕ × e.World) where
  -- The world once the groups of some identifiers are sent.
  abbrev pub sent : List ℕ → e.World → e.World
  sent [] w = w
  sent (id ∷ ids) w = send_groups e send (groups (id ∷ ids)) w

  pub exit_some_lem :
      (ids : List ℕ) (s : Cleanup e.World)
      → exit_some e send ids s ≡ returns tt (record s { world = sent ids s.world })
  unfolding exit_some exit_delegations
  exit_some_lem [] s = refl
  exit_some_lem (id ∷ ids) s = refl

  -- What the transactions change, in the order of the identifiers, and what they do not change.
  module _ (log : e.World → List ℕ)
      (logs : (id : ℕ) (w : e.World) → log (send id w).1 ≡ log w ++ (id ∷ []))
      (idle : (w : e.World) → log (e.wait w) ≡ log w) where
    send_all_lem : (ids : List ℕ) (w : e.World) → log (send_all e send ids w) ≡ log w ++ ids
    unfolding send_all
    send_all_lem [] w = sym (append-nil (log w))
    send_all_lem (id ∷ ids) w =
        send_all_lem ids (send id w).1
        ∙ ap (λ l. l ++ ids) (logs id w)
        ∙ append_assoc (log w) (id ∷ []) ids

    send_groups_lem :
        (parts : List (List ℕ)) (w : e.World)
        → log (send_groups e send parts w) ≡ log w ++ concat parts
    unfolding send_groups
    send_groups_lem [] w = sym (append-nil (log w))
    send_groups_lem (ids ∷ rest) w =
        send_groups_lem rest (e.wait (send_all e send ids w))
        ∙ ap (λ l. l ++ concat rest) (idle (send_all e send ids w) ∙ send_all_lem ids w)
        ∙ append_assoc (log w) ids (concat rest)

    pub sent_log : (ids : List ℕ) (w : e.World) → log (sent ids w) ≡ log w ++ ids
    sent_log [] w = sym (append-nil (log w))
    sent_log (id ∷ ids) w =
        send_groups_lem (groups (id ∷ ids)) w ∙ ap (λ l. log w ++ l) (groups_lem (id ∷ ids)).0

  module _ (log : e.World → List ℕ) (quiet : (id : ℕ) (w : e.World) → log (send id w).1 ≡ log w)
      (idle : (w : e.World) → log (e.wait w) ≡ log w) where
    send_all_keeps : (ids : List ℕ) (w : e.World) → log (send_all e send ids w) ≡ log w
    unfolding send_all
    send_all_keeps [] w = refl
    send_all_keeps (id ∷ ids) w = send_all_keeps ids (send id w).1 ∙ quiet id w

    send_groups_keeps :
        (parts : List (List ℕ)) (w : e.World) → log (send_groups e send parts w) ≡ log w
    unfolding send_groups
    send_groups_keeps [] w = refl
    send_groups_keeps (ids ∷ rest) w =
        send_groups_keeps rest (e.wait (send_all e send ids w))
        ∙ idle (send_all e send ids w)
        ∙ send_all_keeps ids w

    pub sent_keeps : (ids : List ℕ) (w : e.World) → log (sent ids w) ≡ log w
    sent_keeps [] w = refl
    sent_keeps (id ∷ ids) w = send_groups_keeps (groups (id ∷ ids)) w
