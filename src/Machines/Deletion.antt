-- ===== src/Machines/Deletion.antt =====
-- `CheckNodesDeletedForMachines` of pkg/openshift/machines.go: which lookups count as a node that is gone.
use openshift_vsphere_migrat.Base.{
  ℕ, ◌+◌, String, ◌≡◌, refl, sym, ap, ◌∙◌, Bool, true, false, List, [], ◌∷◌, Option, none, some,
  Result, ok, err, if◌then◌else◌, ◌==◌, nat_eq, count, arith,
}
use openshift_vsphere_migrat.Base.Exec.{Exec, continue, wrap_error, wrap_result, ◌>>=◌}
use openshift_vsphere_migrat.Base.Int32.{Int32, add, wrap}
use openshift_vsphere_migrat.Machines.Types.{
  Machine, Node, MachineClient, MachineManager, with_client,
}
use openshift_vsphere_migrat.Machines.Readiness.{
  still_there, remaining_nodes, nodes_of, list_failed, check_nodes_deleted_for_machines,
}

module _ {S : Type 0} (manager : MachineManager S) (t : S) where
  abbrev found : Result Node → Bool
  found (ok node) = true
  found (err e) = false

  -- The lookup of the machine's node in the world `t` returns a node.
  abbrev pub node_found : Machine → Bool
  node_found machine = elim machine.node_ref [
    | none ↦ false
    | some name ↦ found (manager.get_node name t).0
  ]

  abbrev machine_of : String → Option String → Option String → Machine
  machine_of name node_ref phase = record { name = name; node_ref = node_ref; phase = phase }

  one_more : (r k : ℕ) → add (wrap r) 1 ≡ wrap (r + 1)
  one_more r k = omega arith

  zero_plus : (r : ℕ) → wrap (r + 0) ≡ wrap r
  zero_plus r = ap wrap (omega arith)

  counted :
      (found : Bool) (r c : ℕ)
      → wrap ((if found then r + 1 else r) + c) ≡ wrap (r + ((if found then 1 else 0) + c))
  counted true r c = ap wrap (omega arith)
  counted false r c = ap wrap (omega arith)

  still_there-found :
      (n : Result Node) (r : ℕ) → still_there n (wrap r) ≡ wrap (if found n then r + 1 else r)
  still_there-found (ok node) r = one_more r 0
  still_there-found (err e) r = refl

  -- The loop adds the machines whose node is found.
  abbrev Counts : List Machine → Type 0
  Counts machines =
      (r : ℕ)
      → remaining_nodes manager machines (wrap r) t ≡ (wrap (r + count node_found machines), t)

  remaining_nodes-count :
      ((name : String) → (manager.get_node name t).1 ≡ t)
      → (machines : List Machine) → Counts machines
  unfolding remaining_nodes
  remaining_nodes-count reads [] r = ap (λ n. (n, t)) (sym (zero_plus r))
  remaining_nodes-count reads (machine ∷ machines) r =
      go (remaining_nodes-count reads machines) machine.name machine.node_ref machine.phase
    where
      after :
          Counts machines
          → (n : Result Node)
          → remaining_nodes manager machines (still_there n (wrap r)) t
            ≡ (wrap (r + ((if found n then 1 else 0) + count node_found machines)), t)
      after rest n =
          ap (λ w. remaining_nodes manager machines w t) (still_there-found n r)
          ∙ rest (if found n then r + 1 else r)
          ∙ ap (λ w. (w, t)) (counted (found n) r (count node_found machines))

      go :
          Counts machines
          → (name : String) (node_ref phase : Option String)
          → remaining_nodes manager (machine_of name node_ref phase ∷ machines) (wrap r) t
            ≡ (wrap (r + count node_found (machine_of name node_ref phase ∷ machines)), t)
      go rest name none phase = rest r ∙ ap (λ n. (n, t)) (ap wrap (omega arith))
      go rest name (some node) phase =
          ap
            (λ w.
              remaining_nodes manager machines (still_there (manager.get_node node t).0 (wrap r)) w)
            (reads node)
          ∙ after rest (manager.get_node node t).0

  nodes_of-count :
      ((name : String) → (manager.get_node name t).1 ≡ t)
      → (machines : List Machine)
      → let remaining = wrap (count node_found machines) in
        nodes_of manager machines t ≡ (ok (remaining == 0, remaining), t)
  unfolding nodes_of
  nodes_of-count reads [] = refl
  nodes_of-count reads (machine ∷ machines) =
      ap (λ w. (ok (w.0 == 0, w.0), w.1))
        (remaining_nodes-count reads (machine ∷ machines) 0
          ∙ ap (λ n. (n, t)) (ap wrap (omega arith)))

  -- For a manager with a client, where a lookup of a node leaves the world as it is: once the set's
  -- machines are listed, the remaining nodes are those whose lookup returns a node, their number kept
  -- to 32 bits, and the nodes count as deleted when that is 0. A lookup that fails for any reason,
  -- not only as not found, counts as a node that is gone.
  pub check_nodes_deleted_for_machines-count :
      (client : MachineClient S)
      → manager.machine_client ≡ some client
      → ((name : String) → (manager.get_node name t).1 ≡ t)
      → (name : String) (s : S) (machines : List Machine)
      → client.list_machines name s ≡ (ok machines, t)
      → let remaining = wrap (count node_found machines) in
        check_nodes_deleted_for_machines manager name s ≡ (ok (remaining == 0, remaining), t)
  unfolding check_nodes_deleted_for_machines ◌>>=◌
  check_nodes_deleted_for_machines-count client plugged reads name s machines q =
      ap (λ c. with_client (λ client. listed (client.list_machines name)) c s) plugged
      ∙ ap (λ w. continue (wrap_result (list_failed name) w.0) (nodes_of manager) w.1) q
      ∙ nodes_of-count reads machines
    where
      listed : Exec S (List Machine) → Exec S (Bool × Int32)
      listed m = wrap_error (list_failed name) m >>= nodes_of manager
