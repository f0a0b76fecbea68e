-- ===== src/Procs/Lookup.antt =====
-- src/pyon/container/procs.py: the queries on the registry against one another.
use scioncc.Prelude.{
  ◌≡◌, ◌↔◌, refl, String, true, Bool-cases, inl, inr, List, [], ◌∷◌, In, ◌==◌, eq_iff, nat_eq,
  string_eq, arith,
}
use scioncc.Procs.{
  service, type_eq, Process, ProcManager, of_type, with_name, any_name, values,
  list_local_processes, get_local_service_processes, is_local_service_process,
}

In-with_name :
    (n : String) (xs : List Process) (x : Process)
    → In x (with_name n (of_type service xs)) ↔ (In x xs × (x.name ≡ n) × (x.proc_type ≡ service))
unfolding with_name of_type
In-with_name n [] x = (λ h. absurd h, λ h. absurd h.0)
In-with_name n (y ∷ xs) x = ground (
  arith,
  In-with_name n xs x,
  eq_iff y.name n,
  eq_iff x.name n,
  eq_iff y.proc_type service,
  eq_iff x.proc_type service,
)

In-any_name :
    (n : String) (xs : List Process)
    → (any_name n xs ≡ true) ↔ ((x : Process) × In x (with_name n xs))
unfolding any_name with_name
In-any_name n [] = (λ h. cc, λ h. absurd h.1)
In-any_name n (y ∷ xs) = elim (Bool-cases (y.name == n)) [
  | inl h ↦ rw h (λ e. (y, inl refl), λ e. refl)
  | inr h ↦ rw h (In-any_name n xs)
]

module _ {W : Type 0} (p : ProcManager W) where
  -- The service processes listed for a name are exactly the registry's processes of type service with
  -- that name, and the manager says that it has one exactly if the list is not empty.
  pub get_local_service_processes_iff :
      (n : String)
      → ((x : Process)
          → In x (get_local_service_processes p n)
            ↔ (In x (values p) × (x.name ≡ n) × (x.proc_type ≡ service)))
        × ((is_local_service_process p n ≡ true)
            ↔ ((x : Process) × In x (get_local_service_processes p n)))
  unfolding get_local_service_processes is_local_service_process list_local_processes
  get_local_service_processes_iff n =
      (In-with_name n (values p), In-any_name n (of_type service (values p)))
