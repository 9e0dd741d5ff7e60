-- ===== src/Server/Operations/Lifecycle.antt =====
-- The operations of a server from their start to their result, under any interleaving.
use daemon.Common.{
  ℕ, ◌+◌, ◌≤◌, ◌≡◌, refl, sym, ap, ◌∙◌, inl, inr, true, Option, some, List, [], ◌∷◌, ◌++◌, length,
  arith, String, str_eq, str_eq_iff, if◌then◌else◌, ok, Bool-cases,
}
use daemon.Server.Operations.{
  FileOperation, Manager, Outcome, max_file_operations, remove, find, start, finish, outcome,
  update, cancel, cancel_all,
}
use daemon.Server.Operations.Active.{
  Change, change, active_of, length-remove, active_of-remove, change_identifier, active_of-update,
  length-update, active_of-request_all, length-request_all, find_identifier, active_of-find,
  length-cancel, active_of-cancel, start_steps,
}

-- The manager with the identifiers it has given out, the results of the operations that are deleted
-- and have not sent them yet, and the results that were sent.
pub record Service (E : Type 0) : Type 0 where
  pub manager : Manager
  pub started : List String
  pub ending : List (String × Outcome E)
  pub results : List (String × Outcome E)

-- How often an identifier was given out, is active, and has a result.
abbrev pub starts_of : String → List String → ℕ
starts_of id [] = 0
starts_of id (x ∷ xs) = (if str_eq id x then 1 else 0) + starts_of id xs

abbrev pub results_of : {E : Type 0} → String → List (String × Outcome E) → ℕ
results_of id [] = 0
results_of id (r ∷ rs) = (if str_eq id r.0 then 1 else 0) + results_of id rs

-- An identifier that `uuid` gives is new.
pub data Step {E : Type 0} (s : Service E) : Service E → Type 0 where
  starts :
      (id typ : String) (now : ℕ) (m : Manager) (o : FileOperation)
      → starts_of id s.started ≡ 0
      → start s.manager id typ now ≡ (m, ok o)
      → Step s (record s { manager = m; started = id ∷ s.started })
  changes :
      (id : String) (c : Change)
      → Step s (record s {
        manager = record s.manager { operations = update (change c) id s.manager.operations };
      })
  cancels : (id : String) → Step s (record s { manager = (cancel s.manager id).0 })
  cancels_all : Step s (record s { manager = cancel_all s.manager })
  finishes :
      (id : String) (o : FileOperation) (e : Option E)
      → find id s.manager.operations ≡ some o
      → Step s (record s {
        manager = (finish s.manager o).0;
        ending = (id, outcome (finish s.manager o).1 e) ∷ s.ending;
      })
  sends :
      (before after : List (String × Outcome E)) (r : String × Outcome E)
      → s.ending ≡ before ++ r ∷ after
      → Step s (record s { ending = before ++ after; results = r ∷ s.results })

pub data Reach {E : Type 0} (s : Service E) : Service E → Type 0 where
  here : Reach s s
  next : {t u : Service E} → Reach s t → Step t u → Reach s u

-- At most 64 operations are active; an identifier was given out at most once, and since then it
-- either is active, or is about to send its one result, or has sent it.
pub record IsTracked {E : Type 0} (s : Service E) : Type 0 where
  pub limited : length s.manager.operations ≤ max_file_operations
  pub once : (id : String) → starts_of id s.started ≤ 1
  pub tracked :
      (id : String)
      → starts_of id s.started
        ≡ active_of id s.manager.operations + (results_of id s.ending + results_of id s.results)

results_of-append :
    {E : Type 0} (id : String) (xs ys : List (String × Outcome E))
    → results_of id (xs ++ ys) ≡ results_of id xs + results_of id ys
results_of-append id [] ys = omega arith
results_of-append id (x ∷ xs) ys = omega (arith, results_of-append id xs ys)

-- An identifier that passes the same test was given out as often.
same_starts :
    (j id : String) (xs : List String) → str_eq j id ≡ true → starts_of j xs ≡ starts_of id xs
same_starts j id xs h = ap (λ k. starts_of k xs) ((str_eq_iff j id).0 h)

pub finish_operations :
    (m : Manager) (o : FileOperation) → (finish m o).0.operations ≡ remove o.identifier m.operations
unfolding finish
finish_operations m o = refl

pub Step-IsTracked : {E : Type 0} {s t : Service E} → Step s t → IsTracked s → IsTracked t
Step-IsTracked {s} (starts id typ now m o fresh h) v =
    let (room, same) = start_steps s.manager id typ now m o h in
    record {
      limited = rw same (omega (arith, room, length-remove id s.manager.operations));
      once = λ j. ground (arith, fresh, v.once j, same_starts j id s.started);
      tracked = λ j. elim (Bool-cases (str_eq j id)) [
        | inl wanted ↦ rw same (
            ground (
              arith,
              wanted,
              fresh,
              v.tracked j,
              same_starts j id s.started wanted,
              active_of-remove j id s.manager.operations,
            ))
        | inr apart ↦
            rw same (ground (arith, apart, v.tracked j, active_of-remove j id s.manager.operations))
      ];
    }
Step-IsTracked {s} (changes id c) v = record {
  limited = omega (arith, v.limited, length-update (change c) id s.manager.operations);
  once = v.once;
  tracked = λ j.
      v.tracked j
      ∙ ap (λ n. n + (results_of j s.ending + results_of j s.results))
          (sym (active_of-update (change c) (change_identifier c) j id s.manager.operations));
}
Step-IsTracked {s} (cancels id) v = record {
  limited = omega (arith, v.limited, length-cancel s.manager id);
  once = v.once;
  tracked = λ j.
      v.tracked j
      ∙ ap (λ n. n + (results_of j s.ending + results_of j s.results))
          (sym (active_of-cancel j id s.manager));
}
Step-IsTracked {s} cancels_all v = record {
  limited = unfold cancel_all in omega (arith, v.limited, length-request_all s.manager.operations);
  once = v.once;
  tracked = λ j.
      v.tracked j
      ∙ ap (λ n. n + (results_of j s.ending + results_of j s.results))
          (unfold cancel_all in sym (active_of-request_all j s.manager.operations));
}
Step-IsTracked {s} (finishes id o e h) v = record {
  limited =
      unfold finish in omega (arith, v.limited, length-remove o.identifier s.manager.operations);
  once = v.once;
  tracked = λ j. elim (Bool-cases (str_eq j id)) [
    | inl wanted ↦
        let one = active_of-find id s.manager.operations o h in
        let own = ap (λ k. active_of k s.manager.operations) ((str_eq_iff j id).0 wanted) in
        rw (finish_operations s.manager o, sym (find_identifier id s.manager.operations o h))
          (ground (
            arith,
            wanted,
            v.once j,
            v.tracked j,
            own,
            one,
            active_of-remove j id s.manager.operations,
          ))
    | inr apart ↦
        rw (finish_operations s.manager o, sym (find_identifier id s.manager.operations o h))
          (ground (arith, apart, v.tracked j, active_of-remove j id s.manager.operations))
  ];
}
Step-IsTracked {s} (sends before after r h) v = record {
  limited = v.limited;
  once = v.once;
  tracked = λ j.
      let moved = ap (results_of j) h ∙ results_of-append j before (r ∷ after) in
      omega (arith, v.tracked j, moved, results_of-append j before after);
}

-- From a service where this holds, and through any interleaving of starts, progress,
-- cancellations, ends and sendings of results, under identifiers that are new: at most 64
-- operations are active, and each identifier was given out at most once, and then either is
-- active, or is about to send its one result, or has received exactly this one.
pub Reach-IsTracked : {E : Type 0} {s t : Service E} → IsTracked s → Reach s t → IsTracked t
Reach-IsTracked v here = v
Reach-IsTracked v (next r st) = Step-IsTracked st (Reach-IsTracked v r)
