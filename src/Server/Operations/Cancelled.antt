-- ===== src/Server/Operations/Cancelled.antt =====
-- What a cancelled operation ends with.
use mathlib.Core.List.{Memᴰ}
use mathlib.Core.Path.{subst}
use daemon.Common.{
  ◌≡◌, refl, sym, ap, ◌∙◌, ◌⊎◌, inl, inr, true, false, Option, List, [], ◌∷◌, ◌++◌, arith, String,
  str_eq, str_eq_iff, Bool-cases,
}
use daemon.Server.Operations.{
  FileOperation, Manager, canceled, find, new_operation, finish, outcome, cancel, cancel_all,
}
use daemon.Server.Operations.Active.{
  change, change_identifier, active_of-find, find_identifier, start_steps,
}
use daemon.Server.Operations.Lifecycle.{
  Service, Step, Reach, IsTracked, Step-IsTracked, starts, changes, cancels, cancels_all, finishes,
  sends, here, next, starts_of, finish_operations,
}
use daemon.Server.Operations.Flagged.{
  Flagged, find-remove, Flagged-update, Flagged-request_all, change_cancelled, Flagged-cancel,
  Flagged-start, cancel_flags,
}

-- The operation is still active and cancelled, or its result, to be sent or sent, says that it was.
abbrev pub IsCancelled : {E : Type 0} → String → Service E → Type 0
IsCancelled id s =
    Flagged id s.manager.operations ⊎ (Memᴰ (id, canceled) s.ending ⊎ Memᴰ (id, canceled) s.results)

-- An identifier that is active was given out.
apart_of_fresh :
    {E : Type 0} (s : Service E) (id j : String)
    → IsTracked s
    → Flagged id s.manager.operations
    → starts_of j s.started ≡ 0
    → str_eq id j ≡ false
apart_of_fresh s id j v (o, e, c) fresh = elim (Bool-cases (str_eq id j)) [
  | inr apart ↦ apart
  | inl same ↦
      let given = ap (λ k. starts_of k s.started) ((str_eq_iff id j).0 same) in
      absurd (omega (arith, v.tracked id, active_of-find id s.manager.operations o e, given, fresh))
]

canceled_outcome :
    {E : Type 0} (m : Manager) (o : FileOperation) (e : Option E)
    → o.cancelled ≡ true
    → outcome (finish m o).1 e ≡ canceled
unfolding finish outcome
canceled_outcome m o e h = rw h

-- An element of a list of which one is taken out.
taken_out {ℓ} :
    {A : Type ℓ} (x r : A) (before after : List A)
    → Memᴰ x (before ++ r ∷ after)
    → (x ≡ r) ⊎ Memᴰ x (before ++ after)
taken_out x r [] after (Memᴰ.head e) = inl e
taken_out x r [] after (Memᴰ.tail m) = inr m
taken_out x r (y ∷ before) after (Memᴰ.head e) = inr (Memᴰ.head e)
taken_out x r (y ∷ before) after (Memᴰ.tail m) = elim (taken_out x r before after m) [
  | inl e ↦ inl e
  | inr rest ↦ inr (Memᴰ.tail rest)
]

Step-IsCancelled :
    {E : Type 0} (id : String) {s t : Service E}
    → Step s t
    → IsTracked s
    → IsCancelled id s
    → IsCancelled id t
Step-IsCancelled id {s} (starts j typ now m o fresh h) v (inr r) = inr r
Step-IsCancelled id {s} (starts j typ now m o fresh h) v (inl f) =
    let (_, same) = start_steps s.manager j typ now m o h in
    inl (
      rw same (
        Flagged-start id j (new_operation s.manager.server j typ now) s.manager.operations refl
          (apart_of_fresh s id j v f fresh) f))
Step-IsCancelled id {s} (changes j c) v (inr r) = inr r
Step-IsCancelled id {s} (changes j c) v (inl f) = inl (
    Flagged-update (change c) (change_identifier c) (change_cancelled c) id j s.manager.operations
      f)
Step-IsCancelled id {s} (cancels j) v (inr r) = inr r
Step-IsCancelled id {s} (cancels j) v (inl f) = inl (Flagged-cancel id j s.manager f)
Step-IsCancelled id {s} cancels_all v (inr r) = inr r
Step-IsCancelled id {s} cancels_all v (inl f) =
    inl (unfold cancel_all in Flagged-request_all id s.manager.operations f)
Step-IsCancelled id {s} (finishes j o e h) v (inr (inl r)) = inr (inl (Memᴰ.tail r))
Step-IsCancelled id {s} (finishes j o e h) v (inr (inr r)) = inr (inr r)
Step-IsCancelled id {s} (finishes j o e h) v (inl (x, g, c)) = elim (Bool-cases (str_eq id j)) [
  | inl same ↦
      let own = (str_eq_iff id j).0 same in
      let found : x ≡ o = ground (arith, sym g ∙ ap (λ k. find k s.manager.operations) own ∙ h) in
      let ends = canceled_outcome s.manager o e (sym (ap (λ y. y.cancelled) found) ∙ c) in
      inr (inl (Memᴰ.head (cc (own, ends))))
  | inr apart ↦
      let own = find_identifier j s.manager.operations o h in
      inl (
        x,
        rw (finish_operations s.manager o, sym own)
            (find-remove id j s.manager.operations apart ∙ g),
        c,
      )
]
Step-IsCancelled id (sends before after r h) v (inl f) = inl f
Step-IsCancelled id (sends before after r h) v (inr (inr m)) = inr (inr (Memᴰ.tail m))
Step-IsCancelled id (sends before after r h) v (inr (inl m)) =
    elim (taken_out (id, canceled) r before after (subst (Memᴰ (id, canceled)) h m)) [
      | inl e ↦ inr (inr (Memᴰ.head e))
      | inr rest ↦ inr (inl rest)
    ]

Reach-IsCancelled :
    {E : Type 0} (id : String) {s t : Service E}
    → Reach s t
    → IsTracked s
    → IsCancelled id s
    → IsTracked t × IsCancelled id t
Reach-IsCancelled id here v c = (v, c)
Reach-IsCancelled id (next r st) v c =
    let (w, d) = Reach-IsCancelled id r v c in (Step-IsTracked st w, Step-IsCancelled id st w d)

-- In a service that is tracked, once `Cancel` has returned true, and whatever comes after under
-- identifiers that are new, the operation is active and cancelled until it is deleted, and the
-- result that it is then about to send, and sends, says that it was cancelled.
pub cancel-IsCancelled :
    {E : Type 0} {s t : Service E}
    → IsTracked s
    → (id : String) → (cancel s.manager id).1 ≡ true
    → Reach (record s { manager = (cancel s.manager id).0 }) t
    → IsCancelled id t
cancel-IsCancelled {s} v id h r =
    (Reach-IsCancelled id r (Step-IsTracked (cancels id) v) (inl (cancel_flags s.manager id h))).1
