-- ===== src/Collab/Ot/Plain.antt =====
-- Lists of components as operations, an instance of the interface.
use daemon.Common.{
  ℕ, ◌+◌, ◌≡◌, refl, ◌∙◌, sym, ap, some, List, [], ◌∷◌, ◌++◌, take, drop, length, arith, inl, inr,
  ◌≤◌, Option-cases, take-append-drop, take-append, drop-append, length-append, length-take,
}
use mathlib.Core.List.{append_assoc, append-nil}
use daemon.Collab.Text.{Text}
use daemon.Collab.Ot.{Component, retain, insert, delete, Ot, run, build, Builds, Inverts}

unfoldable pub inverse : List Component → Text → List Component
inverse [] s = []
inverse (retain n ∷ cs) s = retain n ∷ inverse cs (drop n s)
inverse (insert t ∷ cs) s = delete (length t) ∷ inverse cs s
inverse (delete n ∷ cs) s = insert (take n s) ∷ inverse cs (drop n s)

-- The length of the text that components cover.
abbrev pub covered : List Component → ℕ
covered [] = 0
covered (retain n ∷ cs) = n + covered cs
covered (insert t ∷ cs) = covered cs
covered (delete n ∷ cs) = n + covered cs

-- `transform` is of no account here: the proofs ask nothing of it.
abbrev pub plain : Ot
plain = record {
  Op = List Component;
  empty = [];
  with_retain = λ op n. op ++ retain n ∷ [];
  with_insert = λ op t. op ++ insert t ∷ [];
  with_delete = λ op n. op ++ delete n ∷ [];
  ops = λ op. op;
  base_len = λ op. covered op;
  transform = λ a b. some (a, b);
  apply = run;
  invert = inverse;
}

build-plain : (op cs : List Component) → build plain op cs ≡ op ++ cs
build-plain op [] = sym (append-nil op)
build-plain op (retain n ∷ cs) =
    build-plain (op ++ retain n ∷ []) cs ∙ append_assoc op (retain n ∷ []) cs
build-plain op (insert t ∷ cs) =
    build-plain (op ++ insert t ∷ []) cs ∙ append_assoc op (insert t ∷ []) cs
build-plain op (delete n ∷ cs) =
    build-plain (op ++ delete n ∷ []) cs ∙ append_assoc op (delete n ∷ []) cs

pub plain-Builds : Builds plain
plain-Builds cs s = ap (λ op. run op s) (build-plain [] cs)

-- A run that returns a text, by its first component.
run-retain :
    (n : ℕ) (cs : List Component) (s t : Text)
    → run (retain n ∷ cs) s ≡ some t
    → (u : Text) × (n ≤ length s) × (run cs (drop n s) ≡ some u) × (t ≡ take n s ++ u)
unfolding run
run-retain n cs s t h = elim (Option-cases (run cs (drop n s))) [
  | inl e ↦ absurd (ground arith)
  | inr (u, e) ↦ (u, ground arith, e, ground arith)
]

run-insert :
    (x : Text) (cs : List Component) (s t : Text)
    → run (insert x ∷ cs) s ≡ some t
    → (u : Text) × (run cs s ≡ some u) × (t ≡ x ++ u)
unfolding run
run-insert x cs s t h = elim (Option-cases (run cs s)) [
  | inl e ↦ absurd (ground arith)
  | inr (u, e) ↦ (u, e, ground arith)
]

run-delete :
    (n : ℕ) (cs : List Component) (s t : Text)
    → run (delete n ∷ cs) s ≡ some t
    → (n ≤ length s) × (run cs (drop n s) ≡ some t)
unfolding run
run-delete n cs s t h = (ground arith, ground arith)

pub retain-run :
    (n : ℕ) (cs : List Component) (xs s t : Text)
    → length xs ≡ n
    → run cs s ≡ some t
    → run (retain n ∷ cs) (xs ++ s) ≡ some (xs ++ t)
unfolding run
retain-run n cs xs s t e h =
    ground (arith, take-append xs s n e, drop-append xs s n e, length-append xs s)

pub delete-run :
    (n : ℕ) (cs : List Component) (xs s t : Text)
    → length xs ≡ n
    → run cs s ≡ some t
    → run (delete n ∷ cs) (xs ++ s) ≡ some t
unfolding run
delete-run n cs xs s t e h = ground (arith, drop-append xs s n e, length-append xs s)

pub insert-run :
    (x : Text) (cs : List Component) (s t : Text)
    → run cs s ≡ some t
    → run (insert x ∷ cs) s ≡ some (x ++ t)
unfolding run
insert-run x cs s t h = rw h

run-nothing : (t : Text) → run [] [] ≡ some t → run [] t ≡ some []
unfolding run
run-nothing [] h = refl
run-nothing (r ∷ t) h = cc

run-too_long : (r : ℕ) (s t : Text) → ¬ (run [] (r ∷ s) ≡ some t)
unfolding run
run-too_long r s t h = cc

run-inverse : (cs : List Component) (s t : Text) → run cs s ≡ some t → run (inverse cs s) t ≡ some s
unfolding inverse
run-inverse [] [] t h = run-nothing t h
run-inverse [] (r ∷ s) t h = absurd (run-too_long r s t h)
run-inverse (retain n ∷ cs) s t h =
    let (u, le, e, same) = run-retain n cs s t h in
    rw same (
      retain-run n (inverse cs (drop n s)) (take n s) u (drop n s) (omega (arith, length-take n s))
        (run-inverse cs (drop n s) u e)
      ∙ ap some (take-append-drop n s))
run-inverse (insert x ∷ cs) s t h =
    let (u, e, same) = run-insert x cs s t h in
    rw same (delete-run (length x) (inverse cs s) x u s refl (run-inverse cs s u e))
run-inverse (delete n ∷ cs) s t h =
    let (le, e) = run-delete n cs s t h in
    insert-run (take n s) (inverse cs (drop n s)) t (drop n s) (run-inverse cs (drop n s) t e)
    ∙ ap some (take-append-drop n s)

pub plain-Inverts : Inverts plain
plain-Inverts op s t h = run-inverse op s t h
