-- ===== src/Collab/Ot.antt =====
-- What router/websocket/betterfiles_collaboration_ot.go uses of the package
-- operational-transformation-go, and the documented meaning of its operations.
pub mod Plain
use daemon.Common.{
  ℕ, ◌≡◌, Bool, true, false, Option, none, some, List, [], ◌∷◌, ◌++◌, take, drop, length, leb,
  if◌then◌else◌,
}
use mathlib.Core.Option
use daemon.Collab.Text.{Text}

-- The components that `Ops` lists.
pub data Component : Type 0 where
  retain : ℕ → Component
  insert : Text → Component
  delete : ℕ → Component

-- An error is `none`. `with_retain op n` is `op` after the call `op.Retain(n)`; so for the others.
pub record Ot : Type 1 where
  pub Op : Type 0
  pub empty : Op
  pub with_retain : Op → ℕ → Op
  pub with_insert : Op → Text → Op
  pub with_delete : Op → ℕ → Op
  pub ops : Op → List Component
  pub base_len : Op → ℕ
  pub transform : Op → Op → Option (Op × Op)
  pub apply : Op → Text → Option Text
  pub invert : Op → Text → Op

abbrev pub prepend : Text → Option Text → Option Text
prepend s none = none
prepend s (some t) = some (s ++ t)

-- The meaning of components on a text of exactly the length that they cover.
unfoldable pub run : List Component → Text → Option Text
run [] [] = some []
run [] (r ∷ s) = none
run (retain n ∷ cs) s =
    let rest = run cs (drop n s) in if leb n (length s) then prepend (take n s) rest else none
run (insert t ∷ cs) s = prepend t (run cs s)
run (delete n ∷ cs) s = let rest = run cs (drop n s) in if leb n (length s) then rest else none

module _ (ot : Ot) where
  open ot use {Op, empty, with_retain, with_insert, with_delete, apply, invert}

  -- The builder calls for components, in their order.
  abbrev pub build : Op → List Component → Op
  build op [] = op
  build op (retain n ∷ cs) = build (with_retain op n) cs
  build op (insert t ∷ cs) = build (with_insert op t) cs
  build op (delete n ∷ cs) = build (with_delete op n) cs

  -- `Apply` of a built operation does what the builder calls say.
  abbrev pub Builds : Type 0
  Builds = (cs : List Component) (s : Text) → apply (build empty cs) s ≡ run cs s

  -- `Invert` undoes an application.
  abbrev pub Inverts : Type 0
  Inverts = (op : Op) (s t : Text) → apply op s ≡ some t → apply (invert op s) t ≡ some s
