-- ===== src/History/Store/Renamed.antt =====
-- The rows of `files` after a renaming.
use daemon.Common.{
  ℕ, ◌<◌, ◌≡◌, refl, sym, ap, ◌∙◌, inl, inr, ◌⊎◌, true, false, none, List, [], ◌∷◌, map, All, arith,
  Bool-cases, String, str_eq, str_eq_iff,
}
use daemon.History.Table.{File, find_path}
use daemon.History.Store.Valid.{AreFiles, has_file}
use daemon.History.Store.{rename}

All-renamed :
    (P Q : File → Type 0) (h : File → File) (fs : List File)
    → ((f : File) → P f → Q (h f))
    → All P fs
    → All Q (map h fs)
All-renamed P Q h [] go a = tt
All-renamed P Q h (f ∷ fs) go (a, rest) = (go f a, All-renamed P Q h fs go rest)

rename-id : (old new : String) (f : File) → (rename old new f).id ≡ f.id
rename-id old new f = ground arith

All-and :
    {A : Type 0} (P Q : A → Type 0) (xs : List A) → All P xs → All Q xs → All (λ x. P x × Q x) xs
All-and P Q [] h k = tt
All-and P Q (x ∷ xs) (h, hs) (k, ks) = ((h, k), All-and P Q xs hs ks)

-- Two paths of which at most one is renamed, to a path that neither is.
rename-apart :
    (old new : String) (f g : File)
    → str_eq g.path f.path ≡ false
    → str_eq g.path new ≡ false
    → str_eq f.path new ≡ false
    → str_eq (rename old new g).path (rename old new f).path ≡ false
rename-apart old new f g apart gn fn = ground (
  arith,
  apart,
  gn,
  fn,
  str_eq_iff g.path old,
  str_eq_iff f.path old,
  str_eq_iff g.path f.path,
  str_eq_iff new f.path,
  str_eq_iff f.path new,
)

pub AreFiles-rename :
    (old new : String) (fs : List File)
    → All (λ g. str_eq g.path new ≡ false) fs
    → AreFiles fs
    → AreFiles (map (rename old new) fs)
AreFiles-rename old new [] fresh h = tt
AreFiles-rename old new (f ∷ fs) (fn, fresh) (pos, lt, apart, h) = (
  rw (rename-id old new f) pos,
  All-renamed (λ g. g.id < f.id) (λ g. g.id < (rename old new f).id) (rename old new) fs
      (λ g k. rw (rename-id old new f, rename-id old new g) k) lt,
  All-renamed (λ g. (str_eq g.path f.path ≡ false) × (str_eq g.path new ≡ false))
      (λ g. str_eq g.path (rename old new f).path ≡ false) (rename old new) fs
      (λ g (k, gn). rename-apart old new f g k gn fn)
      (All-and (λ g. str_eq g.path f.path ≡ false) (λ g. str_eq g.path new ≡ false) fs apart fresh),
  AreFiles-rename old new fs fresh h,
)

pub has_file-rename :
    (old new : String) (fs : List File) (id : ℕ)
    → has_file fs id ≡ true
    → has_file (map (rename old new) fs) id ≡ true
has_file-rename old new [] id k = k
has_file-rename old new (f ∷ fs) id k =
    ground (arith, k, rename-id old new f, has_file-rename old new fs id)

-- Renaming a path that no file has, or to itself, changes nothing.
pub rename-none :
    (old new : String) (fs : List File)
    → (find_path old fs ≡ none) ⊎ (str_eq old new ≡ true)
    → map (rename old new) fs ≡ fs
rename-none old new [] (inl h) = refl
rename-none old new [] (inr h) = refl
rename-none old new (f ∷ fs) (inl unknown) =
    let other : (str_eq f.path old) ≡ false = ground (arith, unknown) in
    rw other (ap (λ l. f ∷ l) (rename-none old new fs (inl (ground (arith, unknown, other)))))
rename-none old new (f ∷ fs) (inr same) =
    let tail : map (rename old new) fs ≡ fs = rename-none old new fs (inr same) in
    elim (Bool-cases (str_eq f.path old)) [
      | inr other ↦ rw (other, tail) refl
      | inl own ↦
          let e : new ≡ f.path =
            sym ((str_eq_iff f.path old).0 own ∙ (str_eq_iff old new).0 same) in
          rw (own, tail) (ap (λ p. record f { path = p } ∷ fs) e)
    ]
