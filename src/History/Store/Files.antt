-- ===== src/History/Store/Files.antt =====
-- `deleteFile` and `renameFile` of server/file_history.go, and the invariant.
use mathlib.Core.Path.{subst}
use daemon.Common.{
  ℕ, ◌<◌, ◌≡◌, refl, sym, ap, inl, inr, Bool, true, false, not, none, some, List, [], ◌∷◌, keep,
  map, All, arith, ◌==◌, Bool-cases, Option-cases, ok, String, str_eq, str_eq_iff,
}
use daemon.History.Table.{Row, File, Tables, find_path, delete_rows}
use daemon.History.Table.Chains.{All-keep}
use daemon.History.Replay.{Codec}
use daemon.History.Store.Sound.{AreSound-keep_chains}
use daemon.History.Store.Valid.{AreFiles, has_file, All-map, find_path-apart, IsValid}
use daemon.History.Store.Renamed.{AreFiles-rename, has_file-rename, rename-none}
use daemon.History.Store.{delete_file, rename, rename_file}

AreFiles-keep : (q : File → Bool) (fs : List File) → AreFiles fs → AreFiles (keep q fs)
AreFiles-keep q [] h = tt
AreFiles-keep q (f ∷ fs) (pos, lt, apart, h) = elim (Bool-cases (q f)) [
  | inl kept ↦ rw kept (
    pos,
    All-keep (λ g. g.id < f.id) q fs lt,
    All-keep (λ g. str_eq g.path f.path ≡ false) q fs apart,
    AreFiles-keep q fs h,
  )
  | inr gone ↦ rw gone (AreFiles-keep q fs h)
]

keep-apart :
    (path : String) (fs : List File)
    → All (λ g. str_eq g.path path ≡ false) fs
    → keep (λ g. not (str_eq g.path path)) fs ≡ fs
keep-apart path [] h = refl
keep-apart path (f ∷ fs) (h, hs) = rw h (ap (λ l. f ∷ l) (keep-apart path fs hs))

-- Without the row of a path, the ids of the others are found.
has_file-keep :
    (path : String) (fs : List File) (f : File) (id : ℕ)
    → AreFiles fs
    → find_path path fs ≡ some f
    → (id == f.id) ≡ false
    → has_file fs id ≡ true
    → has_file (keep (λ g. not (str_eq g.path path)) fs) id ≡ true
has_file-keep path [] f id h e other k = absurd cc
has_file-keep path (g ∷ fs) f id (pos, lt, apart, h) e other k =
    elim (Bool-cases (str_eq g.path path)) [
      | inl own ↦
          let same : g.path ≡ path = (str_eq_iff g.path path).0 own in
          let rest : keep (λ g. not (str_eq g.path path)) fs ≡ fs =
            keep-apart path fs (subst (λ x. All (λ g. str_eq g.path x ≡ false) fs) same apart) in
          let gone : g ≡ f = ground (arith, own, e) in
          let other_row : (g.id == id) ≡ false =
            ground (arith, other, ap (λ (x : File). x.id) gone) in
          rw (own, rest) (ground (arith, other_row, k))
      | inr away ↦ ground (arith, k, away, e, other, has_file-keep path fs f id h)
    ]

-- The revisions of the other files have their files still.
kept_owned :
    (path : String) (t : Tables) (f : File)
    → AreFiles t.files
    → find_path path t.files ≡ some f
    → (rows : List Row) → All (λ r. has_file t.files r.file_id ≡ true) rows
    → All
        (λ r. has_file (keep (λ g. not (str_eq g.path path)) t.files) r.file_id ≡ true)
        (delete_rows (λ r. r.file_id == f.id) rows)
kept_owned path t f h found [] _ = tt
kept_owned path t f h found (r ∷ rs) (k, ks) = elim (Bool-cases (r.file_id == f.id)) [
  | inl gone ↦ rw gone (kept_owned path t f h found rs ks)
  | inr other ↦
      rw other
        (has_file-keep path t.files f r.file_id h found other k, kept_owned path t f h found rs ks)
]

module _ (c : Codec) where
  pub delete_file-IsValid :
      (path : String) (t : Tables) → IsValid c t → IsValid c (delete_file path t)
  unfolding delete_file
  delete_file-IsValid path t v = elim (Option-cases (find_path path t.files)) [
    | inl unknown ↦ rw (delete_file, unknown) v
    | inr (f, found) ↦
        let p : ℕ → ℕ → Bool = λ x y. not (x == f.id) in
        rw (delete_file, found)
          (record {
            sound = AreSound-keep_chains c p t.revisions v.sound;
            files = AreFiles-keep (λ g. not (str_eq g.path path)) t.files v.files;
            owned = kept_owned path t f v.files found t.revisions v.owned;
          })
  ]

  same_files :
      (t : Tables) {files : List File}
      → files ≡ t.files
      → IsValid c t
      → IsValid c (record t { files = files })
  same_files t e v = record {
    sound = v.sound;
    files = subst AreFiles (sym e) v.files;
    owned = subst (λ l. All (λ r. has_file l r.file_id ≡ true) t.revisions) (sym e) v.owned;
  }

  renamed :
      (old new : String) (t : Tables)
      → find_path new t.files ≡ none
      → IsValid c t
      → IsValid c (record t { files = map (rename old new) t.files })
  renamed old new t fresh v = record {
    sound = v.sound;
    files = AreFiles-rename old new t.files (find_path-apart new t.files fresh) v.files;
    owned =
        All-map (λ r. has_file t.files r.file_id ≡ true)
          (λ r. has_file (map (rename old new) t.files) r.file_id ≡ true) t.revisions
          (λ r k. has_file-rename old new t.files r.file_id k) v.owned;
  }

  pub rename_file-IsValid :
      (old new : String) (t t' : Tables)
      → IsValid c t
      → rename_file old new t ≡ ok t'
      → IsValid c t'
  unfolding rename_file
  rename_file-IsValid old new t t' v e = elim (Option-cases (find_path old t.files)) [
    | inl unknown ↦
        let same : record t { files = map (rename old new) t.files } ≡ t' =
          ground (arith, unknown, e) in
        subst (IsValid c) same (same_files t (rename-none old new t.files (inl unknown)) v)
    | inr (f, found) ↦ elim (Bool-cases (str_eq old new)) [
      | inl one ↦
          let same : record t { files = map (rename old new) t.files } ≡ t' =
            ground (arith, one, e) in
          subst (IsValid c) same (same_files t (rename-none old new t.files (inr one)) v)
      | inr two ↦ elim (Option-cases (find_path new t.files)) [
        | inr (g, taken) ↦ absurd (ground (arith, found, two, taken, e))
        | inl fresh ↦
            let same : record t { files = map (rename old new) t.files } ≡ t' =
              ground (arith, found, fresh, two, e) in
            subst (IsValid c) same (renamed old new t fresh v)
      ]
    ]
  ]
