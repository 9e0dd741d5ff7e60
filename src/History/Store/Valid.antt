-- ===== src/History/Store/Valid.antt =====
-- The invariant of the tables of server/file_history.go, and what keeps it.
use mathlib.Core.Path.{subst}
use daemon.Common.{
  ℕ, suc, ◌≤◌, ◌<◌, ◌≡◌, refl, sym, ap, ◌∙◌, inl, inr, Bool, true, false, none, some, List, [], ◌∷◌,
  All, arith, ==_refl, Bool-cases, Option-cases, ok, is_some, String, str_eq, str_eq_iff,
}
use daemon.History.Table.{
  Bytes, same_bytes, Row, File, Tables, find_row, find_path, find_file, upsert_file, max_file_id,
}
use daemon.History.Table.Chains.{find_row-All}
use daemon.History.Replay.{Codec, IsLossless, Distinguishes, max_steps}
use daemon.History.Replay.Holds.{reconstruct-Holds}
use daemon.History.Store.Sound.{AreSound, reconstruct-AreSound}
use daemon.History.Store.Recorded.{record_in-IsRecorded}
use daemon.History.Prune.{HistoryConfig}
use daemon.History.Store.{content, record_in, record_revision}

-- Rows of files have ids that are not 0 and that grow, and no two have one path.
abbrev pub AreFiles : List File → Type 0
AreFiles [] = Unit {0}
AreFiles (f ∷ fs) =
    (0 < f.id)
    × All (λ g. g.id < f.id) fs
    × All (λ g. str_eq g.path f.path ≡ false) fs
    × AreFiles fs

-- Whether a row of `files` has the id.
abbrev pub has_file : List File → ℕ → Bool
has_file files id = is_some (find_file id files)

pub All-map :
    {A : Type 0} (P Q : A → Type 0) (xs : List A) → ((x : A) → P x → Q x) → All P xs → All Q xs
All-map P Q [] f h = tt
All-map P Q (x ∷ xs) f (h, hs) = (f x h, All-map P Q xs f hs)

find_path-file :
    (path : String) (fs : List File) (f : File) → find_path path fs ≡ some f → f.path ≡ path
find_path-file path [] f e = absurd cc
find_path-file path (g ∷ fs) f e =
    ground (arith, e, str_eq_iff g.path path, find_path-file path fs f)

find_path-lt :
    (n : ℕ) (path : String) (fs : List File) (f : File)
    → All (λ g. g.id < n) fs
    → find_path path fs ≡ some f
    → f.id < n
find_path-lt n path [] f h e = absurd cc
find_path-lt n path (g ∷ fs) f (h, hs) e = ground (arith, h, e, find_path-lt n path fs f hs)

-- The row that a path finds is the row that its id finds.
find_file-path :
    (path : String) (fs : List File) (f : File)
    → AreFiles fs
    → find_path path fs ≡ some f
    → find_file f.id fs ≡ some f
find_file-path path [] f h e = absurd cc
find_file-path path (g ∷ fs) f (pos, lt, apart, h) e =
    ground (arith, e, find_path-lt g.id path fs f lt, find_file-path path fs f h)

pub find_path-apart :
    (path : String) (fs : List File)
    → find_path path fs ≡ none
    → All (λ g. str_eq g.path path ≡ false) fs
find_path-apart path [] e = tt
find_path-apart path (g ∷ fs) e = (ground (arith, e), find_path-apart path fs (ground (arith, e)))

All-max_file_id : (fs : List File) (n : ℕ) → max_file_id fs < n → All (λ g. g.id < n) fs
All-max_file_id [] n h = tt
All-max_file_id (g ∷ fs) n h = (omega arith, All-max_file_id fs n (omega arith))

-- What an upsert gives: sound rows, and the row of the path under the id.
pub record IsUpserted (path : String) (t t' : Tables) (file : ℕ) : Type 0 where
  pub row : File
  pub found : find_file file t'.files ≡ some row
  pub of_path : row.path ≡ path
  pub files : AreFiles t'.files
  pub revisions : t'.revisions ≡ t.revisions
  pub known : (id : ℕ) → has_file t.files id ≡ true → has_file t'.files id ≡ true

upsert_file-IsUpserted :
    (path : String) (t : Tables)
    → AreFiles t.files
    → IsUpserted path t (upsert_file path t).0 (upsert_file path t).1
unfolding upsert_file
upsert_file-IsUpserted path t h = elim (Option-cases (find_path path t.files)) [
  | inr (f, found) ↦
      rw (upsert_file, found)
        (record {
          row = f;
          found = find_file-path path t.files f h found;
          of_path = find_path-file path t.files f found;
          files = h;
          revisions = refl;
          known = λ id k. k;
        })
  | inl unknown ↦
      let n = suc (max_file_id t.files) in
      let f : File = record { id = n; path = path } in
      rw (upsert_file, unknown)
        (record {
          row = f;
          found = rw (==_refl n) refl;
          of_path = refl;
          files = (
            omega arith,
            All-max_file_id t.files n (omega arith),
            find_path-apart path t.files unknown,
            h,
          );
          revisions = refl;
          known = λ id k. ground (arith, k);
        })
]

module _ (c : Codec) where
  -- Every revision can be read, and is of a file.
  pub record IsValid (t : Tables) : Type 0 where
    pub sound : AreSound c t.revisions
    pub files : AreFiles t.files
    pub owned : All (λ r. has_file t.files r.file_id ≡ true) t.revisions

  -- A revision of tables that a file, which they have, was recorded in.
  record_in-upserted :
      IsLossless c
      → Distinguishes c
      → (cfg : HistoryConfig) (t u : Tables) (path : String) (file : ℕ) (before after : Bytes)
        (user : String) (now : ℕ) (t' : Tables) (id : ℕ)
      → cfg.anchor_interval ≤ max_steps
      → IsValid t
      → IsUpserted path t u file
      → record_in c cfg u file before after user now ≡ ok (t', id)
      → (content c t' id ≡ ok (after, path)) × IsValid t'
  unfolding content
  record_in-upserted lossless distinct cfg t u path file before after user now t' id le v up e =
      let (same_files, r) =
        record_in-IsRecorded c lossless distinct cfg u file before after user now t' id le
          (subst (AreSound c) (sym up.revisions) v.sound) e in
      let file_found : find_file r.row.file_id t'.files ≡ some up.row =
        ap (λ l. find_file r.row.file_id l) same_files
        ∙ ap (λ n. find_file n u.files) r.of_file
        ∙ up.found in
      let back = reconstruct-Holds c t'.revisions r.holds (omega arith) in
      (
        ground (arith, back, r.found, file_found, up.of_path),
        record {
          sound = r.sound;
          files = subst AreFiles (sym same_files) up.files;
          owned =
              subst (λ l. All (λ s. has_file l s.file_id ≡ true) t'.revisions) (sym same_files)
                (r.owned (has_file u.files) (ap is_some up.found) (
                  subst (All (λ s. has_file u.files s.file_id ≡ true)) (sym up.revisions) (
                    All-map (λ r. has_file t.files r.file_id ≡ true)
                      (λ r. has_file u.files r.file_id ≡ true) t.revisions (λ r. up.known r.file_id)
                      v.owned)));
        },
      )

  -- Where the codec gives back what it encoded and hashes tell contents apart, with an anchor
  -- interval of at most 1000 and in valid tables: when `record` of two different contents returns
  -- an id, this id reads back as the new content and the path of the file.
  pub content-record_revision :
      IsLossless c
      → Distinguishes c
      → (cfg : HistoryConfig) (t : Tables) (path : String) (before after : Bytes) (user : String)
        (now : ℕ) (t' : Tables) (id : ℕ)
      → cfg.anchor_interval ≤ max_steps
      → IsValid t
      → same_bytes before after ≡ false
      → record_revision c cfg t path before after user now ≡ ok (t', id)
      → content c t' id ≡ ok (after, path)
  unfolding record_revision
  content-record_revision lossless distinct cfg t path before after user now t' id le v differ e =
      (record_in-upserted lossless distinct cfg t (upsert_file path t).0 path (upsert_file path t).1
        before after user now t' id le v (upsert_file-IsUpserted path t v.files)
        (ground (arith, differ, e))).0

  -- Where the codec gives back what it encoded and hashes tell contents apart, and with an anchor
  -- interval of at most 1000, `record` leaves valid tables valid when it returns an id.
  pub record_revision-IsValid :
      IsLossless c
      → Distinguishes c
      → (cfg : HistoryConfig) (t : Tables) (path : String) (before after : Bytes) (user : String)
        (now : ℕ) (t' : Tables) (id : ℕ)
      → cfg.anchor_interval ≤ max_steps
      → IsValid t
      → record_revision c cfg t path before after user now ≡ ok (t', id)
      → IsValid t'
  unfolding record_revision
  record_revision-IsValid lossless distinct cfg t path before after user now t' id le v e =
      elim (Bool-cases (same_bytes before after)) [
        | inl same ↦ let unchanged : t ≡ t' = ground (arith, same, e) in subst IsValid unchanged v
        | inr differ ↦
            (record_in-upserted lossless distinct cfg t (upsert_file path t).0 path
              (upsert_file path t).1 before after user now t' id le v
              (upsert_file-IsUpserted path t v.files) (ground (arith, differ, e))).1
      ]

  -- Every revision can be read, with the path of a file.
  pub content-IsValid :
      (t : Tables) (id : ℕ) (r : Row)
      → IsValid t
      → find_row id t.revisions ≡ some r
      → (bytes : Bytes) × (path : String) × (content c t id ≡ ok (bytes, path))
        × (c.hash bytes ≡ r.content_hash)
  unfolding content
  content-IsValid t id r v found =
      let (bytes, back, hash) = reconstruct-AreSound c id t.revisions r v.sound found in
      elim (Option-cases (find_file r.file_id t.files)) [
        | inl orphan ↦ absurd (
            ground (
              arith,
              orphan,
              find_row-All (λ r. has_file t.files r.file_id ≡ true) id t.revisions r v.owned found,
            ))
        | inr (f, of_file) ↦ (bytes, f.path, ground (arith, back, found, of_file), hash)
      ]
