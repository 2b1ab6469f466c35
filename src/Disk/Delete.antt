-- ===== src/Disk/Delete.antt =====
-- The deletions of harness/disk.py: `_remove`, `delete`, `record`, `clear_incomplete` and `clean`.
use localharness.Prelude.{
  ℕ, ◌+◌, Bool, true, false, ◌&&◌, ◌||◌, not, Option, none, some, List, [], ◌∷◌, ◌++◌, String,
  str_eq, if◌then◌else◌,
}
use localharness.Text.{ends_with}
use localharness.Downloads.{
  Kind, Origin, Download, hub, gguf, scan, partial, live, removed, in_flight,
}
use localharness.Disk.{Group, Entry, Blob, Inventory, Files, rejected, inside, plan}

-- What a deletion reports of one path: the error, or what went. `partly` is a partial blob.
pub record Gone : Type 0 where
  pub path : String
  pub repo : String
  pub partly : Bool
  pub group : Group
  pub bytes : ℕ
  pub verdict_id : Option ℕ
  pub links : List String
  pub at : ℕ

pub data Report : Type 0 where
  failed : String → Report
  gone : Gone → Report

abbrev pub ok_of : List Report → List Gone
ok_of [] = []
ok_of (failed p ∷ rs) = ok_of rs
ok_of (gone g ∷ rs) = g ∷ ok_of rs

abbrev pub errors_of : List Report → List String
errors_of [] = []
errors_of (failed p ∷ rs) = p ∷ errors_of rs
errors_of (gone g ∷ rs) = errors_of rs

module _ {F : Type 0} (os : Files F) where
  -- Unlinks each path that passes the test, in order, and says which: none when one raises.
  unfoldable pub unlink_each :
      (F → String → Bool) → F → List String → List String → F × Option (List String)
  unlink_each test f done [] = (f, some done)
  unlink_each test f done (p ∷ ps) = elim (test f p) [
    | false ↦ unlink_each test f done ps
    | true ↦ elim (os.unlink f p) [
      | none ↦ (f, none)
      | some g ↦ unlink_each test g (done ++ p ∷ []) ps
    ]
  ]

  abbrev pub then_rmtree : String → F × Option (List String) → F × Option (List String)
  then_rmtree path (f, none) = (f, none)
  then_rmtree path (f, some done) =
      let left = os.rmtree f path in (left.0, if left.1 then none else some done)

  abbrev pub then_unlink : String → F × Option (List String) → F × Option (List String)
  then_unlink path (f, none) = (f, none)
  then_unlink path (f, some done) = elim (os.unlink f path) [
    | none ↦ (f, none)
    | some g ↦ (g, some done)
  ]

  abbrev pub remove_hub : F → String → List String → String → String → F × Option (List String)
  remove_hub f path links root ggufs =
      if os.is_symlink f path || not (inside os f path root)
      then (f, none)
      else then_rmtree path
          (unlink_each (λ g l. os.is_symlink g l && inside os g l ggufs) f [] links)

  abbrev pub remove_gguf : F → String → String → F × Option (List String)
  remove_gguf f path ggufs =
      let real = os.realpath f path in
      if not (inside os f path ggufs)
      then (f, none)
      else if os.is_symlink f path
      then then_unlink path (f, some [])
      else then_unlink path (
          unlink_each (λ g o. os.is_symlink g o && str_eq (os.realpath g o) real) f []
            (os.children f ggufs))

  abbrev pub remove_kind :
      Kind → F → String → List String → String → String → F × Option (List String)
  remove_kind hub f path links root ggufs = remove_hub f path links root ggufs
  remove_kind gguf f path links root ggufs = remove_gguf f path ggufs

  -- `_remove`: the files left, and the symlinks that went with the entry; none where it raises.
  unfoldable pub remove_ : F → Entry → String → String → F × Option (List String)
  remove_ f e root ggufs = remove_kind e.kind f e.path e.links root ggufs

  abbrev pub reported : Entry → F × Option (List String) → Report
  reported e (f, none) = failed e.path
  reported e (f, some links) = gone record {
    path = e.path;
    repo = e.repo;
    partly = false;
    group = e.group;
    bytes = e.size;
    verdict_id = e.verdict_id;
    links = links;
    at = os.time f;
  }

  -- The loop of `delete` over its plan.
  unfoldable pub delete_each : F → String → String → List Entry → F × List Report
  delete_each f root ggufs [] = (f, [])
  delete_each f root ggufs (e ∷ es) =
      let got = remove_ f e root ggufs in
      let rest = delete_each got.0 root ggufs es in (rest.0, reported e got ∷ rest.1)

-- The rows of `downloads`: the case of a text folded, this machine's id, a path's last part.
module _ (lower : String → String) (mine : ℕ) (name_of : String → String) where
  abbrev pub kind_of : String → Kind
  kind_of path = if ends_with (lower path) ".gguf" then gguf else hub

  abbrev pub origin_of : Gone → Origin
  origin_of g = if g.partly then partial else scan

  abbrev pub stamp_each : String → Gone → List String → List Download → List Download
  stamp_each source g [] rows = rows
  stamp_each source g (p ∷ ps) rows =
      stamp_each source g ps
        (removed lower mine g.at source g.repo (kind_of p) p (name_of p) (origin_of g)
          (if str_eq p g.path then g.bytes else 0) rows).1

  -- `record`, with a store.
  unfoldable pub record_gone : String → List Gone → List Download → List Download
  record_gone source [] rows = rows
  record_gone source (g ∷ gs) rows =
      record_gone source gs (stamp_each source g (g.path ∷ g.links) rows)

-- What `delete` and `clean` leave: the files, the reports and the rows.
pub record Deleted (F : Type 0) : Type 0 where
  pub files : F
  pub reports : List Report
  pub rows : List Download

pub record Cleaned (F : Type 0) : Type 0 where
  pub files : F
  pub rejected : List Gone
  pub incomplete : List Gone
  pub errors : List String
  pub bytes : ℕ
  pub rows : List Download

abbrev pub sum_bytes : List Gone → ℕ
sum_bytes [] = 0
sum_bytes (g ∷ gs) = g.bytes + sum_bytes gs

-- `_rows(conn).get(path)`: the newest live row of a path.
abbrev pub first_at : String → List Download → Option Download
first_at path [] = none
first_at path (d ∷ ds) = if str_eq d.path path then some d else first_at path ds

module _ {F : Type 0} (os : Files F) (lower : String → String) (mine : ℕ) where
  abbrev pub deleted : String → List Download → F × List Report → Deleted F
  deleted source rows got = record {
    files = got.0;
    reports = got.1;
    rows = record_gone lower mine os.name_of source (ok_of got.1) rows;
  }

  abbrev pub delete_when :
      List String → F → Inventory → ℕ → Group → String → List Download → Option (Deleted F)
  delete_when [] f inv now wanted source rows =
      some (deleted source rows (delete_each os f inv.hub inv.gguf (plan os f inv now wanted)))
  delete_when (_ ∷ _) f inv now wanted source rows = none

  -- `delete`, with a store: none is the RuntimeError of an inventory that is not complete.
  unfoldable pub delete : F → Inventory → ℕ → Group → String → List Download → Option (Deleted F)
  delete f inv now wanted source rows = delete_when inv.problems f inv now wanted source rows

  -- Whether `clear_incomplete` passes this blob over.
  abbrev pub is_spared : F → String → ℕ → String → Option Download → Bool
  is_spared f root now path none = true
  is_spared f root now path (some row) =
      in_flight row now || os.is_symlink f path || not (os.within root (os.realpath f path))

  abbrev pub cleared : Blob → String → ℕ → Gone
  cleared b repo at = record {
    path = b.path;
    repo = repo;
    partly = true;
    group = rejected;
    bytes = b.size;
    verdict_id = none;
    links = [];
    at = at;
  }

  abbrev pub repo_of : Option Download → String
  repo_of none = ""
  repo_of (some row) = row.repo

  -- The loop of `clear_incomplete`; `key` resolves a path as the rows store it.
  unfoldable pub clear_each :
      (F → String → String) → F → String → ℕ → List Download → List Blob → F × List Gone
  clear_each key f root now rows [] = (f, [])
  clear_each key f root now rows (b ∷ bs) =
      let row = first_at (key f b.dir) (live lower mine none none none rows) in
      elim (is_spared f root now b.path row) [
        | true ↦ clear_each key f root now rows bs
        | false ↦ elim (os.unlink f b.path) [
          | none ↦ clear_each key f root now rows bs
          | some g ↦
              let rest = clear_each key g root now rows bs in
              (rest.0, cleared b (repo_of row) (os.time g) ∷ rest.1)
        ]
      ]

  abbrev pub clean_after :
      (F → String → String) → Inventory → ℕ → Option (Deleted F) → Option (Cleaned F)
  clean_after key inv now none = none
  clean_after key inv now (some d) =
      let got = clear_each key d.files (os.realpath d.files inv.hub) now d.rows inv.incomplete in
      some record {
        files = got.0;
        rejected = ok_of d.reports;
        incomplete = got.1;
        errors = errors_of d.reports;
        bytes = sum_bytes (ok_of d.reports ++ got.1);
        rows = record_gone lower mine os.name_of "discover" got.1 d.rows;
      }

  unfoldable pub clean :
      (F → String → String) → F → Inventory → ℕ → List Download → Option (Cleaned F)
  clean key f inv now rows = clean_after key inv now (delete f inv now rejected "discover" rows)
