-- ===== src/Downloads.antt =====
-- harness/downloads.py: the rows for weights on disk, from a download's start to its removal. The
-- paths are given as `key` resolves them; what is on disk is a parameter.
mod Rows
pub mod Life
pub mod Examples
use localharness.Prelude.{
  ℕ, zero, suc, ◌+◌, ◌-◌, Bool, true, false, ◌&&◌, ◌||◌, not, Option, none, some, is_none, List, [],
  ◌∷◌, ◌++◌, map, String, ltb, leb, ◌==◌, str_eq, if◌then◌else◌, or_else,
}
use localharness.Table.{max_id, find_row, update_row, select, is_any, update_where}
unfoldable pub use Rows.*

abbrev pub restarted : ℕ → Download → Download
restarted now d = record {
  id = d.id;
  repo = d.repo;
  kind = d.kind;
  path = d.path;
  file = d.file;
  origin = d.origin;
  source = d.source;
  bytes = d.bytes;
  files = d.files;
  complete = false;
  requires = d.requires;
  machine_id = d.machine_id;
  started_at = some now;
  finished_at = none;
  removed_at = d.removed_at;
  removed_by = d.removed_by;
}

abbrev pub begun : ℕ → ℕ → ℕ → String → Kind → String → String → Origin → Download
begun id mine now repo kind path file origin = record {
  id = id;
  repo = repo;
  kind = kind;
  path = path;
  file = file;
  origin = origin;
  source = "";
  bytes = 0;
  files = 0;
  complete = false;
  requires = [];
  machine_id = mine;
  started_at = some now;
  finished_at = none;
  removed_at = none;
  removed_by = "";
}

abbrev pub start_on :
    ℕ
    → ℕ
    → String
    → Kind
    → String
    → String
    → Origin
    → List Download
    → List Download
    → ℕ × List Download
start_on mine now repo kind path file origin [] rows =
    let id = suc (max_id (λ d. d.id) rows) in
    (id, rows ++ begun id mine now repo kind path file origin ∷ [])
start_on mine now repo kind path file origin (d ∷ ds) rows =
    (d.id, update_row (λ r. r.id) d.id (restarted now) rows)

-- The row's id and the table: the newest live row of this kind and path begins again, else a row
-- is inserted.
unfoldable pub start :
    (String → String)
    → ℕ
    → ℕ
    → String
    → Kind
    → String
    → String
    → Origin
    → List Download
    → ℕ × List Download
unfolding live
start lower mine now repo kind path file origin rows =
    start_on mine now repo kind path file origin (live lower mine none (some kind) (some path) rows)
      rows

abbrev pub is_hub : Kind → Bool
is_hub k = kind_eq hub k

abbrev pub measured : Disk → ℕ → Bool → String → Download → Download
measured disk now failed where_ d =
    let complete = not failed && disk.loadable d.kind where_ in
    let size = disk.measure d.kind where_ in
    record {
      id = d.id;
      repo = d.repo;
      kind = d.kind;
      path = where_;
      file = d.file;
      origin = d.origin;
      source = d.source;
      bytes = size.0;
      files = size.1;
      complete = complete;
      requires = if is_hub d.kind && complete then disk.requires_in where_ d.repo else [];
      machine_id = d.machine_id;
      started_at = d.started_at;
      finished_at = some now;
      removed_at = d.removed_at;
      removed_by = d.removed_by;
    }

abbrev pub finish_on :
    Disk → ℕ → ℕ → Option String → Bool → List Download → Option Download → Option (List Download)
finish_on disk now id path failed rows none = none
finish_on disk now id path failed rows (some d) =
    some (update_row (λ r. r.id) id (measured disk now failed (or_else path d.path)) rows)

-- `finish`: a path that is not given is the row's own. A row that is not there is none.
unfoldable pub finish : Disk → ℕ → ℕ → Option String → Bool → List Download → Option (List Download)
finish disk now id path failed rows =
    finish_on disk now id path failed rows (find_row (λ d. d.id) id rows)

abbrev pub gone : ℕ → String → Download → Download
gone at by d = record {
  id = d.id;
  repo = d.repo;
  kind = d.kind;
  path = d.path;
  file = d.file;
  origin = d.origin;
  source = d.source;
  bytes = d.bytes;
  files = d.files;
  complete = false;
  requires = d.requires;
  machine_id = d.machine_id;
  started_at = d.started_at;
  finished_at = d.finished_at;
  removed_at = some at;
  removed_by = by;
}

abbrev pub buried : ℕ → ℕ → ℕ → String → String → Kind → String → String → Origin → ℕ → Download
buried id mine at by repo kind path name origin bytes = record {
  id = id;
  repo = repo;
  kind = kind;
  path = path;
  file = name;
  origin = origin;
  source = "";
  bytes = bytes;
  files = 0;
  complete = false;
  requires = [];
  machine_id = mine;
  started_at = none;
  finished_at = none;
  removed_at = some at;
  removed_by = by;
}

abbrev pub removed_on :
    (String → String)
    → ℕ
    → ℕ
    → String
    → String
    → Kind
    → String
    → String
    → Origin
    → ℕ
    → List Download
    → List Download
    → ℕ × List Download
removed_on lower mine at by repo kind path name origin bytes [] rows =
    let id = suc (max_id (λ d. d.id) rows) in
    (id, rows ++ buried id mine at by repo kind path name origin bytes ∷ [])
removed_on lower mine at by repo kind path name origin bytes (d ∷ ds) rows =
    (d.id, update_where (is_live lower mine none none (some path)) (gone at by) rows)

-- `removed` with its `kind` and `origin` as they are after their defaults; `name` is the path's
-- last part. The UPDATE of every live row with the path is one pass over the table.
unfoldable pub removed :
    (String → String)
    → ℕ
    → ℕ
    → String
    → String
    → Kind
    → String
    → String
    → Origin
    → ℕ
    → List Download
    → ℕ × List Download
unfolding live
removed lower mine at by repo kind path name origin bytes rows =
    removed_on lower mine at by repo kind path name origin bytes
      (live lower mine none none (some path) rows) rows

-- `_complete`, where a path that is gone does not count unless `stat` is false.
unfoldable pub complete_rows :
    (String → String) → ℕ → Disk → Bool → String → Option Kind → List Download → List Download
unfolding live
complete_rows lower mine disk stat repo kind rows =
    select (λ d. not stat || disk.exists d.path)
      (select (λ d. d.complete) (live lower mine (some (lower repo)) kind none rows))

abbrev pub some_row : List Download → Bool
some_row [] = false
some_row (_ ∷ _) = true

unfoldable pub have : (String → String) → ℕ → Disk → Bool → String → List Download → Bool
unfolding complete_rows
have lower mine disk stat repo rows = some_row (complete_rows lower mine disk stat repo none rows)

-- IN_FLIGHT_SECONDS
abbrev pub in_flight_seconds : ℕ
in_flight_seconds = 86400

unfoldable pub in_flight : Download → ℕ → Bool
in_flight d now = elim d.started_at [
  | none ↦ false
  | some t ↦ is_none d.finished_at && ltb now (t + in_flight_seconds)
]

-- `drift` over the paths that `scan` finds.
unfoldable pub drift :
    (String → String) → ℕ → Disk → List String → List Download → List Download × List String
unfolding live
drift lower mine disk scanned rows =
    let known = live lower mine none none none rows in
    (
      select (λ d. not (is_partial d.origin) && not (disk.exists d.path)) known,
      select (λ p. not (is_any (λ d. str_eq d.path p) known)) scanned,
    )
