-- ===== src/Disk.antt =====
-- harness/disk.py: what the weights cache holds, what uses it, and what may go. The file system is
-- a state F with the operations of `Files`, which the operating system provides.
pub mod Keep
pub mod Delete
pub mod Safety
pub mod Justified
pub mod Stamped
pub mod Examples
use Prim.Native.String.{◌++◌ as append}
use localharness.Prelude.{
  ℕ, ◌+◌, Bool, true, false, ◌&&◌, ◌||◌, not, Option, List, [], ◌∷◌, String, ltb, str_eq,
  if◌then◌else◌,
}
use localharness.Lanes.{is_in}
use localharness.Ladder.{Outcome, Tier}
use localharness.Downloads.{Kind, Download}
use localharness.Table.{select, is_any}

-- GROUPS
pub data Group : Type 0 where
  keep queued rejected unknown : Group

abbrev pub group_eq : Group → Group → Bool
group_eq keep keep = true
group_eq queued queued = true
group_eq rejected rejected = true
group_eq unknown unknown = true
group_eq _ _ = false

abbrev pub group_text : Group → String
group_text keep = "keep"
group_text queued = "queued"
group_text rejected = "rejected"
group_text unknown = "unknown"

-- GRACE_SECONDS
abbrev pub grace_seconds : ℕ
grace_seconds = 86400

-- UNRECORDED
abbrev pub unrecorded_text : String
unrecorded_text = "no download row; `lh disk --record` names it"

-- `outcome` is none, and `tier` the empty word, before a verdict is found.
pub record Entry : Type 0 where
  pub kind : Kind
  pub path : String
  pub name : String
  pub repo : String
  pub size : ℕ
  pub mtime : ℕ
  pub group : Group
  pub why : String
  pub outcome : Option Outcome
  pub tier : Tier
  pub decided_at : ℕ
  pub verdict_id : Option ℕ
  pub links : List String
  pub download_id : Option ℕ
  pub proposal_ids : List ℕ
  pub unrecorded : Bool

-- A partial blob, and the directory of the download it belongs to.
pub record Blob : Type 0 where
  pub path : String
  pub size : ℕ
  pub dir : String

pub record Inventory : Type 0 where
  pub hub : String
  pub gguf : String
  pub entries : List Entry
  pub incomplete : List Blob
  pub problems : List String
  pub gone : List Download

-- pathlib's and os's view of the files: `within p q` says that q is p or below it, `has` that the
-- path itself is there, `exists` that what it leads to is. An `unlink` that raises is none, and
-- `rmtree` gives what it left and whether it raised.
pub record Files (F : Type 0) : Type 0 where
  pub parent_of : String → String
  pub name_of : String → String
  pub within : String → String → Bool
  pub has : F → String → Bool
  pub exists : F → String → Bool
  pub is_symlink : F → String → Bool
  pub realpath : F → String → String
  pub children : F → String → List String
  pub unlink : F → String → Option F
  pub rmtree : F → String → F × Bool
  pub time : F → ℕ

abbrev pub is_deletable : Group → Bool
is_deletable rejected = true
is_deletable unknown = true
is_deletable _ = false

abbrev pub joined : List String → String
joined [] = ""
joined (r ∷ []) = r
joined (r ∷ rs) = append r (append ", " (joined rs))

module _ {F : Type 0} (os : Files F) where
  -- `_inside`, where no path is too odd for `realpath`.
  unfoldable pub inside : F → String → String → Bool
  inside f path root =
      os.exists f root
      && str_eq (os.realpath f (os.parent_of path)) (os.realpath f root)
      && not (is_in (os.name_of path) ("" ∷ "." ∷ ".." ∷ []))

  unfoldable pub safe_to_delete : F → Entry → ℕ → Group → List String → Bool × String
  safe_to_delete f e now wanted roots =
      if group_eq e.group keep
      then (false, append "kept: " e.why)
      else if e.unrecorded
      then (false, append "refused: " unrecorded_text)
      else if not (group_eq e.group wanted) || not (is_deletable wanted)
      then (false, append (group_text e.group) (append ", not " (group_text wanted)))
      else if group_eq e.group rejected && ltb now (e.decided_at + grace_seconds)
      then (false, "rejected less than 24 h ago")
      else if is_any (inside f e.path) roots
      then (true, e.why)
      else (false, append "refused: " (append e.path (append " is outside " (joined roots))))

  unfoldable pub plan : F → Inventory → ℕ → Group → List Entry
  plan f inv now wanted =
      select (λ e. (safe_to_delete f e now wanted (inv.hub ∷ inv.gguf ∷ [])).0) inv.entries
