-- ===== src/Disk/Safety.antt =====
-- What the deletions of harness/disk.py may touch. `IsFaithful` is what the operating system's
-- documentation says of `unlink` and `rmtree`: they take away what they name, and nothing else.
use localharness.Prelude.{
  ℕ, ◌≡◌, ◌≢◌, refl, ◌∙◌, Bool, true, false, ◌&&◌, ◌||◌, not, Option, none, some, List, [], ◌∷◌,
  ◌++◌, String, arith, str_eq, All, Bool-cases, Option-cases, inl, inr,
}
use localharness.Downloads.{Kind, Download, hub, gguf}
use localharness.Disk.{Group, Entry, Inventory, Files, inside, plan}
use localharness.Disk.Delete.{
  remove_hub, remove_gguf, remove_kind, delete_when, unlink_each, then_rmtree, then_unlink, remove_,
  delete_each, Deleted, delete,
}

pub record IsFaithful {F : Type 0} (os : Files F) : Type 0 where
  pub within-refl : (p : String) → os.within p p ≡ true
  pub unlink-has :
      (f g : F) (p q : String) → os.unlink f p ≡ some g → p ≢ q → os.has g q ≡ os.has f q
  pub unlink-is_symlink :
      (f g : F) (p q : String)
      → os.unlink f p ≡ some g
      → p ≢ q
      → os.is_symlink g q ≡ os.is_symlink f q
  pub rmtree-has :
      (f : F) (p q : String) → os.within p q ≡ false → os.has (os.rmtree f p).0 q ≡ os.has f q
  pub rmtree-is_symlink :
      (f : F) (p q : String)
      → os.within p q ≡ false
      → os.is_symlink (os.rmtree f p).0 q ≡ os.is_symlink f q

module _ {F : Type 0} (os : Files F) (law : IsFaithful os) (q : String) where
  -- The path is there, and is a file or a directory of its own.
  abbrev IsThere : F → Type 0
  IsThere f = (os.has f q ≡ true) × (os.is_symlink f q ≡ false)

  unlink-IsThere : (f g : F) (p : String) → os.unlink f p ≡ some g → p ≢ q → IsThere f → IsThere g
  unlink-IsThere f g p e ne (h, l) =
      (law.unlink-has f g p q e ne ∙ h, law.unlink-is_symlink f g p q e ne ∙ l)

  -- Only symlinks are unlinked by the loops.
  unlink_each-IsThere :
      (test : F → String → Bool) (f : F) (done ps : List String)
      → ((g : F) (p : String) → test g p ≡ true → os.is_symlink g p ≡ true)
      → IsThere f
      → IsThere (unlink_each os test f done ps).0
  unfolding unlink_each
  unlink_each-IsThere test f done [] links h = h
  unlink_each-IsThere test f done (p ∷ ps) links h = elim (Bool-cases (test f p)) [
    | inr e ↦ rw (e, unlink_each) (unlink_each-IsThere test f done ps links h)
    | inl e ↦ elim (Option-cases (os.unlink f p)) [
      | inl n ↦ rw (e, unlink_each, n) h
      | inr (g, s) ↦
          rw (e, unlink_each, s)
            (unlink_each-IsThere test g (done ++ p ∷ []) ps links
              (unlink-IsThere f g p s (λ same. let l = links f p e in cc) h))
    ]
  ]

  then_rmtree-IsThere :
      (p : String) (got : F × Option (List String))
      → os.within p q ≡ false
      → IsThere got.0
      → IsThere (then_rmtree os p got).0
  then_rmtree-IsThere p (f, none) out h = h
  then_rmtree-IsThere p (f, some done) out (h, l) =
      (law.rmtree-has f p q out ∙ h, law.rmtree-is_symlink f p q out ∙ l)

  apart : (p : String) → os.within p q ≡ false → p ≢ q
  apart p out e = let r = law.within-refl p in cc

  then_unlink-IsThere :
      (p : String) (got : F × Option (List String))
      → os.within p q ≡ false
      → IsThere got.0
      → IsThere (then_unlink os p got).0
  then_unlink-IsThere p (f, none) out h = h
  then_unlink-IsThere p (f, some done) out h = elim (Option-cases (os.unlink f p)) [
    | inl n ↦ rw (n, then_unlink) h
    | inr (g, s) ↦ rw (s, then_unlink) (unlink-IsThere f g p s (apart p out) h)
  ]

  remove_hub-IsThere :
      (f : F) (path : String) (links : List String) (root ggufs : String)
      → os.within path q ≡ false
      → IsThere f
      → IsThere (remove_hub os f path links root ggufs).0
  remove_hub-IsThere f path links root ggufs out h =
      elim (Bool-cases (os.is_symlink f path || not (inside os f path root))) [
        | inl e ↦ rw (e, remove_hub) h
        | inr e ↦
            rw (e, remove_hub)
              (then_rmtree-IsThere path _ out (
                unlink_each-IsThere (λ g l. os.is_symlink g l && inside os g l ggufs) f [] links
                  (λ g p t. ground (arith, t)) h))
      ]

  remove_gguf-IsThere :
      (f : F) (path ggufs : String)
      → os.within path q ≡ false
      → IsThere f
      → IsThere (remove_gguf os f path ggufs).0
  remove_gguf-IsThere f path ggufs out h = elim (Bool-cases (inside os f path ggufs)) [
    | inr e ↦ rw (e, remove_gguf) h
    | inl e ↦ elim (Bool-cases (os.is_symlink f path)) [
      | inl l ↦ rw (e, l, remove_gguf) (then_unlink-IsThere path (f, some []) out h)
      | inr l ↦
          rw (e, l, remove_gguf)
            (then_unlink-IsThere path _ out (
              unlink_each-IsThere
                (λ g o. os.is_symlink g o && str_eq (os.realpath g o) (os.realpath f path)) f []
                (os.children f ggufs) (λ g p t. ground (arith, t)) h))
    ]
  ]

  remove_kind-IsThere :
      (k : Kind) (f : F) (path : String) (links : List String) (root ggufs : String)
      → os.within path q ≡ false
      → IsThere f
      → IsThere (remove_kind os k f path links root ggufs).0
  remove_kind-IsThere hub f path links root ggufs = remove_hub-IsThere f path links root ggufs
  remove_kind-IsThere gguf f path links root ggufs = remove_gguf-IsThere f path ggufs

  delete_each-IsThere :
      (f : F) (root ggufs : String) (es : List Entry)
      → All (λ e. os.within e.path q ≡ false) es
      → IsThere f
      → IsThere (delete_each os f root ggufs es).0
  unfolding delete_each remove_
  delete_each-IsThere f root ggufs [] out h = h
  delete_each-IsThere f root ggufs (e ∷ es) out h =
      delete_each-IsThere (remove_ os f e root ggufs).0 root ggufs es out.1
        (remove_kind-IsThere e.kind f e.path e.links root ggufs out.0 h)

  module _ (lower : String → String) (mine : ℕ) where
    delete_when-has :
        (ps : List String) (f : F) (inv : Inventory) (now : ℕ) (wanted : Group) (source : String)
        (rows : List Download)
        → ps ≡ []
        → All (λ e. os.within e.path q ≡ false) (plan os f inv now wanted)
        → os.has f q ≡ true
        → os.is_symlink f q ≡ false
        → (d : Deleted F) × (delete_when os lower mine ps f inv now wanted source rows ≡ some d)
          × (os.has d.files q ≡ true)
    delete_when-has [] f inv now wanted source rows complete out h l =
        (_, refl, (delete_each-IsThere f inv.hub inv.gguf (plan os f inv now wanted) out (h, l)).0)
    delete_when-has (p ∷ ps) f inv now wanted source rows complete out h l = absurd cc

    -- Where the inventory is complete, `delete` finishes, and a file or directory that is no symlink
    -- and is neither at nor below the path of an entry in the plan is still there, provided that
    -- unlink and rmtree take away only what they name.
    pub delete_lem :
        (f : F) (inv : Inventory) (now : ℕ) (wanted : Group) (source : String)
        (rows : List Download)
        → inv.problems ≡ []
        → All (λ e. os.within e.path q ≡ false) (plan os f inv now wanted)
        → os.has f q ≡ true
        → os.is_symlink f q ≡ false
        → (d : Deleted F) × (delete os lower mine f inv now wanted source rows ≡ some d)
          × (os.has d.files q ≡ true)
    unfolding delete
    delete_lem f inv now wanted source rows =
        delete_when-has inv.problems f inv now wanted source rows
