-- ===== src/Disk/Stamped.antt =====
-- The rows of harness/downloads.py after the deletions of harness/disk.py.
use localharness.Prelude.{
  ℕ, ◌≡◌, refl, ap, Bool, true, false, none, some, List, [], ◌∷◌, ◌++◌, String, arith, All,
}
use localharness.Table.{select, update_where}
use localharness.Downloads.{
  Kind, Origin, Download, is_live, newest_first, live, removed, removed_on, buried,
}
use localharness.Downloads as D
use localharness.Downloads.Life.{newest_first-nil, removed_lem}
use localharness.Disk.{Inventory, Files, Group}
use localharness.Disk.Delete.{Gone, stamp_each, record_gone, delete, delete_when, Deleted, ok_of}

module _ (lower : String → String) (mine : ℕ) where
  -- No row of the path is live on this machine.
  abbrev pub IsStamped : List Download → String → Type 0
  IsStamped rows p = live lower mine none none (some p) rows ≡ []

  select-gone :
      (test : Download → Bool) (at : ℕ) (by p : String) (rows : List Download)
      → select (is_live lower mine none none (some p)) rows ≡ []
      → select (is_live lower mine none none (some p)) (update_where test (D.gone at by) rows) ≡ []
  select-gone test at by p [] h = refl
  select-gone test at by p (r ∷ rs) h = ground (arith, select-gone test at by p rs)

  select-append :
      (test : Download → Bool) (rows : List Download) (x : Download)
      → test x ≡ false
      → select test rows ≡ []
      → select test (rows ++ x ∷ []) ≡ []
  select-append test [] x e h = ground arith
  select-append test (r ∷ rs) x e h = ground (arith, select-append test rs x)

  removed_on-other :
      (at : ℕ) (by repo : String) (kind : Kind) (q name : String) (origin : Origin) (bytes : ℕ)
      (ls rows : List Download) (p : String)
      → IsStamped rows p
      → IsStamped (removed_on lower mine at by repo kind q name origin bytes ls rows).1 p
  unfolding live
  removed_on-other at by repo kind q name origin bytes [] rows p h = ap newest_first (
      select-append (is_live lower mine none none (some p)) rows _ refl
        (newest_first-nil (λ x. true) _ h))
  removed_on-other at by repo kind q name origin bytes (d ∷ ds) rows p h = ap newest_first (
      select-gone (is_live lower mine none none (some q)) at by p rows
        (newest_first-nil (λ x. true) _ h))

  -- What is removed stays so when another path is.
  removed-other :
      (at : ℕ) (by repo : String) (kind : Kind) (q name : String) (origin : Origin) (bytes : ℕ)
      (rows : List Download) (p : String)
      → IsStamped rows p
      → IsStamped (removed lower mine at by repo kind q name origin bytes rows).1 p
  unfolding removed
  removed-other at by repo kind q name origin bytes rows p h =
      removed_on-other at by repo kind q name origin bytes _ rows p h

  module _ (name_of : String → String) (source : String) where
    stamp_each-other :
        (g : Gone) (ps : List String) (rows : List Download) (p : String)
        → IsStamped rows p
        → IsStamped (stamp_each lower mine name_of source g ps rows) p
    stamp_each-other g [] rows p h = h
    stamp_each-other g (q ∷ qs) rows p h =
        stamp_each-other g qs _ p (removed-other g.at source g.repo _ q _ _ _ rows p h)

    stamp_each-All :
        (g : Gone) (ps : List String) (rows : List Download)
        → All (IsStamped (stamp_each lower mine name_of source g ps rows)) ps
    stamp_each-All g [] rows = tt
    stamp_each-All g (q ∷ qs) rows = (
      stamp_each-other g qs _ q (removed_lem lower mine g.at source g.repo _ q _ _ _ rows),
      stamp_each-All g qs _,
    )

    record_gone-other :
        (gs : List Gone) (rows : List Download) (p : String)
        → IsStamped rows p
        → IsStamped (record_gone lower mine name_of source gs rows) p
    unfolding record_gone
    record_gone-other [] rows p h = h
    record_gone-other (g ∷ gs) rows p h =
        record_gone-other gs _ p (stamp_each-other g (g.path ∷ g.links) rows p h)

    All-other :
        (gs : List Gone) (rows : List Download) (ps : List String)
        → All (IsStamped rows) ps
        → All (IsStamped (record_gone lower mine name_of source gs rows)) ps
    All-other gs rows [] h = tt
    All-other gs rows (p ∷ ps) h = (record_gone-other gs rows p h.0, All-other gs rows ps h.1)

    -- After `record` no row of a path that went is live on this machine: of no entry, of no symlink
    -- that went with one.
    pub record_gone_lem :
        (gs : List Gone) (rows : List Download)
        → All
            (λ g.
              All (IsStamped (record_gone lower mine name_of source gs rows)) (g.path ∷ g.links))
            gs
    unfolding record_gone
    record_gone_lem [] rows = tt
    record_gone_lem (g ∷ gs) rows = (
      All-other gs _ (g.path ∷ g.links) (stamp_each-All g (g.path ∷ g.links) rows),
      record_gone_lem gs _,
    )

module _ {F : Type 0} (os : Files F) (lower : String → String) (mine : ℕ) where
  -- Whether every path of the reports is stamped in the rows.
  abbrev pub AreStamped : Deleted F → Type 0
  AreStamped d = All (λ g. All (IsStamped lower mine d.rows) (g.path ∷ g.links)) (ok_of d.reports)

  delete_when-AreStamped :
      (f : F) (inv : Inventory) (now : ℕ) (wanted : Group) (source : String) (rows : List Download)
      (ps : List String)
      → ps ≡ []
      → (d : Deleted F) × (delete_when os lower mine ps f inv now wanted source rows ≡ some d)
        × AreStamped d
  delete_when-AreStamped f inv now wanted source rows [] e =
      (_, refl, record_gone_lem lower mine os.name_of source _ rows)
  delete_when-AreStamped f inv now wanted source rows (p ∷ ps) e = absurd cc

  -- Where the inventory is complete, `delete` finishes and no row of a path that it reports as gone,
  -- nor of a symlink that went with one, is live on this machine.
  pub delete-AreStamped :
      (f : F) (inv : Inventory) (now : ℕ) (wanted : Group) (source : String) (rows : List Download)
      → inv.problems ≡ []
      → (d : Deleted F) × (delete os lower mine f inv now wanted source rows ≡ some d)
        × AreStamped d
  unfolding delete
  delete-AreStamped f inv now wanted source rows =
      delete_when-AreStamped f inv now wanted source rows inv.problems
