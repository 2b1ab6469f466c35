-- ===== src/Downloads/Life.antt =====
-- The life of a download's row in harness/downloads.py.
use localharness.Prelude.{
  ℕ, suc, ◌≡◌, ◌≢◌, refl, ap, ◌∙◌, max, length-append, Bool, true, false, ◌&&◌, ◌||◌, not, none,
  some, is_none, List, [], ◌∷◌, ◌++◌, String, arith, str_eq_iff, length,
}
use localharness.Table.{
  max_id, find_row, update_row, select, is_any, update_where, find_row-above, find_row-append,
}
use localharness.Downloads.{
  Kind, Origin, Download, Disk, is_live, newest_first, live, restarted, begun, start_on, removed_on,
  some_row, hub, gguf, start, measured, finish, finish_on, removed, complete_rows, have,
}

module _ (test : Download → Bool) where
  newest_first-any : (ds : List Download) → is_any test (newest_first ds) ≡ is_any test ds
  newest_first-any [] = refl
  newest_first-any (d ∷ ds) = ground (arith, any-append (newest_first ds) d, newest_first-any ds)
    where
      any-append :
          (xs : List Download) (d : Download)
          → is_any test (xs ++ d ∷ []) ≡ (is_any test xs || test d)
      any-append [] d = ground arith
      any-append (x ∷ xs) d = ground (arith, any-append xs d)

  select-none : (ds : List Download) → is_any test ds ≡ false → select test ds ≡ []
  select-none [] e = refl
  select-none (d ∷ ds) e = ground (arith, select-none ds)

  select-buried :
      (ds : List Download) (x : Download)
      → test x ≡ false
      → select test (ds ++ x ∷ []) ≡ select test ds
  select-buried [] x e = ground arith
  select-buried (d ∷ ds) x e = ground (arith, select-buried ds x e)

  -- An UPDATE that takes every selected row out of the selection leaves none.
  update_where-select :
      (f : Download → Download) (ds : List Download)
      → ((d : Download) → test (f d) ≡ false)
      → select test (update_where test f ds) ≡ []
  update_where-select f [] out = refl
  update_where-select f (d ∷ ds) out = ground (arith, out d, update_where-select f ds out)

  pub newest_first-nil : (ds : List Download) → newest_first ds ≡ [] → ds ≡ []
  newest_first-nil [] e = refl
  newest_first-nil (d ∷ ds) e = absurd (snoc (newest_first ds) e)
    where
      snoc : (xs : List Download) → (xs ++ d ∷ []) ≢ []
      snoc [] e = cc
      snoc (x ∷ xs) e = cc

  some_row-select : (ds : List Download) → some_row (select test ds) ≡ is_any test ds
  some_row-select [] = refl
  some_row-select (d ∷ ds) = ground (arith, some_row-select ds)

  is_any-select :
      (other : Download → Bool) (ds : List Download)
      → is_any other (select test ds) ≡ is_any (λ d. test d && other d) ds
  is_any-select other [] = refl
  is_any-select other (d ∷ ds) = ground (arith, is_any-select other ds)

  length-select-append :
      (ds : List Download) (x : Download)
      → test x ≡ true
      → length (select test (ds ++ x ∷ [])) ≡ suc (length (select test ds))
  length-select-append [] x e = ground arith
  length-select-append (d ∷ ds) x e = ground (arith, length-select-append ds x e)

  length-select-update :
      (id : ℕ) (f : Download → Download) (ds : List Download)
      → ((d : Download) → test (f d) ≡ test d)
      → length (select test (update_row (λ r. r.id) id f ds)) ≡ length (select test ds)
  unfolding update_row
  length-select-update id f [] same = refl
  length-select-update id f (d ∷ ds) same =
      ground (arith, same d, length-select-update id f ds same)

  is_any-update_last :
      (id : ℕ) (f : Download → Download) (ds : List Download) (x : Download)
      → x.id ≡ id
      → test (f x) ≡ true
      → is_any test (update_row (λ r. r.id) id f (ds ++ x ∷ [])) ≡ true
  unfolding update_row
  is_any-update_last id f [] x e h = ground (arith, e, h)
  is_any-update_last id f (d ∷ ds) x e h = ground (arith, is_any-update_last id f ds x e h)

fresh_row :
    (rows : List Download) (x : Download)
    → x.id ≡ suc (max_id (λ d. d.id) rows)
    → find_row (λ d. d.id) x.id (rows ++ x ∷ []) ≡ some x
fresh_row rows x e =
    ground (arith, find_row-append (λ d. d.id) x.id rows x, find_row-above (λ d. d.id) x.id rows)

length-newest_first : (ds : List Download) → length (newest_first ds) ≡ length ds
length-newest_first [] = refl
length-newest_first (d ∷ ds) =
    omega (arith, length-append (newest_first ds) (d ∷ []), length-newest_first ds)

module _ (lower : String → String) (mine : ℕ) where
  removed_on-live :
      (at : ℕ) (by repo : String) (kind : Kind) (path name : String) (origin : Origin) (bytes : ℕ)
      (rows ls : List Download)
      → newest_first (select (is_live lower mine none none (some path)) rows) ≡ ls
      → select
          (is_live lower mine none none (some path))
          (removed_on lower mine at by repo kind path name origin bytes ls rows).1
        ≡ []
  removed_on-live at by repo kind path name origin bytes rows [] e =
      select-buried (is_live lower mine none none (some path)) rows _ refl
      ∙ newest_first-nil (λ d. true) _ e
  removed_on-live at by repo kind path name origin bytes rows (d ∷ ds) e =
      update_where-select (is_live lower mine none none (some path)) _ rows (λ x. refl)

  -- After a removal no row of the path is live on this machine, whether the table had one or not.
  pub removed_lem :
      (at : ℕ) (by repo : String) (kind : Kind) (path name : String) (origin : Origin) (bytes : ℕ)
      (rows : List Download)
      → live lower mine none none
          (some path)
          (removed lower mine at by repo kind path name origin bytes rows).1
        ≡ []
  unfolding removed live
  removed_lem at by repo kind path name origin bytes rows =
      rw (removed_on-live at by repo kind path name origin bytes rows _ refl) refl

  begun-is_live :
      (id now : ℕ) (repo : String) (kind : Kind) (path file : String) (origin : Origin)
      → is_live lower mine none
          (some kind)
          (some path)
          (begun id mine now repo kind path file origin)
        ≡ true
  begun-is_live id now repo hub path file origin = ground (arith, str_eq_iff path path)
  begun-is_live id now repo gguf path file origin = ground (arith, str_eq_iff path path)

  start_on-live :
      (now : ℕ) (repo : String) (kind : Kind) (path file : String) (origin : Origin)
      (rows ls : List Download)
      → newest_first (select (is_live lower mine none (some kind) (some path)) rows) ≡ ls
      → length (
          select
            (is_live lower mine none (some kind) (some path))
            (start_on mine now repo kind path file origin ls rows).1)
        ≡ max 1 (length ls)
  start_on-live now repo kind path file origin rows [] e =
      let t = is_live lower mine none (some kind) (some path) in
      length-select-append t rows
        (begun (suc (max_id (λ d. d.id) rows)) mine now repo kind path file origin)
        (begun-is_live (suc (max_id (λ d. d.id) rows)) now repo kind path file origin)
      ∙ omega (arith, length-newest_first (select t rows), ap length e)
  start_on-live now repo kind path file origin rows (d ∷ ds) e =
      let t = is_live lower mine none (some kind) (some path) in
      omega (
        arith,
        length-select-update t d.id (restarted now) rows (λ x. refl),
        length-newest_first (select t rows),
        ap length e,
      )

  -- A start leaves one more live row of its kind and path when there was none, and no more than
  -- there were otherwise: two starts of the same download do not make two rows.
  pub start_lem :
      (now : ℕ) (repo : String) (kind : Kind) (path file : String) (origin : Origin)
      (rows : List Download)
      → length (
          live lower mine none
            (some kind)
            (some path)
            (start lower mine now repo kind path file origin rows).1)
        ≡ max 1 (length (live lower mine none (some kind) (some path) rows))
  unfolding start live
  start_lem now repo kind path file origin rows =
      length-newest_first _ ∙ start_on-live now repo kind path file origin rows _ refl

  fetched-have :
      (disk : Disk) (stat : Bool) (then_ : ℕ) (rows : List Download) (d : Download)
      → is_none d.removed_at ≡ true
      → d.machine_id ≡ mine
      → disk.loadable d.kind d.path ≡ true
      → disk.exists d.path ≡ true
      → have lower mine disk stat d.repo
          (update_row (λ r. r.id) d.id (measured disk then_ false d.path) (rows ++ d ∷ []))
        ≡ true
  unfolding have complete_rows live
  fetched-have disk stat then_ rows d live_ on loads there =
      let p1 : Download → Bool = λ x. not stat || disk.exists x.path in
      let p2 : Download → Bool = λ x. x.complete in
      let p3 = is_live lower mine (some (lower d.repo)) none none in
      let f = measured disk then_ false d.path in
      let u = update_row (λ r. r.id) d.id f (rows ++ d ∷ []) in
      some_row-select p1 (select p2 (newest_first (select p3 u)))
      ∙ is_any-select p2 p1 (newest_first (select p3 u))
      ∙ newest_first-any (λ x. p2 x && p1 x) (select p3 u)
      ∙ is_any-select p3 (λ x. p2 x && p1 x) u
      ∙ is_any-update_last (λ x. p3 x && (p2 x && p1 x)) d.id f rows d refl
          (ground (arith, str_eq_iff (lower d.repo) (lower d.repo), live_, on, loads, there))

  -- A path that no row of its kind on this machine records as live, once fetched with a loadable file that is
  -- still there, is found: the started row is finished and `have` says yes.
  pub have_lem :
      (disk : Disk) (stat : Bool) (now then_ : ℕ) (repo : String) (kind : Kind) (path file : String)
      (origin : Origin) (rows : List Download)
      → live lower mine none (some kind) (some path) rows ≡ []
      → disk.loadable kind path ≡ true
      → disk.exists path ≡ true
      → let begun_ : ℕ × List Download = start lower mine now repo kind path file origin rows in
        (after : List Download) × (finish disk then_ begun_.0 none false begun_.1 ≡ some after)
        × (have lower mine disk stat repo after ≡ true)
  unfolding start finish live
  have_lem disk stat now then_ repo kind path file origin rows e loads there =
      let id = suc (max_id (λ d. d.id) rows) in
      let row = begun id mine now repo kind path file origin in
      rw e (
        _,
        ap (finish_on disk then_ id none false (rows ++ row ∷ [])) (fresh_row rows row refl),
        fetched-have disk stat then_ rows row refl refl loads there,
      )
