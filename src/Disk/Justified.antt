-- ===== src/Disk/Justified.antt =====
-- Why each path that harness/disk.py deletes may go.
use mathlib.Core.List.{Mem, mem-cons_self, mem-cons_of_mem}
use localharness.Prelude.{
  ℕ, ◌+◌, ◌≤◌, ◌≡◌, refl, true, false, Option, none, some, List, [], ◌∷◌, String, arith, All,
  Bool-cases, inl, inr,
}
use localharness.Table.{select, is_any}
use localharness.Downloads.{Download}
use localharness.Disk.{
  Group, Entry, Inventory, Files, keep, rejected, unknown, queued, inside, safe_to_delete, plan,
  group_eq, grace_seconds, is_deletable,
}
use localharness.Disk.Delete.{
  delete_when, Gone, Report, remove_, reported, delete_each, Deleted, delete, ok_of,
}

-- The conditions under which an entry may go.
module _ {F : Type 0} (os : Files F) (f : F) (now : ℕ) (wanted : Group) where
  abbrev pub MayGo : List String → Entry → Type 0
  MayGo roots e =
      (e.group ≡ wanted)
      × (is_deletable wanted ≡ true)
      × (e.unrecorded ≡ false)
      × (is_any (inside os f e.path) roots ≡ true)
      × (wanted ≡ rejected → e.decided_at + grace_seconds ≤ now)

  group_eq_lem : (a b : Group) → group_eq a b ≡ true → a ≡ b
  group_eq_lem keep keep e = refl
  group_eq_lem queued queued e = refl
  group_eq_lem rejected rejected e = refl
  group_eq_lem unknown unknown e = refl
  group_eq_lem keep queued e = absurd cc
  group_eq_lem keep rejected e = absurd cc
  group_eq_lem keep unknown e = absurd cc
  group_eq_lem queued keep e = absurd cc
  group_eq_lem queued rejected e = absurd cc
  group_eq_lem queued unknown e = absurd cc
  group_eq_lem rejected keep e = absurd cc
  group_eq_lem rejected queued e = absurd cc
  group_eq_lem rejected unknown e = absurd cc
  group_eq_lem unknown keep e = absurd cc
  group_eq_lem unknown queued e = absurd cc
  group_eq_lem unknown rejected e = absurd cc

  safe_to_delete-MayGo :
      (e : Entry) (roots : List String)
      → (safe_to_delete os f e now wanted roots).0 ≡ true
      → MayGo roots e
  unfolding safe_to_delete
  safe_to_delete-MayGo e roots h = (
    ground (arith, group_eq_lem e.group wanted),
    ground arith,
    ground arith,
    ground arith,
    λ r. ground (arith, group_eq_lem e.group wanted),
  )

  select-MayGo :
      (roots : List String) (zs es : List Entry)
      → ((e : Entry) → Mem e es → Mem e zs)
      → All
          (λ e. Mem e zs × MayGo roots e)
          (select (λ e. (safe_to_delete os f e now wanted roots).0) es)
  select-MayGo roots zs [] sub = tt
  select-MayGo roots zs (e ∷ es) sub =
      let rest = select-MayGo roots zs es (λ x m. sub x (mem-cons_of_mem e m)) in
      elim (Bool-cases (safe_to_delete os f e now wanted roots).0) [
        | inl t ↦ rw (t, select) ((sub e mem-cons_self, safe_to_delete-MayGo e roots t), rest)
        | inr t ↦ rw (t, select) rest
      ]

  -- What may go, and the entry of the inventory that a report is about.
  abbrev pub IsJustified : Inventory → Gone → Type 0
  IsJustified inv g =
      (e : Entry) × Mem e inv.entries × (e.path ≡ g.path) × MayGo (inv.hub ∷ inv.gguf ∷ []) e

  reported-IsJustified :
      (inv : Inventory) (e : Entry) (got : F × Option (List String)) (rs : List Report)
      → Mem e inv.entries × MayGo (inv.hub ∷ inv.gguf ∷ []) e
      → All (IsJustified inv) (ok_of rs)
      → All (IsJustified inv) (ok_of (reported os e got ∷ rs))
  reported-IsJustified inv e (g, none) rs h all = all
  reported-IsJustified inv e (g, some ls) rs (m, may) all = ((e, m, refl, may), all)

  delete_each-IsJustified :
      (inv : Inventory) (g : F) (es : List Entry)
      → All (λ e. Mem e inv.entries × MayGo (inv.hub ∷ inv.gguf ∷ []) e) es
      → All (IsJustified inv) (ok_of (delete_each os g inv.hub inv.gguf es).1)
  unfolding delete_each
  delete_each-IsJustified inv g [] h = tt
  delete_each-IsJustified inv g (e ∷ es) h =
      reported-IsJustified inv e (remove_ os g e inv.hub inv.gguf) _ h.0
        (delete_each-IsJustified inv (remove_ os g e inv.hub inv.gguf).0 es h.1)

  delete_when-IsJustified :
      (lower : String → String) (mine : ℕ) (inv : Inventory) (source : String)
      (rows : List Download) (ps : List String)
      → ps ≡ []
      → (d : Deleted F) × (delete_when os lower mine ps f inv now wanted source rows ≡ some d)
        × All (IsJustified inv) (ok_of d.reports)
  unfolding plan
  delete_when-IsJustified lower mine inv source rows [] e = (
    _,
    refl,
    delete_each-IsJustified inv f (plan os f inv now wanted)
        (select-MayGo (inv.hub ∷ inv.gguf ∷ []) inv.entries inv.entries (λ x m. m)),
  )
  delete_when-IsJustified lower mine inv source rows (p ∷ ps) e = absurd cc

  -- Where the inventory is complete, `delete` finishes, and every path that it reports as gone is an
  -- entry of the inventory: of the group that was asked for, rejected or unknown, with a download
  -- row, directly inside the hub or the GGUF directory as the files stood before, and, when rejected
  -- weights are asked for, rejected at least `grace_seconds` before now.
  pub delete-IsJustified :
      (lower : String → String) (mine : ℕ) (inv : Inventory) (source : String)
      (rows : List Download)
      → inv.problems ≡ []
      → (d : Deleted F) × (delete os lower mine f inv now wanted source rows ≡ some d)
        × All (IsJustified inv) (ok_of d.reports)
  unfolding delete
  delete-IsJustified lower mine inv source rows =
      delete_when-IsJustified lower mine inv source rows inv.problems
