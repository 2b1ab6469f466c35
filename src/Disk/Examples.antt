-- ===== src/Disk/Examples.antt =====
-- Tests and concrete instances for harness/disk.py: a file system that is a list of paths.
use mathlib.Core.Option
use mathlib.Core.Option.{some-injective}
use text.Mathlib.Text.{starts_with}
use localharness.Prelude.{
  ◌≡◌, ◌≢◌, refl, ap, true, false, ◌&&◌, Option, some, List, [], ◌∷◌, String, arith, str_eq,
  str_eq_iff, All, inl, get_elem?, if◌then◌else◌,
}
use localharness.Lanes.{is_in}
use localharness.Dict.{lookup, put, set_default}
use localharness.Text.{before_char, after_char, has_char, drop_end, drop_start}
use localharness.Ladder.{broken, screen}
use localharness.Downloads.{Download, hub, fetch, begun, live, removed}
use localharness.Disk.{inside, Entry, Inventory, Files, Group, keep, rejected, plan, safe_to_delete}
use localharness.Disk.Delete.{
  unlink_each, remove_, delete_each, record_gone, Deleted, delete, clean, ok_of,
}
use localharness.Disk.Safety.{IsFaithful, delete_lem}
use localharness.Disk.Justified.{IsJustified, delete-IsJustified}
use localharness.Disk.Stamped.{AreStamped, delete-AreStamped}
use localharness.Disk.Keep.{
  strip_provider, stem, resolve_engine, add_weights, tooling, Python, Model, Owned, Wanted, keepers,
  aliases_of, wanted_by, resolve,
}
use localharness.Disk.Keep.Grows.{has_key}
use localharness.Disk.Keep.Covered.{Accounts, keepers_lem}
use localharness.Disk.Keep.Classify.{why_kept, lane_kept, classify_entry}
use localharness.Disk.Keep.Kept.{Holds, keepers-refused}

program : Unit {0}
unfolding lookup put set_default before_char after_char has_char drop_end drop_start strip_provider
    stem resolve_engine add_weights inside unlink_each remove_ delete_each record_gone removed
    safe_to_delete plan delete clean keepers aliases_of resolve classify_entry live why_kept
    lane_kept
program = tt

abbrev without : String → List String → List String
without p [] = []
without p (q ∷ qs) = let rest = without p qs in if str_eq p q then rest else q ∷ rest

is_in-without : (p q : String) (f : List String) → p ≢ q → is_in q (without p f) ≡ is_in q f
is_in-without p q [] ne = refl
is_in-without p q (x ∷ xs) ne =
    ground (arith, str_eq_iff p x, str_eq_iff q x, is_in-without p q xs ne, ne)

abbrev folder : String → String
folder p = if starts_with p "/hub" then "/hub" else "/gguf"

abbrev disk : Files (List String)
disk = record {
  parent_of = folder;
  name_of = folder;
  within = str_eq;
  has = λ f p. is_in p f;
  exists = λ f p. true;
  is_symlink = λ f p. is_in p f && starts_with p "/gguf/link";
  realpath = λ f p. p;
  children = λ f p. f;
  unlink = λ f p. some (without p f);
  rmtree = λ f p. (without p f, false);
  time = λ f. 100001;
}

apart : (p q : String) → str_eq p q ≡ false → p ≢ q
apart p q e same = let t = (str_eq_iff p q).1 same in absurd cc

is_in-unlinked :
    (f g : List String) (p q : String)
    → ◌≡◌ {A = Option (List String)} (some (without p f)) (some g)
    → p ≢ q
    → is_in q g ≡ is_in q f
is_in-unlinked f g p q e ne = rw (← some-injective _ _ e) (is_in-without p q f ne)

disk-IsFaithful : IsFaithful disk
disk-IsFaithful = record {
  within-refl = λ p. (str_eq_iff p p).1 refl;
  unlink-has = is_in-unlinked;
  unlink-is_symlink =
      λ f g p q e ne. ap (λ b. b && starts_with q "/gguf/link") (is_in-unlinked f g p q e ne);
  rmtree-has = λ f p q out. is_in-without p q f (apart p q out);
  rmtree-is_symlink =
      λ f p q out. ap (λ b. b && starts_with q "/gguf/link") (is_in-without p q f (apart p q out));
}

abbrev entry : String → String → Group → List String → Entry
entry path repo group links = record {
  kind = hub;
  path = path;
  name = repo;
  repo = repo;
  size = 7;
  mtime = 0;
  group = group;
  why = "broken at screen";
  outcome = some broken;
  tier = screen;
  decided_at = 0;
  verdict_id = some 4;
  links = links;
  download_id = some 1;
  proposal_ids = 1 ∷ [];
  unrecorded = false;
}

abbrev stock : Inventory
stock = record {
  hub = "/hub";
  gguf = "/gguf";
  entries =
      entry "/hub/m" "org/m" rejected ("/gguf/link_m" ∷ []) ∷ entry "/hub/k" "org/k" keep [] ∷ [];
  incomplete = [];
  problems = [];
  gone = [];
}

abbrev on_disk : List String
on_disk = "/hub/m" ∷ "/hub/k" ∷ "/gguf/link_m" ∷ []

abbrev lower : String → String
lower s = s

abbrev rows : List Download
rows = begun 1 1 0 "org/m" hub "/hub/m" "" fetch ∷ []

-- The rejected entry goes with its symlink a day after the verdict, and not before.
deleted :
    Option.map (λ d. d.files) (delete disk lower 1 on_disk stock 86400 rejected "lh disk" rows)
    ≡ some ("/hub/k" ∷ [])
unfolding program
deleted = refl

too_soon : plan disk on_disk stock 86399 rejected ≡ []
unfolding program
too_soon = refl

out_of_plan : All (λ e. str_eq e.path "/hub/k" ≡ false) (plan disk on_disk stock 86400 rejected)
unfolding program
out_of_plan = (refl, tt)

delete_lem_example :
    (d : Deleted (List String)) × (delete disk lower 1 on_disk stock 86400 rejected "lh disk" rows
      ≡ some d)
    × (is_in "/hub/k" d.files ≡ true)
delete_lem_example =
    delete_lem disk disk-IsFaithful "/hub/k" lower 1 on_disk stock 86400 rejected "lh disk" rows
      refl out_of_plan refl refl

delete-IsJustified_example :
    (d : Deleted (List String)) × (delete disk lower 1 on_disk stock 86400 rejected "lh disk" rows
      ≡ some d)
    × All (IsJustified disk on_disk 86400 rejected stock) (ok_of d.reports)
delete-IsJustified_example =
    delete-IsJustified disk on_disk 86400 rejected lower 1 stock "lh disk" rows refl

delete-AreStamped_example :
    (d : Deleted (List String)) × (delete disk lower 1 on_disk stock 86400 rejected "lh disk" rows
      ≡ some d)
    × AreStamped disk lower 1 d
delete-AreStamped_example =
    delete-AreStamped disk lower 1 on_disk stock 86400 rejected "lh disk" rows refl

abbrev python : Python
python = record { lower = lower; strip = lower; repr = lower; normal = lower }

abbrev configs : List (String × List Model)
configs =
    (
      "gateway/config.yaml",
      record {
        source_repo = "org/k";
        source_file = "k.gguf";
        model = "openai/k";
        model_name = "big";
      }
          ∷ [],
    )
    ∷ []

abbrev no_rows : String → List Owned
no_rows spec = []

abbrev typed : List (String × String)
typed = ("image", "mflux:z-image") ∷ ("ocr", "osocr") ∷ ("music", "nothing") ∷ []

mflux_default :
    (resolve python (aliases_of python configs []).0 no_rows "mflux:z-image").repos
    ≡ "Tongyi-MAI/Z-Image" ∷ []
unfolding program
mflux_default = refl

music_kept : has_key "music" (keepers python configs no_rows typed []).lanes ≡ true
unfolding program
music_kept = refl

keepers_lem_example :
    let k = keepers python configs no_rows typed [] in
    let aliases = (aliases_of python configs []).0 in
    All
      (λ x. Accounts python k x (resolve python aliases no_rows x.spec))
      (wanted_by aliases typed [])
    × All (λ t. has_key t.0 k.repos ≡ true) tooling
keepers_lem_example = keepers_lem python configs no_rows typed []

abbrev big : Wanted
big = record { spec = "big"; why = "alias big"; lane = "" }

first_wanted : get_elem? (wanted_by (aliases_of python configs []).0 typed []) 0 ≡ some big
unfolding program
first_wanted = refl

big_held :
    Holds python folder
      (entry "/hub/k" "org/k" rejected [])
      (resolve python (aliases_of python configs []).0 no_rows "big")
unfolding program
big_held = inl ("org/k", refl, apart "org/k" "" refl, refl)

keepers-refused_example :
    (safe_to_delete disk on_disk
      (classify_entry python folder
        (entry "/hub/k" "org/k" rejected [])
        (keepers python configs no_rows typed [])
        [])
      86400
      rejected
      ("/hub" ∷ "/gguf" ∷ [])).0
    ≡ false
keepers-refused_example =
    keepers-refused disk python on_disk configs no_rows typed [] 0 big
      (entry "/hub/k" "org/k" rejected []) [] 86400 rejected ("/hub" ∷ "/gguf" ∷ []) first_wanted
      big_held
