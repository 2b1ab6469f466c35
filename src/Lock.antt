-- ===== src/Lock.antt =====
-- harness/exclusive.py: the lock that one run of models per machine holds. The kernel's file lock
-- is a parameter; `announce` is given, and the clock is left out of the holder's record.
pub mod Safety
pub mod Examples
use localharness.Prelude.{
  ℕ, Bool, true, false, ◌&&◌, ◌||◌, not, Option, none, some, ◌≡◌, ◌≢◌, List, [], ◌∷◌, String, ◌==◌,
  str_eq, is_none, if◌then◌else◌,
}

-- `_take` and `_release` on the lock file: what flock(2) and msvcrt.locking document of an exclusive
-- lock that is asked for without blocking.
pub record Flock : Type 1 where
  pub Lock : Type 0
  pub Holds : ℕ → Lock → Type 0
  pub free : Lock
  pub take : ℕ → Lock → Option Lock
  pub release : ℕ → Lock → Lock
  pub free_holds_none : (p : ℕ) → ¬ (Holds p free)
  pub take_alone : (p q : ℕ) (l m : Lock) → take p l ≡ some m → ¬ (Holds q l)
  pub take_holds : (p : ℕ) (l m : Lock) → take p l ≡ some m → Holds p m
  pub take_only : (p q : ℕ) (l m : Lock) → take p l ≡ some m → Holds q m → q ≡ p
  pub take_free : (p : ℕ) (l : Lock) → ((q : ℕ) → ¬ (Holds q l)) → take p l ≢ none
  pub release_own : (p : ℕ) (l : Lock) → ¬ (Holds p (release p l))
  pub release_other : (p q : ℕ) (l : Lock) → Holds q (release p l) → Holds q l
  pub release_keeps : (p q : ℕ) (l : Lock) → q ≢ p → Holds q l → Holds q (release p l)

-- The kinds of EXCLUSIVE and BATCH, and any other.
pub data Kind : Type 0 where
  image video eval ramp external chaos : Kind
  other : String → Kind

abbrev pub is_guarded : Kind → Bool
is_guarded (other _) = false
is_guarded _ = true

-- The holder's record, less its time: what `identity` compares.
pub record Holder : Type 0 where
  pub kind : Kind
  pub pid : ℕ

-- Where a process is: outside, polling in `held`, in a block that holds the lock, in one that was
-- let through without taking it, or in a block of `try_held` that was told the lock is taken.
pub data Phase : Type 0 where
  outside : Phase
  waiting : Kind → (said : Option (Option Holder)) → Phase
  inside : Kind → (waited : Bool) → Phase
  let_through told_busy : Phase

abbrev pub is_inside : Phase → Bool
is_inside (inside _ _) = true
is_inside _ = false

abbrev pub update {ℓ} : {A : Type ℓ} → (ℕ → A) → ℕ → A → ℕ → A
update f i a j = if i == j then a else f j

module _ (os : Flock) where
  open os use {Lock, take, release}

  -- The lock, the holder's file, and of each process its phase and whether LH_GPU_LOCK_HELD is 1 in
  -- its environment.
  pub record World : Type 0 where
    pub lock : Lock
    pub holder : Option Holder
    pub phase : ℕ → Phase
    pub flag : ℕ → Bool

  abbrev pub goes : ℕ → Phase → World → World
  goes p next w = record {
    lock = w.lock;
    holder = w.holder;
    phase = update w.phase p next;
    flag = w.flag;
  }

  -- `_write_holder` and the flag, once the lock is taken.
  abbrev pub taken : ℕ → Kind → Bool → Lock → World → World
  taken p kind waited l w = record {
    lock = l;
    holder = some (record { kind = kind; pid = p });
    phase = update w.phase p (inside kind waited);
    flag = update w.flag p true;
  }

  abbrev pub after_take : ℕ → Kind → Bool → Phase → Option Lock → World → World
  after_take p kind waited otherwise none w = goes p otherwise w
  after_take p kind waited otherwise (some l) w = taken p kind waited l w

  -- The call of `held`: its first test, and its first attempt.
  unfoldable pub enter : ℕ → Kind → World → World
  enter p kind w =
      if not (is_guarded kind) || w.flag p
      then goes p let_through w
      else after_take p kind false (waiting kind (some w.holder)) (take p w.lock) w

  -- One more round of its loop; `said` is whom the last announcement named.
  unfoldable pub poll : ℕ → Kind → World → World
  poll p kind w = after_take p kind true (waiting kind (some w.holder)) (take p w.lock) w

  unfoldable pub try_enter : ℕ → Kind → World → World
  try_enter p kind w =
      if w.flag p then goes p let_through w else after_take p kind false told_busy (take p w.lock) w

  -- The `finally` of a block: only one that took the lock puts anything back.
  unfoldable pub leave : ℕ → World → World
  leave p w =
      if is_inside (w.phase p)
      then record {
        lock = release p w.lock;
        holder = none;
        phase = update w.phase p outside;
        flag = update w.flag p false;
      }
      else goes p outside w

  -- A process starts another, which has its environment.
  abbrev pub start_child : (p child : ℕ) → World → World
  start_child p child w = record {
    lock = w.lock;
    holder = w.holder;
    phase = w.phase;
    flag = update w.flag child (w.flag p);
  }

  -- A process is killed: the holder's file stays, and the kernel drops the lock.
  abbrev pub die : ℕ → World → World
  die p w = record {
    lock = release p w.lock;
    holder = w.holder;
    phase = update w.phase p outside;
    flag = update w.flag p false;
  }

  -- What a process does next.
  pub data Step (w : World) : World → Type 0 where
    enters : (p : ℕ) (kind : Kind) → w.phase p ≡ outside → Step w (enter p kind w)
    polls :
        (p : ℕ) (kind : Kind) (said : Option (Option Holder))
        → w.phase p ≡ waiting kind said
        → Step w (poll p kind w)
    tries : (p : ℕ) (kind : Kind) → w.phase p ≡ outside → Step w (try_enter p kind w)
    leaves : (p : ℕ) → Step w (leave p w)
    starts : (p child : ℕ) → w.phase child ≡ outside → Step w (start_child p child w)
    dies : (p : ℕ) → Step w (die p w)

  abbrev pub quiet : World
  quiet = record { lock = os.free; holder = none; phase = λ p. outside; flag = λ p. false }

  pub data Reach : World → Type 0 where
    start : Reach quiet
    later : {v w : World} → Reach v → Step v w → Reach w
