-- ===== src/Lock/Examples.antt =====
-- A concrete lock, and tests for harness/exclusive.py.
use localharness.Prelude.{
  ℕ, true, ◌≡◌, ◌≢◌, refl, Option, none, some, arith, ◌==◌, ==_iff, if◌then◌else◌,
}
use localharness.Lock.{
  Flock, image, eval, outside, waiting, told_busy, is_inside, World, enter, poll, try_enter, leave,
  die, enters, quiet, Reach, start, later,
}
use localharness.Lock.Safety.{mutual_exclusion, handed_over}

-- A lock that remembers its holder.
abbrev take_one : ℕ → Option ℕ → Option (Option ℕ)
take_one p none = some (some p)
take_one p (some q) = none

abbrev release_one : ℕ → Option ℕ → Option ℕ
release_one p none = none
release_one p (some q) = if q == p then none else some q

abbrev HeldBy : ℕ → Option ℕ → Type 0
HeldBy p l = l ≡ some p

take_one-cases : (p : ℕ) (l m : Option ℕ) → take_one p l ≡ some m → (l ≡ none) × (m ≡ some p)
take_one-cases p none m e = (refl, cc)
take_one-cases p (some q) m e = absurd cc

free_holds : (p : ℕ) → ¬ (HeldBy p none)
free_holds p h = cc

take_one-alone : (p q : ℕ) (l m : Option ℕ) → take_one p l ≡ some m → ¬ (HeldBy q l)
take_one-alone p q l m e h = let c = take_one-cases p l m e in cc

take_one-only : (p q : ℕ) (l m : Option ℕ) → take_one p l ≡ some m → HeldBy q m → q ≡ p
take_one-only p q l m e h = let c = take_one-cases p l m e in cc

take_one-free : (p : ℕ) (l : Option ℕ) → ((q : ℕ) → ¬ (HeldBy q l)) → take_one p l ≢ none
take_one-free p none h = λ e. cc
take_one-free p (some q) h = λ e. h q refl

release_one-own : (p : ℕ) (l : Option ℕ) → ¬ (HeldBy p (release_one p l))
release_one-own p none = λ h. cc
release_one-own p (some q) = λ h. ground (arith, ==_iff q p)

release_one-other : (p q : ℕ) (l : Option ℕ) → HeldBy q (release_one p l) → HeldBy q l
release_one-other p q none h = h
release_one-other p q (some r) h = ground (arith, ==_iff r p)

release_one-keeps : (p q : ℕ) (l : Option ℕ) → q ≢ p → HeldBy q l → HeldBy q (release_one p l)
release_one-keeps p q none ne h = h
release_one-keeps p q (some r) ne h = ground (arith, ==_iff r p)

abbrev one_holder : Flock
one_holder = record {
  Lock = Option ℕ;
  Holds = HeldBy;
  free = none;
  take = take_one;
  release = release_one;
  free_holds_none = free_holds;
  take_alone = take_one-alone;
  take_holds = λ p l m e. (take_one-cases p l m e).1;
  take_only = take_one-only;
  take_free = take_one-free;
  release_own = release_one-own;
  release_other = release_one-other;
  release_keeps = release_one-keeps;
}

-- Process 1 holds the lock for an image, and process 2 waits for it.
abbrev first_in : World one_holder
first_in = enter one_holder 1 image (quiet one_holder)

abbrev one_waits : World one_holder
one_waits = enter one_holder 2 eval first_in

program : Unit {0}
unfolding enter poll try_enter leave
program = tt

first_in-Reach : Reach one_holder first_in
first_in-Reach = later start (enters 1 image refl)

still_outside : first_in.phase 2 ≡ outside
unfolding program
still_outside = refl

one_waits-Reach : Reach one_holder one_waits
one_waits-Reach = later first_in-Reach (enters 2 eval still_outside)

one_inside : is_inside (one_waits.phase 1) ≡ true
unfolding program
one_inside = refl

two_waits : one_waits.phase 2 ≡ waiting eval (some (some (record { kind = image; pid = 1 })))
unfolding program
two_waits = refl

busy : (try_enter one_holder 2 eval first_in).phase 2 ≡ told_busy
unfolding program
busy = refl

mutual_exclusion_example : ◌≡◌ {A = ℕ} 1 1
mutual_exclusion_example =
    mutual_exclusion one_holder one_waits one_waits-Reach 1 1 one_inside one_inside

handed_over_example :
    (is_inside ((poll one_holder 2 eval (leave one_holder 1 one_waits)).phase 2) ≡ true)
    × (is_inside ((poll one_holder 2 eval (die one_holder 1 one_waits)).phase 2) ≡ true)
handed_over_example = handed_over one_holder one_waits one_waits-Reach 1 2 eval one_inside
