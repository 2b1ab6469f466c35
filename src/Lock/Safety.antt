-- ===== src/Lock/Safety.antt =====
-- What holds in every reachable state of harness/exclusive.py.
use localharness.Prelude.{
  ℕ, Bool, true, false, ◌||◌, not, Option, none, some, ◌≡◌, refl, sym, ◌∙◌, inl, inr, arith, ==_iff,
  ==_refl, Bool-cases, Option-cases,
}
use mathlib.Core.Path.{subst}
use localharness.Lock.{
  Flock, Kind, Holder, Phase, outside, let_through, is_inside, is_guarded, update, World, goes,
  taken, after_take, start_child, die, enter, poll, try_enter, leave, Step, enters, polls, tries,
  leaves, starts, dies, quiet, Reach, start, later,
}

module _ (os : Flock) where
  open os use {Holds}

  -- Exactly the processes in a block that took the lock hold it, one at most, and they have the flag
  -- set.
  pub record Inv (w : World os) : Type 0 where
    pub owns : (p : ℕ) → is_inside (w.phase p) ≡ true → Holds p w.lock
    pub owned : (p : ℕ) → Holds p w.lock → is_inside (w.phase p) ≡ true
    pub alone : (p q : ℕ) → Holds p w.lock → Holds q w.lock → p ≡ q
    pub flagged : (p : ℕ) → is_inside (w.phase p) ≡ true → w.flag p ≡ true

  quiet-Inv : Inv (quiet os)
  quiet-Inv = record {
    owns = λ p h. cc;
    owned = λ p h. absurd (os.free_holds_none p h);
    alone = λ p q h. absurd (os.free_holds_none p h);
    flagged = λ p h. cc;
  }

  -- A process that is outside the lock stays outside it.
  goes-Inv :
      (p : ℕ) (next : Phase) (w : World os)
      → Inv w
      → is_inside (w.phase p) ≡ false
      → is_inside next ≡ false
      → Inv (goes os p next w)
  goes-Inv p next w v out stays = record {
    owns = λ q h. ground (arith, v.owns q, ==_iff p q);
    owned = λ q h. ground (arith, v.owned q, ==_iff p q);
    alone = v.alone;
    flagged = λ q h. ground (arith, v.flagged q, ==_iff p q);
  }

  taken-Inv :
      (p : ℕ) (kind : Kind) (waited : Bool) (l : os.Lock) (w : World os)
      → Inv w
      → os.take p w.lock ≡ some l
      → Inv (taken os p kind waited l w)
  taken-Inv p kind waited l w v e = record {
    owns = λ q h.
        ground
          (arith, ==_iff p q, v.owns q, os.take_alone p q w.lock l e, os.take_holds p w.lock l e);
    owned = λ q h. ground (arith, ==_iff p q, os.take_only p q w.lock l e h);
    alone = λ q r h k. os.take_only p q w.lock l e h ∙ sym (os.take_only p r w.lock l e k);
    flagged = λ q h. ground (arith, v.flagged q, ==_iff p q);
  }

  after_take-Inv :
      (p : ℕ) (kind : Kind) (waited : Bool) (otherwise : Phase) (o : Option os.Lock) (w : World os)
      → Inv w
      → os.take p w.lock ≡ o
      → is_inside (w.phase p) ≡ false
      → is_inside otherwise ≡ false
      → Inv (after_take os p kind waited otherwise o w)
  after_take-Inv p kind waited otherwise none w v e out stays = goes-Inv p otherwise w v out stays
  after_take-Inv p kind waited otherwise (some l) w v e out stays = taken-Inv p kind waited l w v e

  -- The lock is put back, by a block's end or by the kernel.
  released-Inv :
      (p : ℕ) (holder : Option Holder) (w : World os)
      → Inv w
      → Inv (record {
        lock = os.release p w.lock;
        holder = holder;
        phase = update w.phase p outside;
        flag = update w.flag p false;
      })
  released-Inv p holder w v = record {
    owns = λ q h. ground (arith, ==_iff p q, v.owns q, os.release_keeps p q w.lock);
    owned = λ q h.
        ground
          (arith, ==_iff p q, v.owned q, os.release_own p w.lock, os.release_other p q w.lock h);
    alone = λ q r h k. v.alone q r (os.release_other p q w.lock h) (os.release_other p r w.lock k);
    flagged = λ q h. ground (arith, v.flagged q, ==_iff p q);
  }

  enter-Inv :
      (p : ℕ) (kind : Kind) (w : World os) → Inv w → w.phase p ≡ outside → Inv (enter os p kind w)
  unfolding enter
  enter-Inv p kind w v out = elim (Bool-cases (not (is_guarded kind) || w.flag p)) [
    | inl e ↦ rw e (goes-Inv p let_through w v (rw out refl) refl)
    | inr e ↦ rw e (after_take-Inv p kind false _ _ w v refl (rw out refl) refl)
  ]

  try_enter-Inv :
      (p : ℕ) (kind : Kind) (w : World os)
      → Inv w
      → w.phase p ≡ outside
      → Inv (try_enter os p kind w)
  unfolding try_enter
  try_enter-Inv p kind w v out = elim (Bool-cases (w.flag p)) [
    | inl e ↦ rw e (goes-Inv p let_through w v (rw out refl) refl)
    | inr e ↦ rw e (after_take-Inv p kind false _ _ w v refl (rw out refl) refl)
  ]

  leave-Inv : (p : ℕ) (w : World os) → Inv w → Inv (leave os p w)
  unfolding leave
  leave-Inv p w v = elim (Bool-cases (is_inside (w.phase p))) [
    | inl e ↦ rw e (released-Inv p none w v)
    | inr e ↦ rw e (goes-Inv p outside w v e refl)
  ]

  starts-Inv :
      (p child : ℕ) (w : World os)
      → Inv w
      → w.phase child ≡ outside
      → Inv (start_child os p child w)
  starts-Inv p child w v out = record {
    owns = v.owns;
    owned = v.owned;
    alone = v.alone;
    flagged = λ q h. ground (arith, ==_iff child q, v.flagged q, out);
  }

  Step-Inv : {v w : World os} → Step os v w → Inv v → Inv w
  unfolding poll
  Step-Inv {v} (enters p kind out) i = enter-Inv p kind v i out
  Step-Inv {v} (polls p kind said at) i = after_take-Inv p kind true _ _ v i refl (rw at refl) refl
  Step-Inv {v} (tries p kind out) i = try_enter-Inv p kind v i out
  Step-Inv {v} (leaves p) i = leave-Inv p v i
  Step-Inv {v} (starts p child out) i = starts-Inv p child v i out
  Step-Inv {v} (dies p) i = released-Inv p v.holder v i

  pub Reach-Inv : {w : World os} → Reach os w → Inv w
  Reach-Inv start = quiet-Inv
  Reach-Inv (later r st) = Step-Inv st (Reach-Inv r)

  -- Two processes are never in blocks that took the lock at the same time, whichever calls, ends,
  -- starts and deaths of processes came before.
  pub mutual_exclusion :
      (w : World os)
      → Reach os w
      → (p q : ℕ) → is_inside (w.phase p) ≡ true
      → is_inside (w.phase q) ≡ true
      → p ≡ q
  mutual_exclusion w r p q hp hq = let v = Reach-Inv r in v.alone p q (v.owns p hp) (v.owns q hq)

  -- A poll of a lock that nobody holds ends inside.
  poll_free :
      (p : ℕ) (kind : Kind) (w : World os)
      → ((q : ℕ) → ¬ (Holds q w.lock))
      → is_inside ((poll os p kind w).phase p) ≡ true
  unfolding poll
  poll_free p kind w free = elim (Option-cases (os.take p w.lock)) [
    | inl e ↦ absurd (os.take_free p w.lock free e)
    | inr (l, e) ↦ rw e (rw (==_refl p) refl)
  ]

  only_release :
      (p : ℕ) (w : World os)
      → Inv w
      → is_inside (w.phase p) ≡ true
      → (q : ℕ) → ¬ (Holds q (os.release p w.lock))
  only_release p w v h q k =
      let same = v.alone q p (os.release_other p q w.lock k) (v.owns p h) in
      os.release_own p w.lock (subst (λ r. Holds r (os.release p w.lock)) same k)

  -- However a block that took the lock ends, by its `finally` or by the death of its process, the
  -- next poll of any waiting process takes the lock.
  pub handed_over :
      (w : World os)
      → Reach os w
      → (p q : ℕ) (kind : Kind) → is_inside (w.phase p) ≡ true
      → (is_inside ((poll os q kind (leave os p w)).phase q) ≡ true)
        × (is_inside ((poll os q kind (die os p w)).phase q) ≡ true)
  unfolding leave
  handed_over w r p q kind h =
      let none_left = only_release p w (Reach-Inv r) h in
      (
        rw h (
            poll_free q kind
              (record {
                lock = os.release p w.lock;
                holder = none;
                phase = update w.phase p outside;
                flag = update w.flag p false;
              })
              none_left),
        poll_free q kind (die os p w) none_left,
      )

  -- A process that is started from a block that took the lock never waits for it: its own request,
  -- blocking or not and of whichever kind, is let through.
  pub child_let_through :
      (w : World os)
      → Reach os w
      → (p child : ℕ) (kind : Kind) → is_inside (w.phase p) ≡ true
      → ((enter os child kind (start_child os p child w)).phase child ≡ let_through)
        × ((try_enter os child kind (start_child os p child w)).phase child ≡ let_through)
  unfolding enter try_enter
  child_let_through w r p child kind h =
      let set = (Reach-Inv r).flagged p h in
      (ground (arith, ==_refl child), ground (arith, ==_refl child))
