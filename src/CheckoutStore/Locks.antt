-- ===== src/CheckoutStore/Locks.antt =====
-- What holding the order lock means.
use edn_core.Prelude.{
  ℕ, ◌+◌, ◌≤◌, ◌<◌, ◌≡◌, ◌≢◌, refl, ap, ◌∙◌, Bool, true, false, Option, none, some, List, [], ◌∷◌,
  All,
}
use edn_core.Text.{Text}
use edn_core.Text.Laws.{test_of_eq}
use edn_core.Checkout.{Time}
use edn_core.Errors.{sentinel, lock_not_acquired, ok, err}
use edn_core.Redis.{Redis, RedisLaws, text, live, SetNx, Ran, script_effect}
use edn_core.CheckoutStore.{
  ttl_order_lock, key_order_lock, lock_result, release_result, release_lock_script,
  acquire_order_lock, release_order_lock,
}
use edn_core.CheckoutStore.Entries.{ltb_of_lt, script_effect-released, LockedBy}
use edn_core.CheckoutStore.Commands.{Command, issue, issue_all, Meanwhile, issue-kept, ltb_of_le}

module _ (r : Redis) (laws : RedisLaws r) (nsu token : Text) (deadline : Time) where
  issue_all-kept :
      (commands : List (Time × Command)) (s : r.State)
      → All (Meanwhile nsu token deadline) commands
      → LockedBy (key_order_lock nsu) token deadline (r.entries s)
      → LockedBy (key_order_lock nsu) token deadline (r.entries (issue_all r commands s))
  unfolding issue_all
  issue_all-kept [] s _ e = e
  issue_all-kept ((now, command) ∷ commands) s ((soon, other), rest) e =
      issue_all-kept commands (issue r command now s) rest
        (issue-kept r laws nsu token deadline command now s soon other e)

  refused_before :
      (other : Text) (at : Time) (s : r.State)
      → at < deadline
      → LockedBy (key_order_lock nsu) token deadline (r.entries s)
      → (acquire_order_lock r nsu other at s).1 ≢ ok tt
  unfolding acquire_order_lock
  refused_before other at s soon e =
      go (r.set_nx (key_order_lock nsu) other ttl_order_lock at s).1
        (laws.set_nx_law (key_order_lock nsu) other ttl_order_lock at s)
    where
      go :
          (o : Option Bool)
          → SetNx
              (key_order_lock nsu)
              (text other)
              ttl_order_lock
              at
              (r.entries s)
              o
              (r.entries (r.set_nx (key_order_lock nsu) other ttl_order_lock at s).0)
          → lock_result o ≢ ok tt
      go (some true) (free, _) h = cc (free, ap (live at) e ∙ ltb_of_lt at deadline soon)
      go (some false) law h = cc
      go none law h = cc

  free_after :
      (other : Text) (at : Time) (s : r.State)
      → deadline ≤ at
      → LockedBy (key_order_lock nsu) token deadline (r.entries s)
      → (acquire_order_lock r nsu other at s).1 ≢ err (sentinel lock_not_acquired)
  unfolding acquire_order_lock
  free_after other at s late e =
      go (r.set_nx (key_order_lock nsu) other ttl_order_lock at s).1
        (laws.set_nx_law (key_order_lock nsu) other ttl_order_lock at s)
    where
      go :
          (o : Option Bool)
          → SetNx
              (key_order_lock nsu)
              (text other)
              ttl_order_lock
              at
              (r.entries s)
              o
              (r.entries (r.set_nx (key_order_lock nsu) other ttl_order_lock at s).0)
          → lock_result o ≢ err (sentinel lock_not_acquired)
      go (some true) law h = cc
      go (some false) (taken, _) h = cc (taken, ap (live at) e ∙ ltb_of_le deadline at late)
      go none law h = cc

  released_by_holder :
      (at : Time) (s : r.State)
      → at < deadline
      → LockedBy (key_order_lock nsu) token deadline (r.entries s)
      → (release_order_lock r nsu token at s).1 ≡ ok tt
      → r.entries (release_order_lock r nsu token at s).0 (key_order_lock nsu) ≡ none
  unfolding release_order_lock
  released_by_holder at s soon e h =
      go (r.run_script release_lock_script (key_order_lock nsu) token at s).1
        (laws.script_law release_lock_script (key_order_lock nsu) token at s) h
    where
      gone :
          script_effect release_lock_script
            (key_order_lock nsu)
            token
            at
            (r.entries s)
            (key_order_lock nsu)
          ≡ none
      gone = script_effect-released (key_order_lock nsu) token deadline at (r.entries s) e soon

      go :
          (o : Option ℕ)
          → Ran release_lock_script
              (key_order_lock nsu)
              token
              at
              (r.entries s)
              o
              (r.entries (r.run_script release_lock_script (key_order_lock nsu) token at s).0)
          → release_result o ≡ ok tt
          → r.entries
              (r.run_script release_lock_script (key_order_lock nsu) token at s).0
              (key_order_lock nsu)
            ≡ none
      go (some n) (_, same) h = same (key_order_lock nsu) ∙ gone
      go none law h = cc

-- A process has taken the order lock, and other commands have followed.
module _ (r : Redis) (laws : RedisLaws r) (nsu token : Text) (now : Time) (s : r.State)
    (commands : List (Time × Command)) (taken : (acquire_order_lock r nsu token now s).1 ≡ ok tt)
    (meanwhile : All (Meanwhile nsu token (now + ttl_order_lock)) commands) where
  acquired :
      LockedBy
        (key_order_lock nsu)
        token
        (now + ttl_order_lock)
        (r.entries (acquire_order_lock r nsu token now s).0)
  unfolding acquire_order_lock
  acquired =
      go (r.set_nx (key_order_lock nsu) token ttl_order_lock now s).1
        (laws.set_nx_law (key_order_lock nsu) token ttl_order_lock now s) taken
    where
      go :
          (o : Option Bool)
          → SetNx
              (key_order_lock nsu)
              (text token)
              ttl_order_lock
              now
              (r.entries s)
              o
              (r.entries (r.set_nx (key_order_lock nsu) token ttl_order_lock now s).0)
          → lock_result o ≡ ok tt
          → LockedBy
              (key_order_lock nsu)
              token
              (now + ttl_order_lock)
              (r.entries (r.set_nx (key_order_lock nsu) token ttl_order_lock now s).0)
      go (some true) (_, same) h =
          same (key_order_lock nsu) ∙ rw (test_of_eq (key_order_lock nsu) (key_order_lock nsu) refl)
      go (some false) law h = cc
      go none law h = cc

  still_held :
      LockedBy
        (key_order_lock nsu)
        token
        (now + ttl_order_lock)
        (r.entries (issue_all r commands (acquire_order_lock r nsu token now s).0))
  still_held =
      issue_all-kept r laws nsu token (now + ttl_order_lock) commands
        (acquire_order_lock r nsu token now s).0 meanwhile acquired

  -- Once the order lock is taken, no one else takes it before its 15 seconds are over, whatever
  -- commands the store has executed since then, failed ones included, as long as none of them was
  -- the release with the holder's token.
  pub order_lock-exclusive :
      (other : Text) (at : Time)
      → at < now + ttl_order_lock
      → (acquire_order_lock r nsu other at
          (issue_all r commands (acquire_order_lock r nsu token now s).0)).1
        ≢ ok tt
  order_lock-exclusive other at soon =
      refused_before r laws nsu token (now + ttl_order_lock) other at _ soon still_held

  -- No one is kept out of the order lock for longer than its 15 seconds: after them, taking it is not
  -- refused, although the holder has not released it.
  order_lock-expires :
      (other : Text) (at : Time)
      → now + ttl_order_lock ≤ at
      → (acquire_order_lock r nsu other at
          (issue_all r commands (acquire_order_lock r nsu token now s).0)).1
        ≢ err (sentinel lock_not_acquired)
  order_lock-expires other at late =
      free_after r laws nsu token (now + ttl_order_lock) other at _ late still_held

  -- The holder's release, made in time and answered, removes the lock.
  order_lock-released :
      (at : Time)
      → at < now + ttl_order_lock
      → (release_order_lock r nsu token at
          (issue_all r commands (acquire_order_lock r nsu token now s).0)).1
        ≡ ok tt
      → r.entries
          (release_order_lock r nsu token at
            (issue_all r commands (acquire_order_lock r nsu token now s).0)).0
          (key_order_lock nsu)
        ≡ none
  order_lock-released at soon done =
      released_by_holder r laws nsu token (now + ttl_order_lock) at _ soon still_held done
