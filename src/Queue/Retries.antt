-- ===== src/Queue/Retries.antt =====
-- How often a failing key is tried, and when it is forgotten.
use native_kubelet.Base.{
  ℕ, Bool, zero, suc, ◌+◌, ◌≤◌, ◌<◌, Str, is_positive, ℤ, if◌then◌else◌, true, false, Option, none,
  some, is_some, ◌≡◌, refl, arith, ◌↔◌,
}
use mathlib.Core.Path.{subst}
use native_kubelet.Errdefs.{Error}
use native_kubelet.Queue.{
  WorkQueue, ItemHandler, max_retries, handle_queue_item_object, Running, RunStart, panics, blocks,
  started, run_start, run_end,
}

-- What client-go documents of a rate limited queue: the count of requeues of a key grows by one
-- with each rate limited add and is cleared by Forget, and Done leaves it alone.
pub record Counts {S : Type 0} (workqueue : WorkQueue S) : Type 0 where
  pub requeues_add :
      (s : S) (k : Str)
      → workqueue.num_requeues (workqueue.add_rate_limited s k) k ≡ workqueue.num_requeues s k + 1
  pub requeues_forget : (s : S) (k : Str) → workqueue.num_requeues (workqueue.forget s k) k ≡ 0
  pub requeues_done :
      (s : S) (k : Str) → workqueue.num_requeues (workqueue.done s k) k ≡ workqueue.num_requeues s k

module _ {S : Type 0} (workqueue : WorkQueue S) (handler : ItemHandler S) where
  -- Handle the same key n times in a row, as when nothing else touches it.
  unfoldable pub attempts : ℕ → S → Str → S × Option Error
  attempts zero s key = (s, none)
  attempts (suc n) s key = handle_queue_item_object workqueue handler (attempts n s key).0 key

module _ {S : Type 0} (workqueue : WorkQueue S) (handler : ItemHandler S) where
  -- Whatever the handler answers and whatever it does to the queue, with `n` for the count of requeues
  -- of its key when it returns: afterwards the key is requeued at most 20 times. It is cleared when no
  -- error came; it is one more than `n`, with no error reported, when an error came and `n` is below
  -- 20; and the error is reported exactly when it came and `n` is 20 or more, and the key is cleared.
  pub requeues_bounded :
      (counts : Counts workqueue) (key : Str) (s : S)
      → let (s', err) = handle_queue_item_object workqueue handler s key in
        let n = workqueue.num_requeues (handler s key).0 key in
        (workqueue.num_requeues s' key ≤ max_retries)
        × ((handler s key).1 ≡ none → workqueue.num_requeues s' key ≡ 0)
        × (is_some (handler s key).1 ≡ true
            → n < max_retries
            → (workqueue.num_requeues s' key ≡ n + 1) × (err ≡ none))
        × ((is_some err ≡ true) ↔ (is_some (handler s key).1 ≡ true) × (max_retries ≤ n))
        × (is_some err ≡ true → workqueue.num_requeues s' key ≡ 0)
  unfolding handle_queue_item_object
  requeues_bounded counts key s =
      let t = (handler s key).0 in
      let a = counts.requeues_add t key in
      let f = counts.requeues_forget t key in
      let d = counts.requeues_done (workqueue.add_rate_limited t key) key in
      let g = counts.requeues_done (workqueue.forget t key) key in
      (
        ground (arith, a, f, d, g),
        ground (arith, a, f, d, g),
        ground (arith, a, f, d, g),
        ground (arith, a, f, d, g),
        ground (arith, a, f, d, g),
      )

-- A call on the queue that does not wait for the mutex: a Run that starts or panics, or a deferred
-- function of one that ends.
pub data Called (q q' : Running) : Type 0 where
  run_panicked : (workers : ℤ) → run_start workers q ≡ panics q' → Called q q'
  run_started : (workers : ℤ) → run_start workers q ≡ started q' → Called q q'
  run_ended : run_end q ≡ some q' → Called q q'

-- The states that calls lead to
pub data Calls (q : Running) : Running → Type 0 where
  no_call : Calls q q
  call : {p r : Running} → Calls q p → Called p r → Calls q r

abbrev state_of : RunStart → Running → Running
state_of (panics q) d = q
state_of blocks d = d
state_of (started q) d = q

locked-start :
    (workers : ℤ) (q : Running) → q.locked ≡ true → (state_of (run_start workers q) q).locked ≡ true
unfolding run_start
locked-start workers q l = by_workers (is_positive workers)
  where
    by_workers :
        (b : Bool)
        → (state_of
            (if b
              then if q.locked
                then blocks
                else if q.running
                then panics (record q { locked = true })
                else started (record { locked = false; running = true })
              else panics q)
            q).locked
          ≡ true
    by_workers true = rw l refl
    by_workers false = l

-- No call gives the mutex free.
Called-locked : {q q' : Running} → Called q q' → q.locked ≡ true → q'.locked ≡ true
unfolding run_end
Called-locked {q = q} (run_panicked workers e) l =
    subst (λ r. (state_of r q).locked ≡ true) e (locked-start workers q l)
Called-locked {q = q} (run_started workers e) l =
    subst (λ r. (state_of r q).locked ≡ true) e (locked-start workers q l)
Called-locked (run_ended e) l = absurd (ground (arith, e, l))

Calls-locked : {q q' : Running} → Calls q q' → q.locked ≡ true → q'.locked ≡ true
Calls-locked no_call l = l
Calls-locked (call cs c) l = Called-locked c (Calls-locked cs l)

-- A second Run with workers, on a queue that runs and whose mutex is free, panics and leaves the
-- mutex held for ever: in every state that later calls on the queue lead to, whatever they are, the
-- deferred function of a Run waits, and so does every Run with workers.
pub second_run_blocks :
    (workers : ℤ) (q : Running)
    → is_positive workers ≡ true
    → q.locked ≡ false
    → q.running ≡ true
    → (q' : Running) × (run_start workers q ≡ panics q')
      × ((later : Running)
          → Calls q' later
          → (run_end later ≡ none) × ((w : ℤ) → is_positive w ≡ true → run_start w later ≡ blocks))
unfolding run_start run_end
second_run_blocks workers q p l r = (
  record q { locked = true },
  rw (p, l, r),
  λ later cs. let h = Calls-locked cs refl in (rw h refl, λ w k. rw (k, h)),
)
