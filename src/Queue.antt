-- ===== src/Queue.antt =====
-- internal/queue/queue.go: a work queue whose failing keys are retried a bounded number of times.
-- The client-go work queue and the handler are parameters: they act on a state `S` of the caller.
pub mod Retries
mod Examples
use native_kubelet.Base.{
  codes, [], ◌∷◌, ℕ, zero, suc, Str, ltb, is_positive, ℤ, if◌then◌else◌, Bool, true, false, Option,
  none, some,
}
use native_kubelet.Errdefs.{Error, wrapped}

abbrev pub max_retries : ℕ
max_retries = 20

-- The methods of workqueue.RateLimitingInterface that the package calls.
pub record WorkQueue (S : Type 0) : Type 0 where
  pub add : S → Str → S
  pub add_rate_limited : S → Str → S
  pub add_after : S → Str → ℕ → S
  pub forget : S → Str → S
  pub done : S → Str → S
  pub num_requeues : S → Str → ℕ
  pub len : S → ℕ
  -- `none` when the queue is shut down
  pub get : S → S × Option Str
  pub shut_down : S → S

-- ItemHandler
abbrev pub ItemHandler : Type 0 → Type 0
ItemHandler S = S → Str → S × Option Error

module _ {S : Type 0} (workqueue : WorkQueue S) where
  unfoldable pub enqueue : S → Str → S
  enqueue s key = workqueue.add_rate_limited s key

  unfoldable pub enqueue_without_rate_limit : S → Str → S
  enqueue_without_rate_limit s key = workqueue.add s key

  unfoldable pub forget : S → Str → S
  forget s key = workqueue.forget s key

  unfoldable pub enqueue_after : S → Str → ℕ → S
  enqueue_after s key after = workqueue.add_after s key after

  unfoldable pub empty : S → Bool
  empty s = elim (workqueue.len s) [ zero ↦ true | suc n ↦ false ]

abbrev pub forgetting : Str
forgetting = codes "forgetting %q due to maximum retries reached"

-- What follows the call of the handler, up to the deferred Done.
module _ {S : Type 0} (workqueue : WorkQueue S) where
  unfoldable pub after_handler : Str → S × Option Error → S × Option Error
  after_handler key (s, none) = (workqueue.forget s key, none)
  after_handler key (s, some err) =
      if ltb (workqueue.num_requeues s key) max_retries
      then (workqueue.add_rate_limited s key, none)
      else (workqueue.forget s key, some (wrapped forgetting (key ∷ []) err))

module _ {S : Type 0} (workqueue : WorkQueue S) (handler : ItemHandler S) where
  unfoldable pub handle_queue_item_object : S → Str → S × Option Error
  unfolding after_handler
  handle_queue_item_object s key =
      let (s', err) = after_handler workqueue key (handler s key) in (workqueue.done s' key, err)

  -- The error is logged, and the worker goes on: only a shutdown stops it.
  unfoldable pub handle_queue_item : S → S × Bool
  unfolding handle_queue_item_object
  handle_queue_item s =
      let (s', obj) = workqueue.get s in
      elim obj [ none ↦ (s', false) | some key ↦ ((handle_queue_item_object s' key).0, true) ]

  -- The loop of a worker, for at most as many items as the fuel; `none` if it still runs then.
  unfoldable pub worker : ℕ → S → Option S
  unfolding handle_queue_item
  worker zero s = none
  worker (suc fuel) s =
      let (s', more) = handle_queue_item s in elim more [ true ↦ worker fuel s' | false ↦ some s' ]

-- The mutex and the flag of a Queue.
pub record Running : Type 0 where
  pub locked : Bool
  pub running : Bool

pub data RunStart : Type 0 where
  panics : Running → RunStart
  -- waits for the mutex
  blocks : RunStart
  started : Running → RunStart

-- Run, up to the start of the workers.
unfoldable pub run_start : ℤ → Running → RunStart
run_start workers q =
    if is_positive workers
    then if q.locked
      then blocks
      else if q.running
      then panics (record q { locked = true })
      else started (record { locked = false; running = true })
    else panics q

-- The deferred function of Run; `none` if it waits for the mutex.
unfoldable pub run_end : Running → Option Running
run_end q = if q.locked then none else some (record { locked = false; running = false })
