-- ===== src/Queue/Examples.antt =====
-- The work queue on an association list of counts, and the theorems of Queue/Retries.antt on it.
use native_kubelet.Base.{
  ℕ, ◌+◌, ◌≤◌, ◌<◌, Str, codes, Dict, lookup, insert, lookup-insert_self, is_positive, pos, true,
  false, Option, none, some, is_some, [], ◌∷◌, ◌≡◌, ◌↔◌, refl, ℤ,
}
use native_kubelet.Errdefs.{message}
use native_kubelet.Queue.{
  WorkQueue, ItemHandler, max_retries, handle_queue_item_object, Running, panics, blocks, run_start,
  run_end,
}
use native_kubelet.Queue.Retries.{Counts, Calls, requeues_bounded, second_run_blocks}

abbrev or_zero : Option ℕ → ℕ
or_zero none = 0
or_zero (some n) = n

abbrev counting : WorkQueue (Dict ℕ)
counting = record {
  add = λ s k. s;
  add_rate_limited = λ s k. insert k (or_zero (lookup k s) + 1) s;
  add_after = λ s k t. s;
  forget = λ s k. insert k 0 s;
  done = λ s k. s;
  num_requeues = λ s k. or_zero (lookup k s);
  len = λ s. 0;
  get = λ s. (s, none);
  shut_down = λ s. s;
}

counting-Counts : Counts counting
counting-Counts = record {
  requeues_add = λ s k. rw lookup-insert_self;
  requeues_forget = λ s k. rw lookup-insert_self;
  requeues_done = λ s k. refl;
}

abbrev failing : ItemHandler (Dict ℕ)
failing s key = (s, some (message (codes "boom") []))

abbrev pod_key : Str
pod_key = codes "default/web-0"

abbrev wq_empty : Dict ℕ
wq_empty = []

abbrev tired : Dict ℕ
tired = (pod_key, 20) ∷ []

requeues_bounded_example :
    let (s', err) = handle_queue_item_object counting failing tired pod_key in
    let n = or_zero (lookup pod_key tired) in
    (or_zero (lookup pod_key s') ≤ max_retries)
    × ((failing tired pod_key).1 ≡ none → or_zero (lookup pod_key s') ≡ 0)
    × (is_some (failing tired pod_key).1 ≡ true
        → n < max_retries
        → (or_zero (lookup pod_key s') ≡ n + 1) × (err ≡ none))
    × ((is_some err ≡ true) ↔ (is_some (failing tired pod_key).1 ≡ true) × (max_retries ≤ n))
    × (is_some err ≡ true → or_zero (lookup pod_key s') ≡ 0)
requeues_bounded_example = requeues_bounded counting failing counting-Counts pod_key tired

second_run_blocks_example :
    (q' : Running) × (run_start (pos 2) (record { locked = false; running = true }) ≡ panics q')
    × ((later : Running)
        → Calls q' later
        → (run_end later ≡ none) × ((w : ℤ) → is_positive w ≡ true → run_start w later ≡ blocks))
second_run_blocks_example =
    second_run_blocks (pos 2) (record { locked = false; running = true }) refl refl refl
