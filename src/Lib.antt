-- ===== src/Lib.antt =====
-- native-kubelet: a virtual kubelet. It registers a node with a Kubernetes API server, watches the
-- pods that are bound to that node, and hands them to a provider; the provider of this repository,
-- cmd/virtual-kubelet/internal/provider/native, runs the containers of a pod as processes of the host.
--
-- The parts, and how they interact:
--   - The pod controller (node/podcontroller.go, node/pod.go) keeps for each pod key a *knownPod in
--     knownPods. Events of the informer, keys on three work queues (internal/queue/queue.go) and
--     notifications of the provider are its inputs; calls of the provider, of the API server and of
--     the event recorder are its outputs.
--   - Before a pod goes to the provider, internal/podutils/env.go resolves the environment of its
--     containers; it expands $(NAME) references by internal/expansion/expand.go.
--   - A provider that does not notify by itself is polled by the wrapper of node/sync.go.
--   - The node controller (node/node.go) registers the node and patches its status; the ping controller
--     (node/node_ping_controller.go) asks the provider whether it is well, and hands the last answer
--     through internal/lock/monitor.go to the node controller and the lease controller
--     (node/lease_controller_v1.go), which keeps the lease of the node.
--   - In the native provider, process_manager.go keeps a process for each pod in a database, turns a pod
--     into a chain of processes and runs it, with the files of resource_downloader.go; its events reach
--     the handlers of pod.go there, which write the status of the pod.
--   - errdefs says which errors count as "not found" and "invalid input".
--
-- Which file models which part:
--   - Base: Booleans, lists measured by native numbers, strings as lists of bytes, Go maps as
--     association lists, the integers of signed fields. Result: a value, an error or a run-time panic.
--     Kube: the fields of the Kubernetes API objects that the program reads or writes.
--   - Errdefs: errdefs/notfound.go, invalid.go, wrapped.go. Error is a data type with a cause;
--     is_not_found and is_invalid_input are IsNotFound and IsInvalidInput.
--   - Expansion: internal/expansion/expand.go. expand_loop is the loop of Expand with its cursor and
--     checkpoint, on fuel `length input + 1`: each round moves the cursor, and the theorem on Expand
--     says that the fuel never runs out. Expansion/Spec is a relation that describes the expansion
--     without indices.
--   - Queue: internal/queue/queue.go. handle_queue_item_object is one item with its retries, run_start
--     and run_end are Run with its mutex. The client-go work queue is a parameter.
--   - Podutils: internal/podutils/env.go. Sources has makeEnvironmentMapBasedOnEnvFrom and
--     getServiceEnvVarMap, Values has getEnvironmentVariableValue, Populate has makeEnvironmentMap and
--     PopulateEnvironmentVariables. A computation is a result with the events that it records. The
--     code has the cases of a configmap and of a secret twice; the model has them once, with the kind
--     as an argument. Laws, Resolved and Total have the theorems.
--   - PodController: node/pod.go and node/podcontroller.go. State has the known pods (an index into a
--     heap for a pointer, so that a handler that loaded an entry and the map share it), the calls of
--     the queues in order, the events, and the world behind the provider and the API server. Compare,
--     Provide, Sync, Status and Informer have one function for each function or handler of the code.
--     deleteDanglingPods deletes each pod in a goroutine; the
--     model takes the calls of DeletePod as atomic and their order from a schedule, its argument.
--     Reachable has the handlers as the steps of the controller; Invariant, KeepsPods and KeepsStatus
--     carry its invariant. Repeat, Terminal and Images have the theorems on single handlers.
--     enqueue_pod_status_update polls at most as often as its first argument says (20 times in the
--     code), with an arbitrary change of the state between two polls.
--   - SyncWrapper: node/sync.go. The wrapper's state is its deletion cache and the pods that it notified
--     of. Cache has the theorems on DeletePod, Causes those on polling.
--   - Monitor: internal/lock/monitor.go. Every method runs under the mutex, so any interleaving of
--     threads is a sequence of calls, which Reach of Monitor/Ready describes; a version is an int64 with
--     its wrap-around.
--   - Lease: node/lease_controller_v1.go. ensure_lease, backoff_loop, retry_loop and renew are
--     ensureLease, the loops of backoffEnsureLease and retryUpdateLease, and sync after its checks. The
--     state has what was sent and slept; the timer after each sleep is not recorded. The backoff is for ever in the code and runs on fuel here, one
--     for each round; the theorem of Ends says how much is enough. Spends and Bounds, Backoff, Ends and
--     Renewal have the theorems.
--   - NodePing: node/node_ping_controller.go on Monitor. A check is given what its select takes; Results
--     has the theorem on checks and getResult in any order.
--   - NodePatch: the three-way patch of node/node.go, with JSON and the patch of the library as
--     parameters; RoundTrip follows the annotations from one patch to the next.
--   - NodeController: the rest of node/node.go. update_status, ensure_node, loop, control_loop and run
--     are the functions of these names, over a list of what the loop's select takes, with the checks of
--     the ping controller between the rounds; Options has NewNodeController and its options. Update,
--     Kept, Loop and Configured have the theorems.
--   - Native: cmd/virtual-kubelet/internal/provider/native. Status has the handlers of pod.go there,
--     with Go's panic for an index out of range; Process has the chain, the loop PodProcess.run and the
--     decision of startContainerDaemon from process_manager.go. The loop runs on fuel: a container that
--     fails is tried for ever, so only a world in which the containers run bounds it, by the length of
--     the chain and one. It has `index`, and not the copy of it in p.Index. Trace says which runs of
--     containers a log comes from. Sized, Keeps, Attempts, Chain, Loop and Restart have the theorems. Manager has
--     RunPod, UpdatePod, DeletePod, getPods and stop over a database; Keys, Views and Refines relate it to
--     a map of pods. Env has buildContainerEnvs, Environ and Absent its theorems; Download has
--     resource_downloader.go, and Wanted its theorem; Start has the start of one container, with
--     image_puller.go and process_runner.go, and KeepsWorld, Parts, Steps and Ends its theorem.
--   - Samples and the Examples modules: concrete inputs.
--
-- Parameters: everything that is not code of the repository, and the world outside. These are the
-- provider behind the controller, the API server and its listers, go-cmp, the key functions of
-- client-go, the clock, the validation of environment names, the downward API's field paths, the
-- process database with its JSON encoding, the signals and files of the host, the retry of client-go,
-- the strategic merge patch, and the run of one container. Where a theorem needs
-- something of them, it is a hypothesis of the theorem.
--
-- Conventions: a time is a number of seconds, an interval of the node's controllers one of
-- milliseconds. A Go map is walked in the order of its association list.
-- An error keeps its format, its arguments and its cause instead of its text; logging and tracing have
-- no effect on the state and are left out. Restart policies and phases are those of the API, which
-- rejects others.
--
-- Not modelled: two handlers of one controller at the same instant (the code takes the lock of a
-- *knownPod for each access only, and a handler is one step here), the start and the end of the
-- controllers' goroutines, the filter of the informer's events (podEventFilterFunc), that one ping is in flight at most (singleflight), the images of the native
-- provider and its statistics, the restart of stored pods, the HTTP API, the commands, and the logging
-- and tracing packages.
pub mod Base
pub mod Errdefs
pub mod Expansion
pub mod Kube
pub mod Lease
pub mod Monitor
pub mod Native
pub mod NodeController
pub mod NodePatch
pub mod NodePing
pub mod PodController
pub mod Podutils
pub mod Queue
pub mod Result
pub mod Samples
pub mod SyncWrapper
