-- ===== src/Lib.antt =====
-- A model of the gRPC OSS benchmark infrastructure for Kubernetes, and what it does.
--
-- A user stores a LoadTest resource: a driver, servers and clients, each with instructions to clone,
-- build and run. The controller reads it, fills in its defaults, stores the scenarios in a
-- ConfigMap, derives the status of the test from its pods, and creates the pods that are missing
-- when every pool has room for all of them at once. The driver's pod waits in the ready init
-- container until each worker's pod is ready, and reads their addresses from a file.
--
-- Base: shared names, lists, integers (ℤ), Go's maps (Dict, an association list), texts, and the two
--   ways in which a function fails: a panic (Outcome) and an error value (Result). The text of an
--   error is kept as its format and its arguments (Message).
-- Kube: the Kubernetes objects, with the fields that the program uses.
-- Api: api/v1/loadtest_types.go.
-- Config: config/constants.go, config/defaults.go (validate for Validate, set_load_test_defaults for
--   SetLoadTestDefaults) and config/defaults_internal.go (new_image_map, build_image, run_image). A
--   setter takes the value that the pointer points at and returns it with the error; the names that
--   the UUID library gives are an argument.
-- KubeHelpers: kubehelpers/pods.go. The pointer that ContainerForName returns is a container that is
--   read and then written back.
-- PodBuilder: podbuilder/podbuilder.go. A method returns the builder, whose fields it has set, and
--   the pod or the error.
-- Status.Container, Status.LoadTest and Status.Missing: status/status.go (state_for_pod_status for
--   StateForPodStatus, for_load_test for ForLoadTest), status/relationships.go (pods_for_load_test)
--   and status/missing_pods.go (check_missing_pods). The readings of the clock and the order in which
--   Go ranges over a map are arguments.
-- Ready: containers/init/ready/ready.go (wait_for_ready_pods for WaitForReadyPods). The type of label
--   selectors, their parser and their test are parameters. The endless loop runs over the rounds
--   that the environment gives, and is still waiting when they end. Ready.Main is main, with the
--   variables of the container's environment; Ready.Main.Workers puts it behind the pod builder.
-- Controller: controllers/loadtest_controller.go. Controller.Cluster has the cluster, the clock and
--   the order of Go's maps as functions from the calls made so far, so that each answer may depend
--   on all that was done before, and the actions that make calls; Controller.Prepare has Reconcile up
--   to the update of the status, Controller.Pools the arithmetic of the pools, Controller.Schedule
--   the creation of the pods, Controller.Reconcile the whole, with get_requeue_time for
--   getRequeueTime. Controller.Effects is a logic of these actions, and Controller.Conduct uses it.
--   Controller.Filled and Controller.Gang follow gang scheduling where the API grants its calls, and
--   Controller.Converges the search for missing pods that comes after it.
-- Cleanup: cleanup/cleanup.go (reconcile_agent for Agent.Reconcile, quit_workers for quitWorkers,
--   call_quit for callQuit), by the same actions. The dial of a worker and the RPC on it are calls.
-- Runner: tools/runner/runner.go (Step has one constructor for each turn of the loops of Run, and the
--   environment chooses which running test ends next). Runner.Test is the life of one test (run_test
--   for runTest, name_string, status_string), over the answers of the cluster. Runner.Queues is
--   tools/runner/queues.go, Runner.Reports tools/runner/reporter.go and LogPrefixFmt, Runner.Configs
--   tools/runner/configs.go (decode_from_files for DecodeFromFiles), Runner.Flags
--   tools/runner/flags.go (set_level for ConcurrencyLevels.Set), and Runner.Main cmd/runner/main.go,
--   which composes them.
-- Tools: tools/delete_prebuilt_workers/delete_prebuilt_workers.go and
--   tools/prepare_prebuilt_workers/prepare_prebuilt_workers.go, over the commands that they run.
-- Commands: config/cmd/configure.go (configure for its main), which writes the defaults file, and
--   cmd/controller/main.go (controller_main for its main), which reads it.
-- Examples: concrete inputs.
--
-- Every function is total: loops are recursions on the lists that they range over. Fuel bounds the
-- digits of a number, of which there are at most as many as the number says, and the rounds of
-- decodeFromFile: one more than the file has lines, since each round but the last takes a line
-- (Runner.Configs.Documents).
-- Times are natural numbers of nanoseconds, differences of times and availabilities are integers.
--
-- Not modelled: log lines other than the reports of a test in the runner, contexts and their
-- cancellation, metadata that the code does not read, the difference of a nil and an empty slice or
-- map, memory that an append may share, and the saturation of durations beyond 290 years. Of the
-- repository, the times that the runner's reporter takes and the counts that its main logs, the client
-- set and its manual check, the main of the cleanup agent and the generated code are not modelled: they
-- log, connect, or are written by a generator.
pub mod Base
pub mod Kube
pub mod Api
pub mod Config
pub mod KubeHelpers
pub mod PodBuilder
pub mod Status
pub mod Ready
pub mod Controller
pub mod Cleanup
pub mod Runner
pub mod Tools
pub mod Commands
pub mod Examples
