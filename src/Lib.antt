-- ===== src/Lib.antt =====
-- A model of the parts of the OADP VM file restore operator that find the Velero backups of a
-- virtual machine and that restore its files from them, and of the programs around them.
--
-- The program. A VirtualMachineBackupsDiscovery names a virtual machine and, by a time range or a
-- list of names, some backups. Its controller
-- (internal/controller/virtualmachinebackupsdiscovery_controller.go) lists the backups, chooses
-- candidates by their specs (internal/velerohelpers/backup_discovery_utils.go), examines the
-- contents of each in batches (internal/velerohelpers/backup_discovery.go) and writes the valid and
-- the invalid ones to the resource's status, a step per reconciliation. Predicates
-- (internal/predicate) decide which events start one. A second controller
-- (internal/controller/virtualmachinefilerestore_controller.go) restores files from the backups found
-- and serves them: it validates a VirtualMachineFileRestore against its discovery, finds the PVCs in
-- the backups, has Velero restore them, and makes a file server, a stage per reconciliation. Users
-- reach the files by SSH, where a forced command (containers/side-containers/sshd/oadp-sshd.go) lets
-- only downloads through.
--
-- The files.
--   Prelude          tests, lists, integers and texts that the other modules share
--   Api              the types of api/v1alpha1 that the controller reads and writes
--   Velero           Spec: ValidateVMInBackupSpec and the asynchronous operations. Resource: the
--                    texts of a resource list. Contents: BackupContainsVM, FetchBackupMetadata
--   Discovery        Cluster: the Kubernetes client as an interface, its laws, and the handlers'
--                    monad. TimeRange: api/v1alpha1/types/time.go and parseTimeRange. Select: the
--                    candidate filter and classifyRequestedBackups. Batch: processDiscoveryBatch.
--                    Finalize: finalizeDiscoveryProcess. Controller: updateStatusWithRetry, the
--                    steps and Reconcile. Invariant: soundness of a status, and of each computed
--                    one. Reconcile: rules for handlers, and Reconcile as a whole
--   FileRestore      Types: virtualmachinefilerestore_types.go. Client: the client as an interface, and
--                    the handlers' monad. Status: the writes of the status. Selection:
--                    getFilteredBackupsToServe. Extract: a worker, from getBackupMetadata to
--                    discoverPVCsFromSingleBackup. Groups: processDiscoveryResults. Restores:
--                    sortRestoresByTimestamp. Availability: the rules on the PVCs. Validation:
--                    validateAndDiscoverPVCs. Monitor: monitorVeleroRestores. Restored:
--                    validateRestoredPVCs. Workflow:
--                    executeFileRestoreWorkflow, with what it calls as the interface `Steps`.
--                    Reconcile: Reconcile. Stage: the stages of a file restore and the moves between
--                    them; below it the laws of the client, the rules for handlers, and Reconcile as
--                    an implementation of the moves
--   Sshd             Parse: parseCommand. Gate: main, handleRsync, handleScp. Environment:
--                    filterEnvironment. A command that passes ends in an exec, after which
--                    the program does nothing more, be the exec a failure
--   Names            NormalizeDNS1123Label and GenerateTemporaryVMFRNamespaceName of
--                    internal/common/function/function.go
--   Predicate        internal/predicate and HasVMFRLabel
--   Tests            the theorems at concrete inputs, with a concrete server
--
-- How state is modelled. The server is a parameter: a type of worlds, the client's calls as functions
-- from a world to a world and a result, and the laws of `IsServer`. Other writers may act at any call,
-- a read may return an old version, and a call may fail, also after it took effect. A handler takes a
-- world to a world and Go's `(requeue, err)`; an early return on an error is the monad's bind. An
-- object that Go mutates is a record that is passed on. After a status update the caller's object
-- is the server's answer if the first try succeeded, and else what it was, as in the Go code, where a
-- later try writes to the copy that was fetched. The workers of a batch run concurrently in Go and
-- write to distinct slots; here they run in the order of the batch.
--
-- A handler of the second controller also changes the object in hand, so its state is a world and that
-- object, and both stay as they are at an error. A patch of the status is a call with the object as it
-- was and as it is to be. `IsClient` says that nobody else writes phase and conditions, and that a
-- write that fails may take effect; the steps of `Steps` may do anything else, but are relied upon not
-- to write these two (`IsSteps`), which is shown of validateRestoredPVCs alone. The read at the start of
-- a reconciliation goes through the manager's cache and may be behind; as a patch of the status has no
-- optimistic lock, a reconciliation that starts from such a read can set the stage back, so the
-- theorems on the stages are about a read that is not behind, and say so.
--
-- Numbers and texts. A time is a number of nanoseconds from the zero time of Go. The counters are Go's
-- int without its bound of 64 bits, which the number of backups does not reach. A command and a
-- generated name are lists of characters; a name's characters are ASCII, as Kubernetes requires, so
-- that bytes and characters agree. `IsServer` relies on a status update storing the status as it is
-- given, though the API server cuts times to seconds, and `IsTimeFormats` on the format of any time
-- being read back, which Go does up to the year 9999. The only fuel is that of `itoa`, one more than the number printed,
-- which bounds the number of its digits. A slice out of range, at which Go panics, is `none` in Names.
-- Statistics that are nil, in a batch or in the object that finalization reads afresh, and an index
-- out of range in a batch, at all of which the Go code panics, are left as they are.
--
-- Parameters. Go's layouts of times (`TimeFormats`), the download of a backup's resource list, the
-- reader of a backup's machines and PVCs, meta.SetStatusCondition and meta.FindStatusCondition, the
-- deep comparison of statuses, the text of a quantity, the order in which concurrent workers answer,
-- and the client. A Go map that is met in an order that Go leaves open is
-- met in the order in which its keys were first set.
--
-- Not modelled. The operations behind `Steps`, which create, read and delete the objects of a restore,
-- but for validateRestoredPVCs: ensureRestoreNamespace, createVeleroRestores, ensureCredentials,
-- createFileServerResources, updateFileServingInfo, fixDataDownloadPVCNames and the cleanup; the
-- resources of the file server (container_scripts.go and, but for the choice of the PVCs that are to
-- be mounted, fileserver_helpers.go); the readers of archives
-- in backup_discovery.go, which are network and archive input; SetupWithManager, the functions that
-- map events to requests, and cmd/main.go, which wire the controllers up; secrets and key pairs;
-- logging; generated code; tests.
pub mod Prelude
pub mod Api
pub mod Velero
pub mod Discovery
pub mod FileRestore
pub mod Sshd
pub mod Names
pub mod Predicate
pub mod Tests
