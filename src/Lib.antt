-- ===== src/Lib.antt =====
-- sbomscanner: the life of a ScanJob, what may be requested of it, and the storage of what it makes.
--
-- The program scans the container images of registries. A controller process watches the cluster's
-- objects: ScanJobReconciler (internal/controller/scanjob_controller.go) takes a pending ScanJob,
-- deletes old jobs of its registry, stores a snapshot of the registry in the job's annotations and
-- publishes a CreateCatalog message. A worker process receives messages over NATS JetStream
-- (internal/messaging/subscriber.go) and runs a handler for each: CreateCatalogHandler
-- (internal/handlers/create_catalog.go) discovers the images of the registry, creates and deletes
-- Image objects, and publishes a GenerateSBOM message for each image; GenerateSBOMHandler
-- (internal/handlers/generate_sbom.go) makes an SBOM of it and publishes a ScanSBOM message, and
-- ScanSBOMHandler (internal/handlers/scan_sbom.go) a vulnerability report. VulnerabilityReportReconciler counts the reports of a job and completes
-- it; ScanJobFailureHandler fails the job of a message that was delivered too often. All of them meet
-- in the status of the ScanJob (api/v1alpha1/scanjob_types.go), which each of them reads, changes and
-- writes back. WorkloadScanReconciler (internal/controller/workloadscan_controller.go) keeps Registries
-- for the images that the pods of a namespace run; discovery reads their conditions back as tags.
--
-- The files:
--   Common and its children: names of the libraries, Boolean tests, lists and maps, Result.
--   Conditions, Job: the ScanJob with its Mark* and Is* methods; each method that mutates the job
--     returns the new one. Job.Phases and Job.History are about one call and about sequences of calls.
--   Registry: the Registry, GetRepository, validateScanJobTargets, applyTargetsToRegistry.
--   Filters: FilterByTag and IsPlatformAllowed.
--   Sets: the interface of k8s.io/apimachinery's sets.Set[string].
--   Effects: code that calls services. A run is the state of the services, of any type W, and the
--     trace of events that this code has caused, latest first. Each service is a parameter, a function
--     of W that answers with a value or an error; nothing is assumed about its answers, so that other
--     clients may act between two calls. Effects.Keeps, Triples, Adds and Yields hold one rule for
--     each way to build code, and Ends, for code that returns a value; Deferred is Go's defer;
--     Effects.Settled is about retry.RetryOnConflict.
--   Objects: Image, ObjectRef, the messages of internal/handlers/messages.go, and the events.
--   JobStore: Get and Status().Update of jobs, RecordScanJobFinished, ScanJobFailureHandler.
--   Catalog.Images, Discovery, Steps, Handler: CreateCatalogHandler, one definition for each of its
--     functions, with Handle cut into its two status updates, its loops, its cleanup and its messages.
--   Reports: VulnerabilityReportReconciler.
--   Scheduler: ScanJobReconciler.
--   Subscriber: NatsSubscriber, for one delivered message.
--   Rescans, Rescans.Runner: RegistryScanRunner (internal/controller/registry_scan_runner.go), which
--     creates ScanJobs by interval and on request.
--   Storage and its children: the storage of the aggregated API server (internal/storage/). Rows and
--     Repository hold the SQL statements as functions on the rows of a table, and the repository's
--     methods (internal/storage/repository/generic_object_repository.go); Keys and Decimals the texts
--     of keys, continue tokens and resource versions; Store the operations of internal/storage/store.go
--     with their transactions; Listing the queries of internal/storage/repository/list.go and the pages
--     they are read in; View the abstract map; Invariant sequences of operations; Watcher the replicas'
--     watch events (internal/storage/watcher.go).
--   Admission and its children: the webhooks of ScanJob and Registry (internal/webhook/v1alpha1/) with
--     their validators; Guarding and Snapshots are about sequences of requests.
--   Vulnerabilities: the summary of a report (api/storage/v1alpha1/summary.go) and the conversion of
--     trivy's reports (internal/handlers/trivyreport/trivy.go), with the packages it calls in TrivyOps.
--   Workloads and its children: reconcileRegistries of the workload controller
--     (internal/controller/workloadscan_controller_registry.go). Workloads holds the conditions of one
--     Registry, Registries the images by registry and the new Registry, Reconcile the calls of the API
--     server; Contributions, Wanted and Needed are about the conditions of one namespace, Grouped about
--     those that the images of the pods ask for, Managed,
--     Storing and Stored about a whole run, Recognized about what the worker reads.
--   Sboms and its children: GenerateSBOMHandler, ScanSBOMHandler and runTrivyScan
--     (internal/handlers/scan_sbom_helpers.go). Temporary holds the runs of trivy with their files,
--     Generate and Scan the handlers; Residues and Leftovers are about what stays on the machine,
--     Documents about where an SBOM's document comes from, the others about what the cluster and the
--     broker see. A deferred clean-up may fail: the code logs that, and the trace keeps it as `stuck`.
--   Tests: the theorems at concrete inputs, on a cluster that stores one job.
--
-- Interfaces to code of other modules and packages, each a record that the definitions take:
-- ConditionOps (meta.SetStatusCondition and FindStatusCondition) and Sets carry the laws that their
-- documentation states, and so does KeySets for sets of conditions; NameSorts says that slices.SortFunc
-- keeps the items; Retry says that RetryOnConflict runs the body some number of times, again
-- after a conflict only; Sorts says that sort.Slice keeps the items, each as often as before, and
-- leaves none behind one that the test puts it before. The registry client, the API server, the broker, the package name of go-containerregistry,
-- JSON, CEL, base64, SHA-256, %q and the clock are functions without laws. Errors are kept by the class
-- that the callers ask for; %w keeps the class. A Go panic is a result of its own, which no code here
-- recovers from. Log lines, spans and the metrics of calls are left out.
--
-- Times and counts are natural numbers; no counter that is modelled is ever subtracted below zero. All
-- loops run over lists by structural recursion; the number of attempts of a retry comes from Retry, and
-- every theorem holds for each number. The order in which Go ranges over a set is that of
-- `unsorted_list`, which Sets leaves open.
--
-- The storage is seen by one process. A call to the database or to NATS fails by its number, as the
-- parameter `Server` says, and has then done nothing; a transaction keeps the rows to restore, and the
-- deferred rollback restores them unless a commit came first. Statements of other clients between two
-- statements of a transaction are not modelled; what tryUpdate answers may depend on the number of the
-- try. The loop of GuaranteedUpdate runs on fuel, and one more than the number of the first try that
-- meets no conflict is enough. encoding/json, the accessors of the metadata and the Versioner are the
-- fields of `Kind`, with the laws of `IsKind`. The limit of a page is an int64, whose increment fails as
-- a query where it overflows. The operations return the object that setValue copies to the caller's
-- pointer; that the caller passes a pointer, without which setValue fails, is in their types.
--
-- Not modelled: node scans, whose handlers and job repeat those of image scans for another kind of
-- object; the workload controller around reconcileRegistries with its reports, and the webhooks of the
-- scan configurations and of node scan jobs, which only read and write such objects through the same
-- client; the MCP server, the API server's set-up and the commands, which are input, output and wiring;
-- telemetry beyond the job counter; generated code. Of transportFromRegistry only that it may fail is
-- kept; what BuildDockerConfigForRegistry has left on the disk where it fails is not.
pub mod Common
pub mod Conditions
pub mod Sets
pub mod Effects
pub mod Job
pub mod Registry
pub mod Filters
pub mod Objects
pub mod JobStore
pub mod Catalog
pub mod Reports
pub mod Scheduler
pub mod Subscriber
pub mod Rescans
pub mod Admission
pub mod Vulnerabilities
pub mod Workloads
pub mod Sboms
pub mod Storage
mod Tests
