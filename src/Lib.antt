-- ===== src/Lib.antt =====
-- The cluster-machine-approver: a controller that approves the certificate signing requests of the
-- kubelets of an OpenShift cluster.
--
-- The parts of the program and their files:
--   pkg/controller/csr_check.go: CsrCheck, which has the constants, with a module for each check.
--     Contents is validateCSRContents; ClientFlow is authorizeNodeClientCSR; Renewal, MachineNames
--     and Egress are the three ways to have a serving certificate; ServingCert is getServingCert;
--     Sans compares names; Conditions reads the conditions and counts the pending requests;
--     Requester is about the user; Authorize is authorizeCSR, which puts them together.
--   pkg/controller/node_client.go: NodeClient.
--   pkg/controller/controller.go: Controller. Filters are the event filters, the predicates of
--     buildWithManager, and toCSRs; Limits is reconcileLimits; Approve is approve; KubeletCa is
--     getKubeletCA and parseCSR; Reconcile is Reconcile with reconcileCSR and
--     reconcileLimitsUncached. Cluster is no code of the program: it is the API server's store and what
--     others do to it, around Reconcile, with the abstract view that Cluster.Abstract gives of it.
--   pkg/controller/config.go: Config. pkg/machinehandler/machinehandler.go: MachineHandler.
--   pkg/metrics/metrics.go: Metrics.
--   main.go: Main. Its Options are the variables that the flags set, and its Startup is main itself.
--   status.go: Status. Operator is statusAvailable and what it calls; Queue is processNextItem,
--     handleErr and runWorker; Run is Run, watchVersionGetter and the informer's handlers, and
--     Run.Goroutines is the step relation of what Run starts.
--   Kube holds the API objects and certificates, with the fields that the program touches, and in
--   Kube.Outside what is called and not implemented here. Tests holds runs on a small cluster.
-- A Go name keeps its words: authorizeServingRenewal is authorize_serving_renewal. A child module
-- named for what it proves has no definition of the code.
--
-- How they interact: an event passes a filter of Controller.Filters and becomes the name of a
-- request; Reconcile lists the requests, the machines (MachineHandler) and the nodes, applies the
-- brake, and has the request of that name authorised (CsrCheck) and approved. The brake writes the
-- two variables that the metrics read. The state of a reconcile is Controller.Limits.State: these
-- two variables, and the approvals sent, the last first. A sequence of reconciles, each with its own
-- answers of the servers and its own clock, is the relation Step of Controller.Reconcile.Runs. In
-- Controller.Cluster the approvals sent reach a store, which others change in between; a run is indexed
-- by its events, each reconcile with the answers of its own clients and of the kubelets at the time, so
-- a reconcile may read what is no longer stored. main builds the clients, groups and configuration that the controller
-- works with, and is the sequence of what it does, Action; the status controller that it starts is a
-- system of an informer, a watcher, one worker and a queue.
--
-- Errors are values: a constructor of Error for each fmt.Errorf, with the arguments that vary. A
-- pair of a value and an error, of which one is nil, is a Result, and the pair (bool, error) stays a
-- pair. A pointer that may be nil is an Option where the code asks whether it is. A filter that
-- would read through a nil pointer answers none. Logging is left out.
--
-- Numbers: int is unbounded, since it counts elements of slices; uint32 wraps modulo 2^32; instants
-- and durations are integers in nanoseconds, instants from the start of 1970. A number is written in decimal with fuel 20, and an int
-- has 19 digits at most. The other loops are structural recursion.
--
-- What the standard library does is written out in GoStd: prefixes, sorting, the comparison up to
-- case, numbers in decimal, the text of an address, the parsing of addresses, networks and times of
-- RFC 3339, and whether a network has an address. The comparison up to case folds ASCII letters itself, and folds
-- a rune beyond ASCII by a parameter, which stands for the tables of Unicode.
--
-- Parameters stand for code outside the repository: the records Libs (X.509, PEM, TLS connections),
-- StringSets (with the meaning of its two operations), Client (the answers of the workload cluster),
-- CertificatesApi, ApiServer, MachineApi, ConfigReader, OperatorApi, RateLimitingQueue with QueueView
-- and QueueLaws, and Platform (what main calls). The clock is an argument.
--
-- Not modelled: the registration with controller-runtime in SetupWithManager and buildWithManager, the
-- parsing of the command line, more than one worker of the status controller, the registration of the
-- metrics, and vendor.
mod Prelude
pub mod GoStd
pub mod Kube
pub mod MachineHandler
pub mod NodeClient
pub mod Config
pub mod CsrCheck
pub mod Controller
pub mod Metrics
pub mod Main
pub mod Status
mod Tests
