-- ===== src/Lib.antt =====
-- The Kubernetes local volume plugin: volumes on the disks of a node, made with LVM.
--
-- Four parts work together through objects of the API server. The scheduler's extender filters and
-- scores nodes for a pod by the sizes of its claims, and before it binds the pod it updates the status
-- of the node's local volume, which lists preallocated claims. The CSI driver on the node makes,
-- formats and mounts a logical volume, and tags the persistent volume. The agent on the node writes
-- the sizes of the volume group into the status and releases the preallocated claims that are bound,
-- and its collector removes the logical volume of a released volume. A controller takes objects from
-- informers to the agent's reconcilers by a work queue.
--
-- Base has the shared helpers: tests on the native ℕ, lists, texts, dictionaries, ℤ. A text is a
-- sequence of characters, and a character of a space is one of those below 256.
-- Fault has errors and outcomes: a value, an error, or a panic (a nil pointer that is read).
-- Host is the machine and the API server: every call outside the program is an event of a history,
-- and the host answers by the history so far; it is any function of this kind. Host/Commands has the
-- command lines, Host/Laws the rules for what a
-- program keeps of a history.
-- Types is pkg/common/types/types.go and the slices of pkg/common/utils/util.go; Types/Objects has
-- the fields that are read of the Kubernetes objects, and pkg/apis/storage/v1alpha1.
-- Quantity is the arithmetic of sizes. float64 is modelled as rounding to 53 bits, with fuel for ten
-- doublings of its unit, which is enough for every int64 (Quantity/Rounding).
-- Scheduler is pkg/scheduler: Scheduler itself utils.go, Handlers predicate.go, prioritize.go and
-- preemption.go, Binding bind.go, Routes routes.go. A handler reads one state of the caches. A uint64
-- wraps round at 2 ^ 64. The order in which Go ranges over a map is that of the dictionary.
-- Lvm is pkg/common/lvm, Mounter pkg/common/mounter/mounter.go.
-- Driver is pkg/driver: Filesystem utils.go, Node nodeserver.go, Services controllerserver.go and
-- identityserver.go, Start driver.go. NodePublishVolume is cut into the functions that its comments
-- and guards name, and `publish` puts them together in the order of the code.
-- Agent is pkg/agent: Reconciler agent.go and agent_reconciler.go, Gc gc.go and gc_reconciler.go.
-- Controller is pkg/common/controller: the calls on the work queue are a list, in order.
-- What processNextWorkItem does is a list of acts, in order: its calls on the queue, and its call of the
-- reconciler. Controller/Queue runs a worker of Impl.Run on a queue for a number of rounds;
-- Controller/Queue/Workers has several workers: taking a key and each single act is a step, and the
-- steps of the workers come in any order. Controller/Queue/Closing is the end of Run: its goroutine and its workers take turns in a given order, and a round of a worker is one turn.
-- Injection is pkg/common/injection, the registry of injectors and their run. Startup is the start of a
-- process with controllers: pkg/common/sharemain/main.go, pkg/common/signals/signal.go and the
-- functions of controller.go that start informers and controllers. Startup/Config is
-- pkg/common/kubeconfig/kubeconfig.go.
-- Client is pkg/client, and the constructors that use it. Client/Factory is the factory of shared
-- informers (pkg/client/informers/externalversions), Client/Clientset the client set, Client/Typed the
-- typed client and the fake one, Client/Lister the lister, and Client/Packages the packages of
-- pkg/client/injection and pkg/client/kube/injection, which put clients, factories and informers into
-- the context of a process; the packages of Kubernetes' kinds are one function of the kind.
-- Client/Scheduling is NewLocalVolumeScheduler, Client/Agents NewAgent and NewGC: Injection runs the
-- injectors, these take from the context what they made, and Startup runs the informers.
-- Scheduler/Routing is the registration of the routes in cmd/scheduler/main.go.
-- System puts the programs together: System itself has one step for each operation of the driver, the
-- agent (the volume group that NewAgent makes included) and the bind handler, from any history, and System/Statuses the steps by which a status
-- changes.
-- An operation runs to its end before the next one; other actors' steps are the host's.
-- System/Lifecycle follows one volume from the driver to the collector.
-- Store is Go's memory where a pointer or a map is shared: Store/Volumes has the deep copies of
-- pkg/apis/storage/v1alpha1/zz_generated.deepcopy.go, Store/Pointers its methods on pointers that may
-- be nil, and Store/Edits the code of bind and Reconcile that
-- changes a copy. The other modules take an object of a cache as a value.
-- Tests has runs on a small cluster, and each theorem at an input where its hypotheses hold.
--
-- Parameters stand for code of other packages: client-go (REST clients, informers, indexers,
-- Kubernetes' own listers), JSON (unmarshal, marshal_pv), the
-- merge of patches, the resizing of file systems, random numbers, the work queue and the router
-- (operations,
-- with what their documentation says as named laws), and whether an informer's cache synchronizes.
-- The handlers take the answers of the listers as functions (Cache), and Client/Lister relates one to
-- the keys of the queue.
-- Not modelled: logging, flags, the fakes of client sets and packages, the packages of kinds that no
-- program imports, the generator of injections, locks, and the gRPC server of csi-common that runs the
-- driver's servers. A text that utils.Run hands to fmt.Errorf as a
-- format is taken as it is. Capacities are not negative.
pub mod Base
pub mod Fault
pub mod Types
pub mod Host
pub mod Quantity
pub mod Scheduler
pub mod Lvm
pub mod Agent
pub mod Mounter
pub mod Driver
pub mod Controller
pub mod Injection
pub mod Startup
pub mod Client
pub mod Store
pub mod System
pub mod Tests
