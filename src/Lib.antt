-- ===== src/Lib.antt =====
-- Verification of the macOS virtual kubelet, which runs the containers of a Kubernetes pod on a
-- macOS host: the first container of a pod in a macOS virtual machine, the others in Docker.
--
-- The parts and how they meet. The provider (pkg/provider) asks the client of the groups
-- (pkg/client/vz.go) to create, delete and look up the group of a pod. That client hands the first
-- container to MacOSClient and the others to DockerClient (pkg/resourcemanager), which each keep a
-- table of what they have created (internal/data) and create in goroutines of their own. A virtual
-- machine starts with one of two permits and is reached by one SSH connection (internal/sshconn).
-- The provider maps what the two clients report to the status of the pod, and resolves the secrets
-- with which its images are pulled. The image of a virtual machine comes through the download manager
-- (pkg/downloader) into the store of pkg/oci, which writes its disk with internal/disk. Once a virtual
-- machine runs, the client waits until it accepts SSH and runs the post-start hook of the pod.
--
-- The files:
-- - Common: numbers, lists, options and Boolean tests that all parts share, and Go's errors.
--   Common/Runs is code that acts on the world: the list of what it did, and its outcome.
-- - Store: the concurrent map of github.com/puzpuzpuz/xsync, an interface whose laws are what its
--   documentation says; Store/Assoc is a list that meets it.
-- - Resource: pkg/resource/virtual_machine.go and container.go.
-- - Status: pkg/provider/virtualizationgroup_to_pod.go. Status/Phase is
--   getPodPhaseFromVirtualizationGroup, Status/Conditions getPodConditionsFromVirtualizationGroup,
--   Status/ContainerStates the two functions for container states, Status/Pod buildPodStatus.
-- - MacosClient: pkg/resourcemanager/macos.go and macos_permits.go with internal/data/vm. VmData is
--   the table, Permits acquirePermit, releasePermit and permitGuard, Creation CreateVirtualMachine
--   with its goroutine, Deletion DeleteVirtualMachine and the lookups.
-- - SshConn: internal/sshconn/connection.go. Lifecycle is about the sections under the mutex,
--   Sessions about NewSession; Dialing is pkg/resourcemanager/macos_ssh.go.
-- - VzClient: pkg/client/vz.go, with pkg/vm/validator.go and internal/utils/resource_extractor.go.
--   Groups has the lookups, Creations CreateVirtualizationGroup, Deletions
--   DeleteVirtualizationGroup, Routing the choice of a client for exec, attach and logs.
-- - Docker: pkg/resourcemanager/docker.go, with internal/data/container. Creation has
--   CreateContainer with its goroutine, Removal RemoveContainers, Reports the states and statistics,
--   Names the names of containers, Pulls pullImage and the wait of a post-start hook, Configs what
--   Docker is asked for, Cleanup what the start removes, Queries the questions about a pod.
-- - Provider: pkg/provider/macosvz.go, Provider/Credentials pkg/provider/pod_credentials.go.
--   Provider/Statuses and Provider/Deletions are about what it answers and deletes;
--   Provider/CpuLabel is internal/utils/apple_cpu.go.
-- - GuestConfig: hostName and sanitizeBase of internal/guestcfg/guestcfg.go.
-- - Guest: pkg/resourcemanager/macos_stats.go and internal/utils/cmd.go, what is read from a guest and
--   the commands for its shell. Guest/Sessions is internal/ssh/macos.go with
--   internal/node/terminal.go, Guest/Exec ExecInVirtualMachine with internal/execerror.
-- - Settings: internal/envcfg and internal/podstatus.
-- - PostStart: pkg/resourcemanager/macos_poststart.go, the wait for SSH and the hook.
-- - Volumes: internal/volumes/mounts.go. Volumes/Plan is what a pod asks for, Volumes/Execution and
--   Volumes/Laws what is made of it where the file system obeys and where it does not.
-- - Vm: pkg/vm/config and pkg/vm/instance.go, setupVM of pkg/resourcemanager/macos.go and
--   internal/utils/clonefile.go. Overlays and Removal follow the clones of the disks, Shares the
--   directories that a guest sees, Life the start of an instance.
-- - Network: internal/netutil, with MAC addresses, the search in the output of arp, and the choice of
--   an interface.
-- - Metrics: GetStatsSummary of pkg/metrics/metrics.go.
-- - Credentials: pkg/resource/registry_credentials.go; Credentials/Pull is
--   pkg/provider/image_pull_credentials.go.
-- - Oci: the store of pkg/oci. Oci/Processing is oci_processor.go; Oci/Lookup has Fetch,
--   Resolve, Tag and GetConfig, Oci/Pushes is about what a push records, Oci/Runs about sequences of
--   operations, and Oci/Config is config.go.
-- - Disk: DecompressFileWithPath of internal/disk/compression.go; Disk/Digests is validator.go and
--   digest.go, with the histories of a file and its digest file.
-- - Downloader: pkg/downloader/manager.go, the goroutines that share one download;
--   Downloader/Download is download.go, with Attempts about its result and Directory about the cache.
-- The files named Examples, LifeExamples and DownloadExamples apply the theorems to concrete values.
--
-- How code becomes definitions. A function that reads and writes a client takes and gives the state
-- of the client. A goroutine is a record with the stage it has reached, and a step runs it up to the
-- next call of foreign code, with the outcome of that call as an argument; a step relation lets any
-- other goroutine act in between. A call that blocks is `none`. Calls with no result that the code
-- uses are listed as effects or events. A time is a number of nanoseconds, 0 the zero time; a
-- pointer that may be nil is an Option; an error is a value of GoError, `none` being nil.
--
-- Parameters: the SHA-256 digest, the Verifier of a digest, errors.Is, errors.AsType and
-- errdefs.IsNotFound, the verbs %d and %q of fmt, time.Parse, json.Marshal and json.Unmarshal,
-- sort.Strings, the image parser of oras and of github.com/distribution/reference, the Lookup of
-- the docker keyring of Kubernetes, the limits of Virtualization.framework, and the arithmetic of
-- float64. The answers of Docker, of the Kubernetes API, of the file system, of
-- Virtualization.framework, of the memory store of oras and of sessions of SSH are arguments too;
-- so are os.Getenv, the parsers of private keys, filepath.Join and Base, base64, the backoff loop
-- of k8s.io/apimachinery, strconv.Quote, time.ParseDuration, net.ParseMAC, net.ParseIP and
-- net.ParseCIDR. Only the inner loop of the decompression has fuel, the length of what it goes
-- over; the other loops range over lists, and a goroutine runs step by step through its stages.
--
-- Not modelled: logs and tracing, the bytes of the streams of exec, attach and logs, the goroutines
-- of a terminal once they run, what a cancellation does to a session, the poll of a graceful
-- shutdown, the compression of images and the reads of their files, the transfer of a download, the
-- fields that the node takes from gopsutil, the sinks of events, the capture of packets, the script
-- that a guest runs for its statistics, the collectors of Prometheus, the objects that
-- Virtualization.framework gives back, and the start of the process. Each method of a concurrent
-- map and each section under a mutex is one atomic step; the two steps on the nested maps of
-- internal/data/container are taken as one.
mod Common
pub mod GuestConfig
pub mod Guest
pub mod Settings
pub mod PostStart
pub mod Oci
pub mod Network
pub mod Metrics
pub mod Provider
pub mod Resource
pub mod Status
pub mod SshConn
pub mod VzClient
pub mod Docker
pub mod Credentials
pub mod Disk
pub mod Downloader
pub mod Store
pub mod Volumes
pub mod Vm
pub mod MacosClient
