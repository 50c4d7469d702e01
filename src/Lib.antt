-- ===== src/Lib.antt =====
-- Coordino is a CNI network for Kubernetes: addresses for pods (pkg/ipam), security identities and
-- policies compiled to the entries of an eBPF map (pkg/policy), routes between nodes (pkg/routing)
-- the data plane that holds the pods' endpoints (pkg/dataplane) and the pods' network namespaces
-- (pkg/netns). The controller (cmd/controller) hands out blocks of addresses, keeps the identities
-- and the policy store; the node agent (cmd/node-agent) answers the CNI plugin (cmd/cni-plugin)
-- over a socket (internal/grpc): for a pod it allocates an address inside its block and an
-- identity, sets up the pod's network and fills the data plane, and it saves its allocator in a
-- checkpoint.
--
-- Base: what all parts share. A Go string is its bytes (Base/Strings), a Go map an association
-- list with Go's lookups and writes (Base/GoMap), `%d` and `%x` are Base/Decimal and Base/Hex.
--
-- Net: the addresses of package net that the code uses, and ipToUint32 and uint32ToIP of
-- pkg/ipam/ipam.go.
--
-- Ipam/Node: NodeAllocator of pkg/ipam/ipam.go, one function a method. Its children hold the
-- invariant between bitmap and records, the outcomes of each method, and whole histories of calls
-- (Ipam/Node/History). Ipam/Controller: IPAMController of pkg/ipam/controller.go; its `run` plays
-- any calls. Ipam/Checkpoint: CheckpointManager of pkg/ipam/checkpoint.go over a file system and a
-- codec (Files: Save and Load; Restore: the records in another allocator).
--
-- Policy/Labels: both hashLabels; the digest (SHA-256 in hexadecimal) is a parameter.
-- Policy/Identity: IdentityAllocator of pkg/policy/identity.go, with whole histories of calls in
-- its child History. Policy/Selector: SelectorCache of pkg/policy/selector_cache.go; what other
-- goroutines do between the two locks of EvaluateSelector is a parameter. Policy/Rules,
-- Policy/Merge and Policy/Compiler: pkg/policy/compiler.go and pkg/policy/platform_rules.go; the
-- compiler is a state monad over allocator and cache in which a nil dereference is a panic.
-- Policy/Store: PolicyStore of pkg/policy/policy_store.go. Policy/Writer: CompileRulesToMapEntries
-- of pkg/policy/ebpf_writer.go.
--
-- Routing, Routing/Select, Routing/Bgp and Routing/Vxlan: pkg/routing/routing.go, bgp.go and
-- vxlan.go. Dataplane/Maps and Dataplane/Loader: MapManager of pkg/dataplane/maps.go and
-- EBPFDataPlane of pkg/dataplane/loader.go, with net.IP.String as a parameter. Dataplane/Iptables:
-- IptablesDataPlane and DetectKernelSupport of the same file; Dataplane/Interface: its interface
-- DataPlane as a record, with both data planes as instances. Dataplane/Programs: the table of
-- pkg/dataplane/ebpf/programs.go.
--
-- Netns: LinuxNetnsManager of pkg/netns/netns.go over any NetlinkOperator of pkg/netns/netlink.go;
-- Netns/Simulated is the simulated operator. Nodeisolation: HostPolicy of
-- pkg/nodeisolation/host_policy.go. Encryption: Manager of pkg/encryption/wireguard.go.
-- Observability/Flowlog: the exporters of pkg/observability/flowlog.go, and in its children Events
-- and Queue their histories with the goroutines that read.
--
-- Rpc: the messages of internal/grpc/protocol.go and the interface RequestHandler; Rpc/Transport:
-- handleConnection and Client, over JSON and a connection as parameters; Rpc/Exchange: a request
-- from end to end. Agent: the node agent of cmd/node-agent/main.go, over an Environment of netlink
-- operator, data plane, file system, codec, hashes and texts; its handler is an instance of
-- RequestHandler. Agent/Reconcile: the periodic reconciliation. Agent/Startup: NewNodeAgent, Start
-- and Stop. Agent/Handler: the outcomes of HandleAdd; Agent/Undo: what ADD and DEL give back;
-- Agent/Reach and Agent/Safety: the states that the agent reaches. Plugin: cmd/cni-plugin/main.go,
-- which calls the agent through Rpc/Transport; Plugin/EndToEnd puts plugin, transport and agent
-- together. Control: cmd/controller/main.go, with each loop's body as one step.
--
-- Examples: the theorems at concrete inputs.
--
-- Conventions. A method with a mutex is one step of its state. uint32 arithmetic has its wrap
-- written out; `int` is unbounded where the code only counts items of a slice or a map, and the
-- shifts of pkg/ipam have the bounds of 64 bits. Reference counts stay on ℕ, since an entry whose
-- count falls to 0 is deleted. A range over a map goes in the order of its list, one of the orders
-- that Go may take. The clock's readings are arguments. What net.ParseCIDR returns is an argument.
-- The only fuel is that of the digit loops: one more than the number is enough, since every step
-- divides it.
--
-- Not modelled: GetMapStats of pkg/dataplane/maps.go, whose ratio is a float, and RecoverMaps
-- there, which does nothing; the stubs of EBPFWriter in pkg/policy/ebpf_writer.go; the metrics and
-- traces of pkg/observability, whose registry and tracer keep nothing; the listening socket of
-- internal/grpc; the API types, which are records without behaviour; the HTTP endpoints, tickers,
-- flags and signals of the commands. Several readings of the clock in one call are one argument.
-- Real netlink, eBPF and kernel calls are stubs in the code. UpdateIdentity changes an entry that
-- a map returned by GetEndpoints may share; no such alias is kept here.
pub mod Base
pub mod Net
pub mod Agent
pub mod Control
pub mod Dataplane
pub mod Encryption
pub mod Examples
pub mod Ipam
pub mod Netns
pub mod Nodeisolation
pub mod Observability
pub mod Plugin
pub mod Policy
pub mod Routing
pub mod Rpc
