-- ===== src/Lib.antt =====
-- kubernetes-switchcloud: the load balancers of tenant clusters on OpenStack, and the TLS router at
-- the edge.
--
-- The parts, and the files that model them:
--   * loadbalancer-controller/internal/openstack is Openstack.antt and its children, file by file:
--     the names and tags of sweep.go, loadbalancer.go and securitygroup.go are Openstack/Names,
--     floatingip.go is Openstack/FloatingIp, loadbalancer.go is Openstack/LoadBalancer,
--     securitygroup.go is Openstack/SecurityGroup, portattach.go is Openstack/PortAttach, network.go
--     is Openstack/Network, auth.go is Openstack/Auth and sweep.go is Openstack/Sweep;
--   * loadbalancer-controller/internal/ksc/resolve.go is Ksc;
--   * loadbalancer-controller/internal/controller is Controller: service_controller.go is
--     Controller/ServiceReconciler, cluster_controller.go is Controller/ClusterReconciler and
--     ksc_watcher.go is Controller/KscWatcher;
--   * loadbalancer-controller/internal/multicluster is Multicluster: the names of the Secrets in
--     manager.go are the module itself, the rest of manager.go is Multicluster/Manager and
--     session.go is Multicluster/Session;
--   * the round of the orphan sweeper in loadbalancer-controller/cmd/main.go is Operator: it calls
--     the sweeps of Openstack/Sweep with a callback that asks the sessions of Multicluster;
--   * talos-edge-router/internal/sniproxy is Sniproxy: peek.go is Sniproxy/Peek, the routing table
--     of router.go is Sniproxy/Router, whose ranges over maps take their order as an argument, its
--     Handle is Sniproxy/Handle, ipsync.go is Sniproxy/IpSync, and the listeners of router.go and
--     of talos-edge-router/main.go are Sniproxy/Listeners;
--   * talos-csr-signer is Signer, with bootstrap/token.go as Signer/Bootstrap;
--   * provider-id-setter/main.go is ProviderId.
-- A Go function keeps its name in snake case (EnsureLB is ensure_lb, DeleteLB is delete_service_lb,
-- the two methods Reconcile are reconcile and reconcile_release); the comment above a definition
-- names the function, and a long body is cut into definitions named for their part. The reconcilers
-- call resolve.go for the configuration and the functions of the openstack package in the order of
-- the code; both sweeps use the names that the other files write.
--
-- The outside: Cloud/Types has the objects of OpenStack and Kubernetes as far as they are read, a
-- `Call` for each request, and `Api`, which answers a request by the calls made before it. Nothing
-- is assumed of the answers: they may change between calls, fail, or contradict each other, and a
-- listing may fail on any page. A function is an action of type `M`: from the log of calls made so
-- far to a result or an error and the log behind it, newest call first. Statements about calls are
-- thus statements about that log. A range over a map goes in an order that `Api` chooses. YAML
-- decoding and the parsing of prefixes are fields of `Api` too. Strings are lists of bytes; the
-- texts of errors that carry values are cut short, and logging is left out.
--
-- The parts that do not call OpenStack have their own records of answers: `Env` and `Tenants` for the
-- manager of the sessions, `IpSyncEnv`, `Crypto`, `Workload` and `Host`, each with any answers. A
-- Session is a value with its tenant, its hash and the pass that built it; the manager's state has
-- the list of those whose goroutines run beside the map of those that are published. The parallel
-- steps of one phase of a pass are taken one after the other, in an order that `Env` chooses. The
-- calls that a session makes on its workqueue are values. Times in RunIPSyncer are seconds; what a
-- sync takes, when the context is done, and what a select picks of two that are ready are arguments.
--
-- A client's connection is what it sends, piece by piece, until it closes the connection or goes
-- silent for good; the code sets no deadline, so that a Read of a silent one does not return. A
-- connection to a backend is how much its Write takes of each chunk before an error.
--
-- Loops are recursions on lists or pages. The two loops of the parser of a ClientHello run on fuel,
-- one more than the end of what they scan, which is enough since each round moves the position on
-- by three bytes or more; a run out of fuel is the value `stuck`, a read out of bounds the value
-- `panic`. The copying of Handle runs on fuel too: more than the bytes and the pieces that the
-- connection delivers is enough, since each read takes a byte or ends a piece.
--
-- Not modelled: the start of the controllers, flags and schemes in the main packages, the accept
-- loops, the informers, the copying from a backend to a client, and tenant-apiserver-proxy, which is
-- such copying between two TLS connections: all of it is input, output and calls of libraries.
pub mod Base
pub mod Cloud
pub mod Openstack
pub mod Ksc
pub mod Controller
pub mod Operator
pub mod Multicluster
pub mod Sniproxy
pub mod Signer
pub mod ProviderId
pub mod Tests
