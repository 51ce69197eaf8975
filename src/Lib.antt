-- ===== src/Lib.antt =====
-- nomad-csi-driver: a CSI plugin for Nomad that provisions QNAP LUNs over iSCSI or local ZFS
-- volumes. This library models its core and proves what makes it correct.
--
-- The parts and how they interact. A gRPC request reaches the CSI services (internal/csi), which
-- check it, take a lock by volume, call a backend (internal/driver) and map errors to statuses. The
-- QNAP backend's controller (internal/driver/qnap) calls the appliance through a session manager;
-- its node logs into targets, mounts devices (internal/iscsi, internal/multipath, internal/mountutil) and
-- runs a reconciler that logs out leaked iSCSI sessions. The local backend runs on every node, on zvols
-- (internal/zfs), and forwards an operation to the node that owns the volume (internal/cluster). A registry (internal/stats) keeps usage readings of the volumes on a node.
--
-- The files:
-- - Base: lists, texts as bytes, Boolean tests, equality as an instance, Go's maps and integers.
-- - Go: strconv, strings, TrimSpace and `range` over a string.
-- - Driver.Errors, Driver.Types, Driver.Backend: internal/driver/errors.go, types.go, capabilities.go
--   and driver.go. An operation is `Io S A`: a state to a result and the state it leaves; what was
--   written before an error stays written.
--   Driver.Keeps and Driver.FailsCoded have the rules for invariants and error codes of such operations.
-- - Csi.Locks, Csi.Status, Csi.Conv, Csi.Messages, Csi.Serving, Csi.Controller, Csi.Node: internal/csi/locks.go,
--   errors.go, conv.go, controller.go and node.go. `dispatch` and `serve_node` are the services: each request goes to its handler. Csi.Locks.Exclusion
--   has the concurrent handlers as a step relation.
-- - Qnap.Appliance, Qnap.Session: internal/driver/qnap/client.go. The go-qnap library is a parameter,
--   `Client`: each answer is any function of the calls and answers before, so the appliance may fail
--   at any call, reuse an index or change by itself. `in_session` is `sessionManager.do`.
-- - Qnap.Cache, Qnap.Params, Qnap.ExternalId: cache.go, params.go and externalid.go there.
-- - Qnap.Controller (DeleteVolume, VolumeExists, ExpandVolume, CreateSnapshot, DeleteSnapshot),
--   Qnap.Assemble and Qnap.Create (CreateVolume), Qnap.Listing (GetCapacity, ListVolumes,
--   ListSnapshots): internal/driver/qnap/controller.go. What makes a history of calls safe is in
--   Qnap.Controller.Safety, Qnap.Create.Own and Qnap.Listing.ReadOnly.
-- - Qnap.Portal, Qnap.Attach, Qnap.Teardown, Qnap.Node: internal/driver/qnap/node.go; the state of a node,
--   with meta.go, is in Qnap.NodeState, and Qnap.SanCache is sancache.go. Qnap.Reconciler: reconciler.go.
--   Qnap.Staged: the listings of node.go, and stats_reconcile.go.
-- - Local.ExternalId, Local.Params, Local.Size: externalid.go and params.go of internal/driver/local,
--   with the pools of internal/config/config.go. Local.Placement: placeVolume of controller.go there,
--   where what a node tells of its pool (statsFor, a local or a forwarded call) is a function of the node.
-- - Local.Wire, Local.Capacity, Local.Create, Local.Ops: forwardapi.go and localops.go there, what a node
--   does on its own volumes. Local.Forward: the dispatch of forwardapi.go and the way to the owner, with
--   internal/cluster/forward.go and resolver.go as a network. Local.Controller: the rest of controller.go.
--   Local.Node, Local.Staged: node.go and reconcile.go there. Local.Backend: the check of the pools and the
--   probe of backend.go.
-- - Host.Mounts, Host.MountTable, Host.StatFs: internal/mountutil, over a host that answers commands.
--   Host.Zfs, Host.Iscsi, Host.Multipath: internal/zfs/zfs.go, internal/iscsi/iscsi.go and
--   internal/multipath/multipath.go. Host.Wait: the polling loops of both node.go files. Host.Calls: what an
--   operation adds to the history of a host.
-- - Stats.Reading, Stats.Registry, Stats.Backoff: internal/stats/types.go and registry.go.
-- - Stats.Config, Config: internal/stats/config.go and internal/config/config.go, what follows from the
--   decoded blocks.
-- - Tests: the theorems at concrete inputs.
--
-- Bounds and fuel. Numbers of Go's `int` and `int64` are integers over the native naturals; the
-- doubling of durations in `backoff` and the sizes of Local.Size, Local.Capacity, Local.Ops and Host.StatFs wrap around as int64 does, and Atoi refuses what does not fit.
-- Two loops run on fuel: Go.Trim, on the length of the text, of which each step takes a byte; and the
-- waits of Host.Wait, on timeout / 250 + 2 rounds, which Host.Wait.Ends shows to be enough. The digits of a
-- number are by recursion on `Acc`, the doublings of `backoff` by recursion on their number, and every
-- other loop by recursion on its list. Time is in natural numbers.
--
-- Conventions. A Go map is an association list without an order that matters; the lists of Go are
-- lists; nil is `none`. Messages of errors, logs and metrics are left out. A handler runs from its
-- first line to its answer; what other handlers do at the same time shows in the locks that it finds.
-- In a sweep of the reconciler the answers of multipathd and of symlinks are functions of the path.
--
-- JSON between nodes carries plain data and is read as it was written; the network decides whether a
-- call arrives and an answer comes back. A panic of a handler is recovered as Internal. `holdersFn` of
-- the QNAP node is a parameter, and so are the answers of `filepath.Glob`, one match a line,
-- and `time.ParseDuration`.
--
-- Not modelled: the construction of the backends, the tree walk, Nomad's HTTP API, the HCL decoder, and
-- the command line. They are further work, or input and output without logic of their own.
pub mod Base
pub mod Driver
pub mod Go
pub mod Csi
pub mod Host
pub mod Config
pub mod Local
pub mod Qnap
pub mod Stats
pub mod Tests
