-- ===== src/Lib.antt =====
-- Verification library of kube-combo, the operator that runs VPN gateways (OpenVPN and strongSwan),
-- keepalived groups, debuggers and pingers in a Kubernetes cluster.
--
-- The parts and how they interact. A user's object passes the webhook of its kind (api/v1) and is
-- stored by the API server. The work queue then calls the reconciler of the kind
-- (internal/controller), whose handler fetches the object, checks it again, builds and writes what
-- it stands for, and answers the queue. A KeepAlived gets a virtual router id that is free in its
-- namespace. A VpnGw names a KeepAlived and becomes a StatefulSet or a DaemonSet with one container
-- for each server; its IpsecConns are checked, rendered to one text, and loaded by a command that
-- is run in each pod.
--
-- The files and the code that they model:
--   Api            the specs and statuses of api/v1/*_types.go
--   Webhook        api/v1/vpngw_webhook.go, keepalived_webhook.go and ipsecconn_webhook.go:
--                  `Default`, `ValidateCreate`, `ValidateUpdate`, `ValidateDelete`
--   Sync           internal/controller/values.go, stats.go and the switch of each `Reconcile`
--   Keepalived     internal/controller/keepalived_controller.go: Alloc is `findNextAvailableID`,
--                  Handler the rest up to `Reconcile`; Store says what the API server's reads and
--                  writes do to the stored objects of a kind with a status subresource
--   Workload       the fields of pods and workloads that the builders set, and the monad of the
--                  builders: a step returns an object, returns nil, or panics
--   VpnGw          internal/controller/vpngw_controller.go: Validate (`validateKeepalived`,
--                  `validateVpnGw`), Status (`isChanged`, `UpdateVpnGW`), Ipsec
--                  (`validateIPSecConns`), Port (`getPortInt32`), Build (`statefulSetForVpnGw`,
--                  `daemonsetForVpnGw`), Client (the calls of the API server), Refresh
--                  (`getVpnGwPodNames` and the refresh of the connections), Exec (pod_exec.go), Handler
--                  (`handleAddOrUpdateVpnGw` up to `Reconcile`)
--   Debugger       internal/controller/debugger_controller.go: Validate (`validateDebugger`,
--                  `validatePinger`), Status (`isChanged`, `UpdateDebugger`), Volumes
--                  (`getVolumesMounts`), Envs (`getEnvs`), Build (the containers, the pod and the
--                  daemonset), Handler (the rest)
--   Pinger         internal/controller/pinger_controller.go
--   IpsecConn      internal/controller/ipsecconn_controller.go
--   Tasks          internal/debugger: task.go (the task map, `CountValidTasks`), Config (config.go,
--                  `getScriptEnv`), Run (`runTask`, `formatEnv`, `StartDebugger` of debug.go)
--   Util           internal/util/util.go: `BuildURL`, `CheckProtocol` and `JoinHostPort`, Sockets (the
--                  connectivity checks), Files (`CheckFileExistence`, `InitLogFilePerm`), Http
--                  (`PostJSONString`)
--   Probes         internal/pinger/ping.go: Ping (`pingExternal`, `pingPods`, `pingNodes`,
--                  `checkAccessTargetIPPorts`, `dnslookup`), Check (`check`, `StartPinger`), Config
--                  (`ParseFlags` of config.go), Metrics (the setters of metrics.go)
--   Commands       cmd: the dispatch of cmdmain.go, Controller (controller/controller.go), Daemons
--                  (pinger/pinger.go, debugger/debugger.go)
--   Tests          sample objects, runs of the model, and the theorems at concrete inputs
--
-- The state of a reconciler is the cluster: a handler is a function `Io World` of the state, with
-- the calls of the API server as the fields of a record `Client` over an arbitrary `World`, so that
-- a theorem holds of every server that has its hypotheses. A call that panics ends the handler.
-- `int` and `int32` values are natural numbers with their bounds written out: a router id lies in
-- 1..255, a port in 1..65535. The loop over the ids takes 255 rounds, the loop's own bound; all
-- other loops are recursion on a list or a text.
--
-- Not modelled: logging, waits and the registration of the watches, which compute nothing;
-- the executor of a stream, quantities, owner references and the API server, which are parameters; the
-- conditions of the statuses, which the code neither reads nor writes. Affinity terms and
-- tolerations are opaque texts, since they are only copied and compared.
-- The start of the pinger waits for the addresses of its pod with five attempts, and
-- its loop reads a list of events and is recursion on that list.
pub mod Prelude
pub mod Text
pub mod Api
pub mod Sync
pub mod Keepalived
pub mod Webhook
pub mod Workload
pub mod VpnGw
pub mod Pinger
pub mod Debugger
pub mod IpsecConn
pub mod Tasks
pub mod Util
pub mod Probes
pub mod Commands
pub mod Tests
