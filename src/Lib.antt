-- ===== src/Lib.antt =====
-- The control plane of frp-cluster: which nodes (frps servers) there are and how well they do,
-- which clients (frpc) and proxies use them, and which node a client should use next.
--
-- The program. `Store` (internal/control/store.go) holds a `ClusterState` behind a lock and
-- writes it to a file after every change. Nodes join under a join token (token.go), send
-- heartbeats with measurements and traffic (service.go, traffic.go) and leave; the plugin hook of
-- frps reports logins and proxies (ApplyPluginEvent); each heartbeat, leave and plugin event
-- recounts the clients and the proxies of the nodes, advises clients to move to a better node and
-- writes an event; a client that asks for its configuration is given nodes by preference, by its
-- pin and by its mode. Administrators, and a loop over the pending advice, switch clients. The
-- HTTP API (api.go, runtime.go) decodes a request, asks for a session where the route is for
-- administrators, calls the store and answers; it signs administrators in by a password or by
-- codes of an authenticator (totp.go), and writes settings into environment files.
--
-- The model. An operation is a function from what it meets (`Env`: the clock, random bytes and how
-- the save goes) and the store to a result and the store that it leaves, on errors too; the lock
-- makes it one step. A map is an association list whose order stands for an order of Go's
-- `range`; pointers into a map are changes of the entry under its key. An instant is a number of
-- nanoseconds since the zero time, an `int` or `int64` an integer, whose increments, sums and
-- differences wrap around where the model says so; text is the list of its code points.
--
--   Base, Text, Dict, Sort   numbers, lists, the functions of `strings`, maps, `sort.Slice`
--   Types, Requests          internal/control/types.go, and the errors
--   Ids                      sanitizeID, cleanList, proxyID; the control URLs of store.go
--   Events, Store            addEventLocked, currentMonth, saveLocked, defaultState (store.go)
--   Tokens                   internal/control/token.go
--   Network                  measurements and scores (service.go)
--   Selection                onlineNodesLocked to selectNodesForClient (service.go)
--   Counts, Migrations       recomputeNodeCountsLocked, applyMigrationRecommendationsLocked
--   Traffic                  internal/control/traffic.go
--   Nodes                    JoinNode, HeartbeatNode, LeaveNode and their variants (service.go)
--   Clients                  SetClientTarget, AutoSwitchClientTarget, AutoSwitchCandidates
--   Content, Plugin          normalizePluginEvent, ApplyPluginEvent (service.go)
--   Config, Merge            load, ensureMaps, UpdateConfig, MergeState (store.go)
--   Snapshot                 Snapshot, PeerURLs (store.go)
--   ProxySpec, FrpConfig     internal/control/config.go
--   Dns                      internal/control/dns.go
--   EnvFile                  internal/control/envfile.go
--   AdminConfig              internal/control/admin_config.go
--   Totp                     internal/control/totp.go
--   Api                      internal/control/runtime.go and api.go: the sessions in Auth, the
--                            handlers in Login, Admin, SettingsFiles, Cluster, Files, Peers and
--                            Probe, the web files in Web, the routes in Router, what all
--                            handlers do in Guarded and Open
--   Run                      runs of operations on one store, and their invariant
--   Examples                 a small cluster on which the theorems are applied
--
-- A handler of the API is a function from the world (`World`: the clock, the random bytes, how
-- files and saves go, and the code outside) and a request to a response and the API that it
-- leaves. The response is a status with its content as a value, before it is written as JSON.
--
-- Bounds. All loops but one run over a list or over the number of bytes of a word. The loop that
-- writes the bytes of the network probe takes fuel, one more than the size has whole chunks of 32
-- KB, and it is shown that more fuel writes no more. The log has at most 500 events, the samples
-- are at most 100,000; a line of an environment file is shorter than 64 KB, as the scanner of the
-- source wants; counters are below 2^63, which the theorems on them ask for, and the counter of a
-- code is a word of 64 bits. A duration between two instants is taken as exact, where Go's stops
-- at 292 years. One operation reads the clock once in the model, where the source may read it
-- again a moment later.
--
-- Parameters. Base32, HMAC-SHA1, url.Parse and time.ParseDuration are arguments, of which a
-- theorem uses only what it names; so are the DNS hook and the command that restarts the agent,
-- by their outcome.
--
-- Not modelled: the bytes of JSON, in the state's file and in bodies (a request comes with what
-- each handler decodes from it); what http.ServeFile does with the file that it is given, the
-- attributes of the cookie, the common headers and the redirects of ServeMux; the text of the
-- authenticator's URI; the client of the AliDNS API (cmd/frp-cluster/dns_alidns.go), which sends
-- requests through the vendor's package; and the command line (cmd/frp-cluster/main.go), whose
-- work is flags, processes, signals and HTTP clients around the operations here.
pub mod Content
pub mod Base
pub mod Text
pub mod Dict
pub mod Sort
pub mod Ids
pub mod Types
pub mod Requests
pub mod Network
pub mod Selection
pub mod Events
pub mod Store
pub mod Counts
pub mod Migrations
pub mod Tokens
pub mod Traffic
pub mod Nodes
pub mod Clients
pub mod Plugin
pub mod Dns
pub mod Snapshot
pub mod ProxySpec
pub mod FrpConfig
pub mod Totp
pub mod Api
pub mod EnvFile
pub mod AdminConfig
pub mod Run
pub mod Examples
pub mod Merge
pub mod Config
