-- ===== src/Lib.antt =====
-- GORB, a REST front end of IPVS, the load balancer of the Linux kernel, written in Go.
--
-- The daemon keeps a context: the virtual services, their backends, and where to register both. The
-- REST handlers change it under a mutex; each change is validated, written to an external store,
-- passed on to IPVS and then recorded. Every backend has a health check that runs by itself and
-- sends its metrics to a loop of the daemon, which gives a failing backend weight 0, stashes its
-- weight, and restores it with the health.
--
-- The files, by the code that they model:
--   Util/Net, Util/Interval, Util/DynamicMap   util/net.go, util/time.go, util/map.go
--   Ipvs                                       ipvs-shim/ipvs_shim.go
--   Disco                                      disco/disco.go, disco/consul.go
--   Pulse/Options, Status, Metrics, Driver     pulse/*.go: Validate, StatusType and ID,
--                                              Metrics.Update, the drivers, New and Stop
--   Pulse/Loop                                 pulse/pulse.go: Loop, as steps beside its consumer
--   Core/Options, Core/Payload                 core/options.go: Fill, CompareStoreOptions, the JSON
--                                              documents
--   Core/Store                                 core/store.go: put, getID and what calls put
--   Core/Store/Reading, Setup                  core/store.go: Sync and what it reads; NewStore
--   Core/Context                               core/context.go: the types service, backend, Context
--   Core/Context/Services, Backends, Queries   core/context.go: create, update, remove, Close, Get
--   Core/Start                                 core/context.go: NewContext
--   Core/Runtime                               core/runtime.go: processPulseUpdate
--   Core/Sync                                  core/context.go: Synchronize
--   Core/Daemon                                core/runtime.go: run, in turns with the handlers and
--                                              the ticker of core/store.go
--   Core/Exporter                              core/prometheus_exporter.go: collect
--   Http                                       http.go: the handlers and writeError
--   Main                                       main.go: main up to the routes
--   Link, Link/Names, Link/Ports               gorb-docker-link/main.go: the requests, the names,
--                                              and main with invokeFunc
-- A function of the source has the name of its Go function in small letters (createService is
-- create_service). The exported form, which takes the mutex and calls it, is the same function. The
-- other files hold lemmas: Core/Context/Rules, Calm, Create, Attach, Detach, Remove, Weight and Total
-- on the operations, Core/Invariant on the whole daemon, Core/Removal and Core/Vip on sequences of
-- operations, Core/Runtime/Stashing, Feed and Outage on the stash, Core/Sync/Agreed with
-- Core/Store/Mirror and Following on a store that agrees with the context, Core/Sync/Services,
-- Backends and Followed on what Synchronize reaches, Core/Sync/Total and Returning, Quiet and Stuck
-- on when it returns and when it panics, Core/Sync/Defaults, Core/Store/Documents on the store as a
-- map of documents, Core/Store/Keys and Urls, Core/Start/Started, Main/Lasting on the daemon from its
-- start, with Main/Keeping, Core/Sync/Keeping and Core/Daemon/Keeping on what a run keeps if each
-- operation does, Ipvs/Table on the services that a trace leaves in IPVS, with Core/Kernel and
-- Main/Serving on how those of the context agree with them, Core/Exporter/Shown, Pulse/Window and
-- Expect on the checks, Pulse/Loop/Start, Order and Ending on their goroutine, and Link/Tally, Cache,
-- Seen, Attempts and Total on the link.
--
-- An operation takes the state to an outcome (a value, an error or a panic) and the state that
-- is left, Prelude/Exec. The state is the context and a trace of the calls made outside:
-- libipvs, netlink, the resolver, Consul and libkv. How these answer is a parameter, an Env of
-- System, which sees the whole trace; so a theorem about every Env covers every behaviour of
-- them, failures included. The theorems of Core/Kernel and Main/Serving ask of it what the
-- kernel does: IPVS refuses a service that it has, and deletes one that it has. Pointers to
-- services are addresses: no two services made have the same one, so the comparison of pointers
-- in removeService and GetService is that of addresses. Go maps are association lists, and the
-- order of the list is the order of a range loop. Floats are a parameter, with the laws of IEEE
-- 754 that a theorem needs as a hypothesis. Loops are structural recursion; only Prelude/Decimal
-- has fuel, for 20 digits, where an int64 has at most 19.
--
-- What is simplified: characters outside ASCII are neither letters nor digits; the numbers of a
-- request are those that JSON decoding lets through; of a float in an option only its integral part
-- is kept; a log line has no effect. A panic ends the operation, as the recovery of net/http does,
-- with the mutex released by its defer. The two critical sections of processPulseUpdate are two
-- steps of the daemon, between which others may come; the theorems on outages take them as one.
--
-- The goroutine of a check is a step relation: Pulse/Loop lets the timer fire, the consumer
-- receive or return, and Stop be called in any order. gorb-docker-link is a program of its own:
-- its state is the table exposed and the requests sent, and a Remote answers these in view of
-- all before. Docker gives the containers that run, the events until the channel of its feed is
-- closed, and an answer for each event, whose pointers may be nil. A request names its path by
-- the elements given to path.Join; which of them make a URL that parses is a parameter.
--
-- Not modelled: the mutex, so that neither a panic nor a nested read lock can leave it held; Close of
-- the store, and the interval of its ticker, which may poll at any time; Describe and Collect of the
-- exporter, which hand its gauges to the Prometheus library; the parsing of flags in both programs,
-- the routes of main.go, and the clients that gorb-docker-link sets up; and util/json.go, which only
-- calls the JSON library. A document in the store that is an object with fewer fields than the
-- options is taken with their zero values.
pub mod Prelude
pub mod Util
pub mod Pulse
pub mod Core
pub mod System
pub mod Ipvs
pub mod Disco
pub mod Http
pub mod Link
pub mod Main
pub mod Tests
