-- ===== src/Lib.antt =====
-- NATS-Replicator copies messages between NATS and NATS streaming servers. This library models its
-- server and proves what the parts promise each other.
--
-- Parts of the program, and the files that model them:
--   server/conf/conf.go         Conf: the configuration records, DefaultConfig, the type constants
--   server/conf/parse.go        Conf.Values: the values of a file, structs as reflection shows them;
--                               Conf.Parse: parseStruct and what it calls
--   server/conf/load.go         Conf.Load, with the structs of conf.go in Conf.Structs
--   server/conf/utils.go        Conf.Paths: validatePathExists; Conf.Tls: MakeTLSConfig of conf.go
--   server/logging/nats.go      Logging: what the logger passes on
--   main.go                     Main: the start and the signals; Server.Flags: InitializeFromFlags
--   server/core/histogram.go    Histogram: a bounded histogram of request times
--   server/core/stats.go        Stats: the counts of one connector, with its histogram
--   server/core/nats.go         Nats: the shared connections, connectToNATS, connectToSTAN
--   server/core/connector.go    Connector: init, CreateConnector, createSubscriberOptions
--   server/core/nats2nats.go    Connector.NatsToNats: Start, Shutdown, CheckConnections, callback
--   server/core/nats2stan.go    Connector.NatsToStan: the same, with the ack handler
--   server/core/stan2nats.go    Connector.StanToNats
--   server/core/stan2stan.go    Connector.StanToStan; Delivery: the flow of its messages,
--                               Delivery.Relay and Delivery.Direct of those to NATS,
--                               and Delivery.Published of those from NATS to streaming
--   server/core/server.go       State: the fields; Server: ConnectorError, checkConnections;
--                               Server.Startup: Start, Stop; Server.Ticker: the reconnect ticker
--                               Server.Starting: Start with its ticker
--                               Server.Threads: its threads, part by part, in any order
--   performance/nats_nats_bench/main.go, performance/stan_stan_bench/main.go
--                               Bench: counters and faults; Bench.NatsNats, Bench.StanStan: the
--                               two programs; Bench.Subscriber, Watch, Timeout, Rates,
--                               Replicator, World: the parts that they share
--   server/core/monitoring.go   Monitoring: the HTTP server, its handlers and the statistics
--
-- How they interact: Start connects to the servers, creates one connector for each configuration and
-- starts it. A connector reports its messages to its statistics, and a failure to ConnectorError;
-- lost connections lead to checkConnections. Both shut the connector down and enter it in the map
-- needReconnect, which the ticker empties by starting its connectors again. Stop shuts all down.
--
-- State is passed explicitly. A function of the code that changes the server takes a `Server` and
-- returns one in an `Outcome`: done, a panic, or a block on a lock that is not free. `tick` and
-- `stop` are whole rounds, when no other thread runs between their parts; in Server.Threads each
-- section under a lock is a step of its own (Server.Threads.Rounds ties the two together),
-- between which any other thread may run: callbacks, handlers behind their tests of `running`,
-- HTTP requests, the ticker, and Stop, which main or the handler for a closed NATS connection
-- calls. `connectorLock` is a field, since the ticker may leave it locked between two of its
-- steps and for ever. needReconnect holds pointers to the connectors: here it holds their places
-- in the list of connectors. Calls that need no answer are collected as effects. A map is an
-- association list, its order the one in which `range` meets it, and theorems hold for every
-- list. Integers of 64 bits wrap around. `float64` is the interface `Float`, and what is used of
-- IEEE 754 arithmetic is `FloatLaws`, which Tests.Numbers shows to hold together. The loops are
-- recursion on their lists; the loop of `trim` has as fuel the number of bins, which is enough
-- since each round merges two.
--
-- The client libraries are the record `Client`, and the network the record `Network`: functions
-- for their answers (also for nuid.Next, which may give each connector another id), of which
-- nothing is assumed except where a theorem names it. Not modelled: the messages that the parts
-- write to the log, and numbers of fewer than 64 bits in the configuration parser, of which no
-- setting is one.
--
-- A goroutine of a benchmark shares with main only wait groups and times that main reads behind
-- them; so a run is given what each goroutine receives, and a fault of any of them ends it. The
-- loop of the timeout has fuel, and 21 rounds are enough: its ticker ticks twice a second.
pub mod Prelude
pub mod Float
pub mod Result
pub mod Conf
pub mod Client
pub mod Histogram
pub mod Stats
pub mod Nats
pub mod Connector
pub mod State
pub mod Monitoring
pub mod Server
pub mod Delivery
pub mod Logging
pub mod Main
pub mod Bench
pub mod Tests
