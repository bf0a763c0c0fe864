-- ===== src/Lib.antt =====
-- The ddi-agent runs beside a DHCP server (Kea) and a name server (BIND) and configures them. A
-- controller sends requests over Kafka; a consumer decodes each one and calls the agent's own gRPC
-- service; the service edits its copy of the configuration, sends it to the server, and keeps it
-- if the server took it; a producer reports the outcome over Kafka.
--
-- The files, with the code that each models:
-- - Base: the names and operators that all files share; Os: files and how they are written; Slice
--   and Slice/Defs: Go slices with their shared arrays, the range loops and in-place deletion as
--   the handlers use them; Slice/Unique: what these loops do where at most one element matches.
-- - Dhcp/Config, Dhcp/Request: the types of pkg/dhcp/grpcservice/dhcpconfig.go with the defaults,
--   and the requests of pkg/proto/dhcp.proto.
-- - Dhcp/Proxy: SendHttpRequestToDHCP of pkg/dhcp/grpcservice/dhcpproxy.go, and the state of
--   DHCPHandler: the two configurations that it keeps and the calls that it has made, newest
--   first. An action takes that state and returns a result or an error with the state after it.
-- - Dhcp/Handler: the helpers of pkg/dhcp/grpcservice/dhcphandler.go: the deep copy, reconfig,
--   reconfig4 and reconfig6 with the rollback. The handler's lock is held from the copy to the
--   return, so a method is one step of the state.
-- - Dhcp/Change, Dhcp/Edit: what each method of that file does between the copy and the
--   reconfiguration. The copy has arrays of its own for subnets and client classes, and shares the
--   arrays inside a subnet with the configuration that the handler keeps; so an edit returns what
--   it leaves of both.
-- - Dhcp/Service: the methods as actions, and pkg/dhcp/grpcservice/grpcservice.go over them.
-- - Kafka: of pkg/kafkaproducer what SendAgentEventMessage makes of a command and its outcome, and
--   what both consumers read. Dhcp/Consumer: pkg/dhcp/kafkaconsumer.
-- - Dhcp/StrSlice, Startup, Monitor: loadDHCPConfig, reconfigOrStartDHCP and the monitor of
--   pkg/dhcp/grpcservice/dhcphandler.go. The state adds the directory and the two files, and the
--   calls to the operating system and the monitor.
-- - Dhcp/Address, Leases, LeaseQueries: pkg/dhcp/util/util.go and the lease queries.
-- - Dhcp/Kea, Dhcp/Spec: descriptions that are independent of the code: what the servers hold
--   after some calls, and what a method is meant to make of a configuration.
-- - Dhcp/Sync, Methods, Outcome, Failure, Calls, Refine, Sharing, Serve, Proper, Responses, Keys,
--   Messages, Reports, Interfaces, Files, Boot, Started, Quiet, Order, LeaseCounts: proofs, each named for
--   what it is about; Dhcp/Samples, Tests, RunTests, StartTests, LeaseTests: concrete inputs.
-- - Dns/Zone, Resource, Files, Database, World: the rows of pkg/dns/resource, the files that
--   pkg/dns/grpcservice/nameddata_handler.go writes with the data of their templates, the calls of
--   gorest, and the state: the database, the files and the steps made so far, newest first. An action
--   takes that state and returns a result or an error with the state after it. Dns/Actions has the
--   steps that the methods are made of, and Dns/Requests the messages of pkg/proto/dns.proto.
-- - Dns/Acl, ViewFile, Views, Forward, Redirections, Rrs, ZoneFiles, AuthZones, Options, Nginx: the
--   methods of pkg/dns/grpcservice/dnshandler.go with the files of nameddata_handler.go that they
--   write. Dns/Start, Keeper: reconfigOrStartDNS with initDefaultDbData and initFiles, and StartDNS,
--   StopDNS and keepDNSAlive. Dns/Upload: uploadlog_handler.go.
-- - Dns/Methods: the methods by their keys, and pkg/dns/grpcservice/grpcservice.go over them.
--   Dns/Consumer: pkg/dns/kafkaconsumer.
-- - Dns/Rules: rules for what an action gives and keeps. Dns/AclFile, Atomic, ViewShown,
--   ViewMethods, ViewInit, ZoneShown, ForwardSql, Leftover, OptionFile, Kept, Unheard, UploadShown,
--   Keys, Messages, Reports, Addresses, Ports: proofs, each named for what it is about. Dns/Memory, Samples,
--   AclTests, Tests, MoreTests, ZoneTests: a database of lists, and concrete inputs.
-- - Metric/DhcpCollector, DhcpRate, DnsCollector: the collectors of pkg/metric, on the answers of
--   Kea and BIND; Metric/Float: what they use of float64, which is a parameter. Metric/DhcpCounted,
--   Wrapped: proofs; Metric/Tests: concrete inputs.
--
-- What is outside the code is a parameter: `Env` answers for the HTTP round trip to Kea and for
-- the monitor's interfaces, as any function of the calls made so far; `Client` answers for
-- protobuf's decoder and for the gRPC connection; `Host` answers for the operating system and the
-- monitor, and `Db` for PostgreSQL. Nothing is assumed of these. `parse_ip` stands for
-- net.ParseIP; the results on the order of addresses assume that it returns bytes, that is,
-- numbers below 256. `join` stands for path.Join, `is_ip` and `resolve` for net.ParseIP and
-- net.ResolveTCPAddr, which are taken to answer the same during a method. The DNS agent's `Env`
-- answers for the templates, the file system, the monitor, dynamic updates, g53 and FTP. Its
-- database and transactions are those of gorest: `Database` has the calls, with conditions as lists
-- of columns, and `WithTx` the transactions; the results assume of the latter that an error leaves
-- the database as it was and that without one the body's change stays (`IsTransaction`). Files and
-- commands are not the database's: a transaction that fails does not take them back. The order in
-- which Go ranges over a map is a parameter too.
--
-- Bounds: `itoa_with` in Dns/Zone prints a number with fuel: 4 for a port, which is enough
-- (Dns/Ports), and 9 for a number of 32 bits, which has ten digits at most. No other definition runs
-- on fuel. The loops are structural over lists, and a consumer's endless loop is a function of the
-- list of reads made so far; the DHCP monitor's is one of the number of rounds, and keepDNSAlive's
-- one of the list of signals. These loops take no lock, and the model runs their rounds apart from
-- the methods; so it runs a method of the DNS handler apart from any other. Identifiers and life
-- times are unsigned integers that the code stores and compares without arithmetic, so they are
-- natural numbers here.
--
-- Not modelled: the descriptions and the HTTP server of pkg/metric, which are Prometheus's, and
-- the wiring of cmd/agent. JSON, HTTP, SQL and Kafka itself are not code of the repository. A name of a file is
-- taken to have no "/" in it, so that files of different directories are different. The texts that
-- are only logged are left out.
pub mod Base
pub mod Os
pub mod Kafka
pub mod Slice
pub mod Dhcp
pub mod Dns
pub mod Metric
