-- ===== src/Lib.antt =====
-- The AUTOSAR Adaptive services of MyAutoSarAp, its program and the three applications on top of them.
--
-- The platform services are singletons that the applications call; here a service is a record, an
-- operation a function from a record and its arguments to a record and its result, and a callback a
-- number: its calls are entries of a trace. Clocks and the random generator are arguments.
--
--   Sm             ara::sm, machine states and function groups
--                  (include/ara/sm/state_management.h, src/ara/sm/sm.cpp)
--   Nm             ara::nm, networks counted by their requests, and their handles
--                  (include/ara/nm/network_management.h, src/ara/nm/nm.cpp)
--   Phm            ara::phm, supervised entities and the global status
--                  (include/ara/phm/platform_health_management.h, src/ara/phm/phm.cpp)
--   Iam            ara::iam, tokens, policies, access checks and revocation
--                  (include/ara/iam/identity_access_management.h, src/ara/iam/iam.cpp)
--   SomeIp         ara::com, the SOME/IP message, and SomeIp.Discovery, the service discovery,
--                  and SomeIp.Caller, the result of a method call
--                  (include/ara/com/someip_binding.h, src/ara/com/someip_binding.cpp)
--   ComBase        the bases of proxies and skeletons (include/ara/com/types.h,
--                  include/ara/com/proxy_base.h, include/ara/com/skeleton_base.h)
--   E2e            the checksums of E2E frames and SPI frames (include/ara/com/someip_proto.h,
--                  src/application/SwcIPCBridge/IPCBridgeService.cpp)
--   VehicleSignal  the vehicle signal proxy: parsing, checking and queueing of notifications, and in
--                  VehicleSignal.Proxy its socket and receive thread; VehicleSignal.Threads has the
--                  steps of the queue's methods, between which another thread can come
--                  (include/ara/com/vehicle_signal_proxy.h, src/ara/com/vehicle_signal_proxy.cpp)
--   Log            ara::log, log lines and the registry of loggers
--                  (include/ara/log/logger.h, src/ara/log/logger.cpp)
--   Tsync          ara::tsync, time points and time bases, and in Tsync.Range its 64-bit sums
--                  (include/ara/tsync/time_sync.h, src/ara/tsync/tsync.cpp)
--   Crypto         ara::crypto, the key store, cipher, authentication code and hash, and in
--                  Crypto.Interfaces the abstract classes with what they promise
--                  (include/ara/crypto/crypto_provider.h, src/ara/crypto/crypto.cpp)
--   SafetyMonitor  the safety monitor, which watches Phm and the MCU and drives Sm
--                  (src/application/SwcSafetyMonitor/SafetyMonitorService.h and .cpp)
--   IpcBridge      the IPC bridge, which holds a handle of Nm, reports to Phm and offers the services
--                  of SomeIp.Discovery (src/application/SwcIPCBridge/IPCBridgeService.h and .cpp)
--   SignalService  the vehicle signal application: the counter check of received signals, and in
--                  SignalService.Subscription its proxy, on SomeIp.Discovery
--                  (src/application/SwcVehicleSignal/VehicleSignalService.h and .cpp)
--   Platform       the three applications with the managers that they share, in any order of calls;
--                  Platform.Mutexes has the mutexes that each call takes, and Platform.Locks the
--                  threads that take them
--   Exec           ara::exec, the report of the execution state
--                  (include/ara/exec/execution_client.h, src/ara/exec/execution_client.cpp)
--   Process        what the program has of the system: sockets, loggers and standard output
--   Consumer       ara::app, the consumer of the vehicle signals, on VehicleSignal
--                  (include/ara/app/vehicle_signal_swc.h, src/ara/app/vehicle_signal_swc.cpp)
--   MainProgram    main, which drives the consumer (src/application/main.cpp)
--   Prelude        names, Boolean tests, lists, association lists, exclusive or and integers
--   Examples       tests and concrete runs
--
-- An operation has the name of the method in snake_case (RequestMachineStateChange is
-- request_machine_state_change); a constructor is `new` or a `make_` function. A child module holds the
-- theorems about its parent, and defines what they need: a list of calls with its run, and the
-- specification that the run is compared with.
--
-- Bounds. Unsigned words are natural numbers cut by a remainder where the code lets them wrap, and
-- theorems say where they need a count below 2^32 or 2^64. Signed 64-bit times are integers; in
-- Tsync.Range a sum or a product that overflows has no result. Loops are recursions on the list or
-- the count that they go over, so that no fuel is needed. An unordered map is an association list,
-- of which no theorem reads the order; Phm.Abstract is the table of Phm without it, as a quotient, and
-- Phm.Entries compares it, one entity at a time, with a specification that has no table.
-- VehicleSignal.Layout is the layout of a datagram by offsets, which the consumer's lines
-- and the proxy's counters are compared with.
--
-- Calls are atomic: each method is modelled as one step, as its mutex makes it, except in
-- VehicleSignal.Threads, SafetyMonitor.Race and Tsync.Race, which have the steps of a method. The
-- loop of a thread takes the list of its passes, each with what other threads do while it sleeps;
-- nothing bounds the list. A signal reaches main in a sleep of its loop; one before the loop is left
-- out.
--
-- Sockets are a parameter: Process.Sockets lists the calls of POSIX that the code makes, and
-- Process.IsLawful what POSIX documents of them. Process.Loopback is an instance.
--
-- Not modelled: sleeping, the texts that the system gives for errors, the decimal form of printed
-- numbers and, but for VehicleSignal.Threads, the order between a receive thread and the method
-- calls of its own proxy; ara::per and ara::diag, which are headers; and ServiceFinder,
-- EventPublisher and EventSubscriber, of which the headers declare the methods and nothing defines
-- them.
pub mod Prelude
pub mod Sm
pub mod Nm
pub mod Phm
pub mod Iam
pub mod SomeIp
pub mod E2e
pub mod VehicleSignal
pub mod Log
pub mod Tsync
pub mod Crypto
pub mod SafetyMonitor
pub mod IpcBridge
pub mod SignalService
pub mod Exec
pub mod Process
pub mod ComBase
pub mod Consumer
pub mod MainProgram
pub mod Platform
pub mod Examples
