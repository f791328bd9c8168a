-- ===== src/Lib.antt =====
-- A model of the distributed banking system, and what makes it correct.
--
-- The program keeps accounts in memory (BankingSystemImpl), behind an interface BankingSystem that a
-- wrapper with locks and one with a database implement as well; a TCP server takes framed messages,
-- authenticates them and hands transactions to worker threads through a lock-free queue.
--
-- Base: the names all modules share. Base.Int: the integers, over the native numbers. Base.Text:
--   std::string as a list of bytes. Base.Dict: std::unordered_map as an association list. Base.Lists:
--   lists with native lengths.
-- Core: the class BankingSystemImpl of banking_core_impl.hpp and banking_core_impl.cpp.
--   Core.State is its state, Core.Due is processDuePayments, Core.Operations has CreateAccount,
--   Deposit, Transfer, SchedulePayment, CancelPayment, MergeAccounts, rootAtTime and GetBalance,
--   Core.Spenders TopSpenders. Each operation is `..._now`, its body past the call of
--   processDuePayments, composed with that call. Core.Runs is the sequences of calls of the
--   interface include/banking_system.hpp and the rule for invariants, Core.Keeps that rule for
--   processDuePayments. The other modules hold proofs: Core.History, Core.Forest, Core.Merges,
--   Core.Totals, Core.Conservation, Core.Payments, Core.Solvency, Core.Queries.
-- Interface: the interface BankingSystem as a record of operations over a state; Core.Instance fills
--   it with BankingSystemImpl.
-- Protocol: network/protocol.cpp and include/network/protocol.hpp but for the framing.
--   Protocol.Messages has the enumerations and the structures Request and Response, Protocol.Requests
--   and Protocol.Responses their builders, Protocol.Serial serializeRequest and its kin.
--   Protocol.Json is what the code uses of nlohmann::json, whose dump() and parse() are the record
--   `Codec`, a parameter: include/nlohmann/json.hpp is a stand-in that says so itself. Protocol.Sample is
--   a codec for the tests.
-- Network: Network.Framing is class MessageFramer of network/protocol.cpp, Network.Connection the loop of
--   TCPServer::handleClient in network/tcp_server.cpp, Network.Client the class TCPClient of
--   network/tcp_client.cpp. Both parts frame a message twice. Network.Threads
--   is how both start and stop, with the results of the system calls as arguments, and their threads.
-- Processor: TransactionProcessor::processTransaction of concurrent/transaction_processor.cpp, over any
--   implementation of the interface, and the loop of one worker. Processor.Refinement relates it to the
--   steps of Core.Runs.
--   Processor.Worker is the class with one worker thread, over a bank whose operations return, as the
--   steps that it and the callers take.
-- Server: BankingServer::handleRequest and extractTransactionData of banking_server.cpp.
-- Persistent: BankingSystemPersistent of banking_system_persistent.cpp. Persistent.Store is the class
--   BankingPersistence of include/database/banking_persistence.hpp as an interface,
--   Persistent.Saving persistTransaction, Persistent.Operations the operations. Persistent.Memory
--   relates the bank in memory to the runs of Core.Runs, Persistent.Startup is initialize over
--   the connection.
-- ThreadSafe: BankingSystemThreadSafe of banking_system_thread_safe.cpp, as what each operation locks
--   and the steps of several threads. ThreadSafe.Accounts has its operations and the accounts that each
--   is to hold at its call of the bank.
-- Queue: LockFreeQueue of concurrent/lockfree_queue.cpp, its nodes on a heap and the atomic steps of
--   enqueue apart. Queue.Chain is the list that the nodes hold. Queue.Producers has the steps of
--   several producers and a consumer.
-- Metrics: MetricsCollector of observability/metrics.cpp, over an interface `Double` of the
--   floating-point numbers. Metrics.Export is the text that it exports.
-- Fraud: FraudDetectionAgent of ai/fraud_detection_agent.cpp over an interface `Floats` of the operations
--   of double. Fraud has the histories of accounts, Fraud.Scores performAnalysis and the scores,
--   Fraud.Agent the queue, the worker and the statistics.
-- Postgres: PostgresConnection and TransactionGuard of database/postgres_connection.cpp over libpq, the
--   parameter `Libpq`. The mutex is part of the state, and a call that locks it twice `blocks`.
-- Persistence: BankingPersistence of database/banking_persistence.cpp over a `Connection`, a parameter
--   whose operations return. Persistence.Statements has the SQL, Persistence.Accounts, Transactions,
--   Payments, Balances and Schema the operations. PostgresConnection is not put in its place, since its
--   connect and its begin never return.
-- Logger: Logger and LogBuilder of observability/logger.cpp, with the lines that are written.
--
-- An int of the code is an integer without bounds, since overflow of a signed int is undefined in
-- C++; a size_t keeps its wrap-around, modulo 2^64. The order of an unordered_map is not fixed by the
-- code, and the model's is that of insertion. std::sort is an insertion sort, by a strict total order.
-- In CreateAccount the right-hand side of the assignment of the creation time is evaluated first, as
-- C++17 has it. The payloads are JSON objects, as network/protocol.cpp treats them, where
-- include/network/protocol.hpp declares maps of strings. Locks are left out but in
-- ThreadSafe, Postgres and Network.Threads, and what the parts log and print everywhere.
--
-- Fuel: rootAtTime recurses on fuel, and get_balance has no result where it is used up; one more
-- than the number of merged accounts is enough, since no chain of merges passes an account twice. The
-- digits of a number are made on a fuel of one more than the number, which each round divides by the
-- base. executeSchemaFile and resolveAccountAtTime recurse on fuel as well: one more than the length of
-- the file is enough for the first, and the second has no result where it is used up, since the merges
-- that a database holds may go round. The inner loops of handleClient and receiveLoop end in `runs_on`
-- when their fuel is used up.
--
-- Not modelled: what the system calls and the clocks answer; libpq and what PostgreSQL makes of the
--   statements, which are parameters; several workers of one TransactionProcessor, since its queue is for
--   one consumer; BankingServer::start, stop and getStats, whose components the code never makes; the
--   programs main_server.cpp and banking_client.cpp, and the tests.
pub mod Base
pub mod Interface
pub mod Core
pub mod Protocol
pub mod Network
pub mod Processor
pub mod Server
pub mod Fraud
pub mod Postgres
pub mod Persistence
pub mod Persistent
pub mod ThreadSafe
pub mod Queue
pub mod Metrics
pub mod Logger
