-- ===== src/Lib.antt =====
-- large-model-proxy listens on a port for each configured service, starts the service's process when a
-- client connects, and forwards the connection. Services share scarce resources (GPU memory, RAM): one
-- that lacks a resource waits, or takes the place of an idle one. The modules and what they model:
--
--   Base        numbers, texts, lists; a Go int is a signed number that wraps to 64 bits (add, sub); a
--               Go map is an association list, and a range over it visits the list in order, so a
--               statement about every list is one about every order.
--   Config      config.go: the data types. Config/Url: what it reads from JSON by hand, and
--               GetServiceUrlTemplate. Config/Validation: validateConfig and loadConfigFromReader.
--   LogWriter   service_process.go: serviceLoggingWriter with Write and FinalFlush.
--   Pipe        connection.go: bufferedPipe with Write, Read, closeWrite and closeRead.
--   ChannelMutex connection.go: channelMutex.
--   Manager     main.go and monitor_resources.go: ResourceManager, RunningService, incrementConnection and
--               the broadcasts. A channel with a buffer of one is an option.
--   Resources   resources.go: findFirstMissingResourceWhenServiceMutexIsLocked and the critical section of
--               reserveResources (reserve_pass), and the releases.
--   Services    service.go and service_process.go: startService, stopRunningService, monitorProcess and
--               cleanUpStoppedServiceWhenServiceMutexIsLocked, with the callback of Idle, as steps of many
--               instances at once.
--   Waiting     resources.go: reserveResources around its critical section, waitForFirstCheckCommands and
--               cleanupFirstChangeChannels, as steps of many services on the channels of Manager.
--   Eviction    resources.go: findEarliestLastUsedServiceUsingResource, canBeStopped, trackServiceLastUsed.
--   Connections connection.go: handleConnection and startClientReadMonitor, as steps of many connections.
--               Connections/Proxy: startProxy.
--   Forwarding  connection.go: forwardConnection, as steps of its goroutines on the Pipe.
--   Idle        service.go: the callback of the idle timer.
--   Launch      service.go. Launch/HealthCheck: performHealthCheck. Launch/Dial:
--               tryConnectingUntilTimeoutOrProcessExit. Launch/Await: startService around the two.
--               Launch/Queue: startServiceIfNotAlreadyRunningAndConnect and connectToService. A loop runs
--               over the list of what its rounds meet.
--   Command     service_process.go: runServiceCommand and produceStartCommandLogString.
--   StartUp     main.go: the state that main builds from the configuration. StartUp/Program: the choice of the
--               file, loadConfig, the goroutines of main, FprintfError (tty.go) and signalToString.
--   Shutdown    main.go and service_process.go: the stop of all services, and the calls of
--               stopRunningService. Shutdown/Exit: monitorProcess in a proxy that shuts down, too.
--   Status      management_api.go: handleStatus and the handlers of startManagementApi.
--   Monitor     monitor_resources.go: monitorResourceAvailability and its check of a resource.
--   OpenAi      openai_api.go: the list of models, the routing of completions, the captured bytes.
--               OpenAi/Capture: the handlers of startOpenAiApi on a connection from Accept to the hand-over.
--   TestServer  test-server/main.go: MainPort, the listener and the two threads of each connection; Health;
--               Completions and Chat, which list the calls that a handler makes on its Writer; Program.
--   Samples     a configuration and a state that the tests share.
--
-- Names are the source's in snake case. Services calls Resources, which calls Manager, as the code does:
-- the state of all is the one ResourceManager, and the RunningService structs are a heap of which
-- running_services holds the addresses. A critical section under serviceMutex, or under the pipe's
-- mutex up to a wait, is one atomic step, and a schedule is a list of steps in any order. The steps of
-- Services are those of a proxy that is not shutting down. Waiting refines the wait of Services' first
-- phase, Connections calls Eviction for the last use, and StartUp builds the state that Services,
-- Waiting and Connections start from.
--
-- The one loop on fuel is LogWriter.write, whose fuel is one more than the length of its data: each
-- pass drops at least one byte. All other loops are over the source's lists and maps.
--
-- Clocks, processes, sockets and the operating system's scheduler are not modelled: their answers are
-- the arguments of the steps. Log lines are left out, except for those that LogWriter prints and that
-- Command and Shutdown/Exit build. The standard
-- library's text/template, strconv.Atoi, encoding/json, fmt and net/http are arguments (Config.Url.Library,
-- Config.Url.Json, TestServer.Writer.Format) or data that they have produced. A select on several ready channels takes what
-- its argument says. An update of the test server's counter of connections is one step, though the code
-- takes no lock for it.
--
-- Not modelled: isTerminal (tty.go), a call of the operating system; the hooks of the tests around
-- monitorProcess (monitor_process_hook.go and monitor_process_hook_default.go), which do nothing in the
-- program; closeConnectionAndHandleError (connection.go), which only closes and logs; and the decoding of
-- JSON and JSONC.
mod Base
pub mod LogWriter
pub mod Pipe
pub mod ChannelMutex
pub mod Config
pub mod Manager
pub mod Resources
pub mod Eviction
pub mod Status
pub mod Monitor
pub mod OpenAi
pub mod Services
pub mod Connections
pub mod Forwarding
pub mod Launch
pub mod Idle
pub mod StartUp
pub mod TestServer
pub mod Waiting
pub mod Shutdown
pub mod Command
mod Samples
