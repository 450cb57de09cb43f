-- ===== src/Lib.antt =====
-- The VSCP MQTT daemon: drivers for field buses, each in a thread of its own, whose events
-- are sent to an MQTT broker and which receive events from it.
--
-- The parts of the program, and the files that model them:
--
-- * One configured driver, CDeviceItem (src/devicelist.h, src/devicelist.cpp): Device. Its
--   fields are the record DeviceItem; startDriver, stopDriver, pauseDriver and resumeDriver
--   are in Device.Lifecycle, with the loops startDeviceWorkerThreads and
--   stopDeviceWorkerThreads of src/controlobject.cpp; getAsString, getAsJSON, getAllAsString
--   and getAllAsJSON in Device.Print; the mutexes, with the destructors, in Device.Locks. The
--   theorems are in Device.Shutdown and Device.Fields.
-- * The list of drivers, CDeviceList (src/devicelist.cpp): DeviceList, with addItem,
--   removeItem, the two lookups and getCountDrivers; the theorems are in DeviceList.Lookup,
--   DeviceList.Count and DeviceList.Configured.
-- * The thread of a driver, deviceThread (src/devicethread.cpp): DeviceThread. Symbols has
--   the lookups by dlsym, Loops the three work loops with CDeviceItem::sendEvent, Start the
--   thread as a whole. What the thread does to an event on the way is in Event:
--   Event.Translate for a Level I driver, Event.Stamp for a Level II driver. The theorems are
--   in DeviceThread.Protocol, Leaks, Traffic, Outcome, Sent, Stopped and Control, and in
--   Event.Payload and Event.Stamp.
-- * The callback for events from the broker, receive_event_callback (src/devicethread.cpp):
--   DeviceThread.Callback and DeviceThread.Delivery. DeviceThread.Race has its steps and
--   those of a thread that ends, in every order; DeviceThread.Release shows how they come to
--   an end.
-- * The discovery of nodes, CControlObject::discovery, and its database, which `init` opens
--   or creates (src/controlobject.cpp): Discovery has the call as a whole, Discovery.Database
--   the part of `init`, Discovery.History the calls one after the other. Discovery.Threads
--   has the calls of all device threads access by access, in every order: a step relation
--   over the registry, the mutex and the places of the threads. Discovery.Linear puts them in
--   the order in which they give the mutex back, Discovery.Progress brings them to their
--   ends, and Discovery.Confluence forgets their order.
-- * The rest of the control object (src/controlobject.h, src/controlobject.cpp):
--   Control.Tokens has the tokens of classes and types that `init` reads, with
--   getTokenFromClassId and getTokenFromTypeId; Control.Address has getMacAddress and
--   getIPAddress; Control.Heartbeat has periodicEvents and sendEvent; Control.Run has
--   init_mqtt, run and cleanup, Control.Threads puts deviceThread into it, and Control.Nodes
--   discovery too; Control.Handles has the calls of SQLite in init and in the destructor;
--   Control.Config, Control.Logging and Control.Drivers have the three blocks of readJSON,
--   over Control.Json, and Control.ReadJson the whole of it, with readEncryptionKey and
--   readConfiguration; Control.Init has init with the sinks of the log, the change of the
--   user and the choice of the GUID; Control.MqttLog has the callbacks for mosquitto, which
--   nothing registers. The theorems are in TokenLookup, HostGuid, Payload, Session, Threads,
--   HandleUse, ItemLocks, Settings, LogLevels, LogFields, Entries, Accepted, Ready,
--   ServerGuid, with lemmas on event data in Bytes.
-- * The start and the end of the program (src/mqttvscpd.cpp): Startup. Startup itself has
--   createDirectoryRecursive, with its theorems in Startup.Folders; Options has the command
--   line, Daemonize the functions daemonize and setupSignalHandlers, LogFolder the folder of
--   the log file, Program the rest of main, and Signals the signals that arrive between its
--   calls, with _sighandlerStop and _sighandlerRestart; HelpTexts has help and copyleft;
--   Logger and Exits have the theorems on main. main uses the control object through the
--   interface ControlObject, which Object fills by init and run; Nodes follows the events of
--   all drivers from there to discovery.
--
-- * What is compiled for other systems only (src/controlobject.cpp): Platform. Platform.Clock
--   has clock_gettime and usleep for Windows, and the rounds of the main loop with the time
--   that this clock tells; Platform.Mac has getMacAddress for Windows, with GetAdapterInfo
--   and the choice of the GUID there, and for macOS. The theorems are in Platform.Silence and
--   Platform.HostMac.
--
-- A session: main reads the options, leaves its parent, and calls init; the configuration
-- fills the list by addItem; run connects the daemon's own client, starts the enabled
-- drivers, sends the periodic events every minute, and stops the drivers when it is asked to
-- quit. A driver's thread hands every event to discovery and then to its client.
--
-- How state and surroundings are modelled. A handler is a function from the state to the
-- state and the calls that it makes. Numbers are natural numbers, with the wrap-around of
-- uint16_t, uint8_t and uint32_t written out where the code computes; texts are lists of
-- bytes. What stands outside the repository is a parameter: vscphelper (Vscp), the driver's
-- library and its client (Library), SQLite (Sqlite), the class cguid (GuidClass), the broker
-- (Broker), the JSON library (JsonClass), the log library's sinks (SinkClass), the answers
-- of the operating system (System, World, Host, Network), the formatting of numbers
-- (Formats), the constants of the standard (Standard), the clock and the file system
-- (FileSystem). What is relied on of them are named hypotheses: IsHelper, IsFrame, IsTable,
-- IsWritable, IsGuidClass, IsPlain, IsStandard, IsClock, IsFileSystem, IsHex. For the other
-- systems, NetBIOS (Adapter), getifaddrs (SockAddr) and the clocks of Windows with the
-- division of doubles (Platform.Clock.Host) are parameters.
--
-- Bounds. There is no fuel. The loops that wait for the outside, the work loops and the main
-- loop, are recursions over a finite list of what happens in each round; `ended` says
-- whether the loop has returned, so that a loop that still waits differs from one that is
-- over. Every list is allowed. That a thread returns which `run` joins is a condition of
-- Control.Session, IsJoinable, and Control.Threads has it from deviceThread, whose rounds
-- end with the request to quit if stopDriver has set `m_bQuit` by the time it waits for the
-- thread. The number of threads that call discovery, and of their calls, is not bounded.
--
-- A signal that arrives in the main loop is the field `quit` of a round.
--
-- Not modelled: log messages, and the variants for Windows of what else is compiled for it,
-- as the folders and files of the defaults. The contents of the MQTT client's own queues,
-- and the memory of deleted events, are the libraries'.
mod Prelude
pub mod Device
pub mod DeviceList
pub mod Event
pub mod DeviceThread
pub mod Discovery
pub mod Control
pub mod Startup
pub mod Platform
mod Tests
