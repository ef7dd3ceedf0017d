-- ===== src/Lib.antt =====
-- A service that connects GPIO lines of a Raspberry Pi and commands of its host with an MQTT
-- broker, for Home Assistant. It reads a configuration (config/), opens the GPIO lines (gpio/),
-- connects to the broker (mqtt/), publishes what Home Assistant needs to find the device
-- (controller/discovery.go), and carries out commands that arrive as messages
-- (controller/controller.go). Paths are from the repository's root.
--
-- Parts and files.
-- - Config.antt: the structs of config/config.go, a record each. Config/Defaults.antt:
--   `applyDefaults` and the getters. Config/Expansion.antt: `expandValue` of config/expansion.go;
--   Expansion/Tokens.antt is the independent description of what a value means, Expansion/Scan.antt
--   and Expansion/Reading.antt compare the two. Expansion/Fields.antt: the walk of
--   `expandEnvironment` over all fields, and below it the list of the fields that it visits.
-- - Config/Validation.antt: `Validate` of config/validation.go, with a module below it for the
--   patterns and topics (Names), the credential files (Files), the broker and its credentials
--   (Broker), TLS (Tls), GPIO lines (Lines), actions (Actions) and entities (Entities).
--   Config/Outside.antt: what it asks of the machine. Config/Paths.antt: filepath.Clean.
--   Config/Loading.antt: `load`. The modules Names/Patterns, Files/Bounds, Broker/Security,
--   Lines/Distinct and Lines/Order (with Lines/Accepting), and Action/Sequence/Validated.antt, say
--   what a valid configuration guarantees.
-- - Discovery/Topics.antt: the manifest of controller/discovery.go, `validateDiscoveryState`,
--   `ownedDiscoveryTopic` and the set operations. Discovery/World.antt: the manifest file, its
--   temporary copy and the broker's retained messages. Discovery/Reconcile.antt:
--   `loadDiscoveryState`, `writeDiscoveryState`, `publishDiscoveryChanges` and `reconcileDiscovery`
--   over that world. The modules below it follow the effects of each call (Effects, Writing),
--   compare manifest and broker (Tracking), and treat the update of the topics (Updating), failing
--   (Safety) and succeeding (Convergence) reconciliations and the manifest that they leave (Release,
--   Acceptance). Discovery/Desired.antt:
--   `discoveryPayload` and `desiredDiscoveryPublications`, with json.Marshal as a parameter.
--   Discovery/Configured.antt: both together, with the controller's configuration; the modules
--   below it follow what `Validate` guarantees from the ids to the topics and the manifest.
--   Discovery/Files.antt: `lockDiscoveryState` and the checks of private files and directories.
-- - Controller/Dedupe.antt: `acceptMessage` and `resetDedupe`. Dedupe/Window.antt relates the map
--   with generations to the order list, Dedupe/Refinement.antt to a list of keys, and
--   Dedupe/Redelivery.antt is about a message that is delivered again.
--   Controller/Queue.antt: the queue of an entity between `enqueueSwitch` or `enqueueButton` and
--   its worker, with the limits of its log lines; Queue/Order, Queue/Draining, Queue/Stopping and
--   Queue/Reporting are about all its interleavings, and Queue/Delivery is about the way of a message
--   from the library through the client into the queue. Controller/Payload.antt: `parseSwitchPayload`, `statePayload`, `boundedPayload`.
--   Controller/Handlers.antt: `handleSwitch`, `handleButton`, `PublishAllStates` and
--   `HandleGPIOInput`; Handlers/States.antt is about the states that they publish.
-- - Controller/Shutdown.antt: `beginCallback`, `Shutdown` and the workers that `New` starts, in any
--   interleaving. Controller/Register.antt: `Register`, Register/Adding.antt the subscriptions that
--   it adds, and Register/Order.antt what a connection does behind it.
-- - Action/Sequence.antt: `Execute` of action/executor.go, with Sequence/Trace on what it has done
--   when it ends; Action/Output.antt: its `boundedOutput`;
--   Action/Environment.antt: `minimalEnvironment`. Action/Command.antt: `runCommand`, with the
--   signals of action/process_linux.go, over a record of system calls; Command/Reaping.antt follows
--   the process. Action/Control.antt: the thread that observes a command beside `runCommand`, with
--   Control/Linux.antt for action/process_linux.go and Control/Other.antt for
--   action/process_other.go.
-- - Service.antt: `shutdownService` of cmd/mqtt-raspberry-controller/main.go; Service/Startup.antt:
--   its `run`. Service/Interleaving.antt puts the shutdown, the controller's workers and callbacks,
--   the client's callbacks and the manager of the lines into one process, with a schedule of turns;
--   Invariants, Orderly and Progress below it are about all schedules. Service/Wiring.antt puts
--   executor and controller onto the manager and the client as `run` does; Wiring/Switching.antt
--   follows a command to the published state.
-- - Gpio/Lines.antt: line requests and their options; Gpio.antt: the manager of gpio/manager.go,
--   with Gpio/Opening.antt, Gpio/Inputs.antt and Gpio/Values.antt on outputs, inputs and values,
--   and Gpio/Validated.antt on validated actions.
-- - Message.antt: the message type of mqtt/client.go. Mqtt/Client.antt: its `Client`, over the
--   interface of the library in Mqtt/Transport.antt; Client/Delivery is about messages,
--   Client/Closing about `Close`, and Client/Callbacks about callbacks and `Close` in any
--   interleaving. Mqtt/New.antt: the options that `New` sets, with New/Security.antt.
--   Mqtt/Log.antt: the limits on log lines, of the controller too.
-- - Base: byte strings, maps, results and the lemmas on them. Tests: runs, and the theorems at
--   data.
--
-- How the code is modelled. A Go string is the list of its bytes. A map is an association list, or
-- a function where it is only looked up. An error is a value that names its kind and the place in
-- the configuration, the field, the topic or the line that it is about. A method with a lock is one
-- function; where calls interleave (the queue, the callbacks of
-- the client, the shutdown of the controller and of the process, the observer of a command)
-- each shared access is a move or a step, and a list of them is an interleaving. A loop
-- is structural recursion; none needs fuel. A wait runs along the schedule, and its time is up at the
-- latest where the schedule ends. The generation counter of the duplicate cache keeps its
-- wrap at 2^64.
--
-- Code outside the repository. The GPIO library, the MQTT library, the process of a command, and
-- the parsers and files of the validation are records of operations, parameters of the parts that
-- use them; time.ParseDuration and the environment are functions that the definitions take. Of the
-- file system and the broker the model keeps what their documentation says: a rename replaces a
-- file at once, a retained message replaces the topic's one, and an empty one removes it. A call
-- that reports an error may have had its effect or not, and a list of faults chooses. The length of
-- a manifest's JSON text is a function of the settings. Where one component calls another, the
-- caller takes the record of the operations that its interface declares.
--
-- Not modelled: the text of log lines and errors, YAML and JSON, TLS connections and the flags of
-- the command line. In the reconciliation of the manifest the checks of file permissions and the
-- lock are calls that may fail, without effect.
pub mod Base
pub mod Config
pub mod Discovery
pub mod Gpio
pub mod Message
pub mod Mqtt
pub mod Controller
pub mod Action
pub mod Service
mod Tests
