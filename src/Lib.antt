-- ===== src/Lib.antt =====
-- home-pc-agent connects a computer to Home Assistant. Plugins register entities (switches, selects,
-- buttons, sensors), publish their states and take commands; transports, of which MQTT is the one
-- there is, tell the outside of the entities and bring the commands in. Both share a registry of
-- entities, a router of commands and a bus of events.
--
-- Which file models which part (paths from the repository's root):
--   Entity.antt       internal/core/entity/entity.go: Validate, OptionNames, OptionValue, OptionName.
--   Events.antt       internal/core/events/bus.go: EventBus and the subscription with its goroutine
--                     `run`, which is a program counter and one step for each select.
--   Core/Registry     internal/core/registry.go: EntityRegistry over an association list and the bus.
--   Core/Router       internal/core/command_router.go: CommandRouter and the closure of Subscribe.
--   Core/Scope        internal/core/plugin_scope.go: PluginScope; a plugin is a `Script` of host calls,
--                     each continued by its result.
--   Plugins.antt      internal/core/plugin_manager.go and the factories of internal/core/plugin.
--   Transports.antt   internal/core/transport_manager.go.
--   Reload.antt       internal/core/runtime.go: generations, reloadFromDisk, and Run.
--   Config.antt       internal/config/config.go: PluginRaw, PluginEnabled, EnabledPluginIDs.
--   Mqtt/Topics, Mqtt/Discovery    internal/transport/mqtt/discovery.go.
--   Mqtt/Transport, Mqtt/Commands  internal/transport/mqtt/mqtt.go: events to retained messages, and
--                     messages to commands.
--   Catalog.antt      internal/plugins/catalog/catalog.go: ValidatePlugins, for any built-in factories.
--   Inhibit.antt      internal/plugins/inhibit_freedesktop.
--   Selects.antt      what the three plugins with one select entity share: sorted options, fresh keys.
--   PowerPlan         internal/plugins/powerplan, with the enumeration in PowerPlan/Discovery.
--   PowerProfile      internal/plugins/powerprofile_ppd: parsing and the plugin's state; signals, the
--                     watcher and commands are in PowerProfile/Running.
--   FanControl        internal/plugins/fancontrol: Names, Profiles, Settings (configuration), Control.
--   Runner            internal/plugins/runner: Settings and Checks (config.go), Invocation (exec.go),
--                     Running (runCommand and the getters' runs), Params (params.go), Getter
--                     (getter_match.go), Options (options_getter.go), States (state.go and the states
--                     of runner.go), Commands and Starting (runner.go), Refresh (refresh.go).
--   Systemd.antt      internal/service/systemdunit/unit.go.
--   Common.antt and its children hold texts, maps, sorting, errors and values; Tests.antt has concrete
--   inputs. The modules below a component's are its proofs.
--
-- How the code is represented. An operation takes the state and returns the new one with its error or
-- none; the errors are constructors of `Err` with the arguments of their messages. A string is the
-- list of its code points, a Go map an association list whose order stands for the order in which Go
-- happens to iterate. A method under a mutex is one step. In the bus, the goroutine, the publishers
-- and the receiver interleave in any order, and a publisher's append and its signal are two steps.
-- EntityRegistry publishes after it has given its mutex back; here a change and its event are one
-- step, so two changes of an entity at once, whose events can come in the other order, are left out.
-- In the MQTT command path the callback, commandLoop and the workers interleave in any order.
-- PluginScope.Close is one step of the plugin manager, which does not run plugins concurrently with
-- it. Loops run over lists, but two: the search for a fresh key has one round more than there are keys,
-- which is enough because no two of its candidates are the same (Selects/Fresh); the enumeration of
-- power schemes has fuel, and ends with one round more than there are schemes (PowerPlan/Discovery).
--
-- Outside code is a parameter: what D-Bus services, powercfg.exe, FanControl's pipe and os.Stat
-- answer, what transports' Start and Stop return, what a plugin does, what the JSON decoder reads,
-- what a script of the runner prints and returns, the arithmetic of floats, regular expressions,
-- how unicode.ToLower maps code points outside ASCII, how fmt.Sprint prints other values than
-- strings and booleans, what precedes a path on a Windows volume, and SHA-256. Times are numbers
-- given by the caller.
--
-- Not modelled: logging; contexts' deadlines, save that a wait can end by one; what the MQTT broker
-- answers to a publication, which the code only logs; loading and validating the configuration
-- file, which viper, mapstructure and ozzo-validation do; the command line, the Windows and macOS
-- bindings; the session and display plugins, and the bytes on FanControl's pipe; the runner's
-- processes with their timeouts, its tickers, and refreshConcurrently, which starts up to four
-- refreshes at once.
pub mod Common
pub mod Entity
pub mod Events
pub mod Core
pub mod Config
pub mod Plugins
pub mod Mqtt
pub mod Transports
pub mod Reload
pub mod Inhibit
pub mod Selects
pub mod PowerPlan
pub mod FanControl
pub mod PowerProfile
pub mod Runner
pub mod Catalog
pub mod Systemd
pub mod Tests
