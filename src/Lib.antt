-- ===== src/Lib.antt =====
-- COATHEAL onboard flight software: a balloon experiment whose computer bends specimens with stepper
-- motors and keeps them warm with heaters. This library models the parts of onboard/ that decide when a
-- motor moves and when a heater may be on, the mission phases, and the parts that decide what goes over
-- the link to the ground and what a command from there means.
--
-- Parts and files:
--   Phase, Phase/Names: onboard/include/coatheal/phase.hpp. `to_string` is `ToString` and
--     `parse_mission_phase` is `ParseMissionPhase`.
--   StateManager, StateManager/Debounce: onboard/src/state_manager.cpp. The record has the phase and
--     the debounce counters; `update` is `Update`, with one function for each case of its switch.
--   MotionLock: onboard/src/motion_lock.cpp. The holder is a motor id, or -1 for a free lock.
--   HeaterScheduler, HeaterScheduler/Interlock, HeaterScheduler/Limits, HeaterScheduler/Zero:
--     onboard/src/heater_scheduler.cpp. `schedule` is `Schedule`, cut into its loops. The call of
--     `std::sort` is the parameter `sort`, of which nothing is assumed.
--   StepperDriver, StepperDriver/Simulated: onboard/include/coatheal/hal/stepper_driver.hpp, the
--     interface as a record of functions on the driver's state, and
--     onboard/src/hal/simulated_stepper_driver.cpp, which fills it.
--   StepperChannel and its children: onboard/src/stepper_channel.cpp. Pulses has `IssuePulses` and the
--     step-loss protection, Tick has `Tick` and a round of `PulseThreadBody`, Commands has the
--     moves, Setup the settings and the constructor, Pull the pull cycle, and Calls collects them as
--     data. Interlock, Reached, Armed, Travel and Leak are about them.
--   StepperController, StepperController/Exclusion, StepperController/Safety:
--     onboard/src/stepper_controller.cpp. The controller owns the lock and the channels.
--   FallbackPlanner and its children: onboard/src/fallback_planner.cpp, the bends to run when the link
--     to the ground is lost. Tick has `Tick`, loop by loop; Bends, Start and Names are about them. The
--     planner only proposes a bend; its caller starts it and reports back by `ReportStartResult`.
--   LinkBudget, LinkBudget/Wire: onboard/src/link_budget.cpp, the ledger of the bytes that may be on the
--     link in any window, its model of the kernel's shaper, and the bytes of a frame. `admit` is
--     `AdmitLocked`; `WaitHold` is `wait_begin` and then rounds of `wait_round`. Calls has the sequences
--     of calls with the log of all charges; Ledger, Admission, Sound and Window are about them.
--   Command, CommandParser and its children: onboard/include/coatheal/command.hpp and
--     onboard/src/command_parser.cpp. Tokens cuts a line into words, Names finds the command, Args
--     checks its arguments, and `parse_line` is `ParseLine`; Tokens/Words, Names/Lookup, Names/Prefix,
--     Args/Arity, Args/Reading, Args/Verdict, Lines and Valid are about them.
--   TelemetryQueue and its children: onboard/src/telemetry_queue.cpp, the frames that are not
--     acknowledged yet. Lines has the frames and `FormatLine`, Maps the maps of the class, Runs the runs
--     of consecutive pending frames; `enqueue`, `acknowledge`, `acknowledge_exact`, `next_replay` are the
--     methods. Runs/Cover, Runs/Lengths, Runs/Replay, Pending, Backlog, Restart and Prune are
--     about them; Lines/Parse has `ParseLine`.
--   TelemetryDrain: onboard/src/telemetry_drain.cpp, one tick of delivery from the queue by a sender,
--     which is a record of functions on its own state. Lost and Deadline are about it.
--   PidController, PidController/Bounds: onboard/src/pid_controller.cpp. `update` is `Update`.
--   ThermalController and its children: onboard/src/thermal_controller.cpp. Types has the data, Monitor
--     what is read off the temperatures, Loops the loops over the heaters; `compute_requested_duty` is
--     `ComputeRequestedDuty`. Latch, Rated, Lengths, Duty and Feedback are about them.
--   PidAutotuner: onboard/src/pid_autotuner.cpp. `tick` is `Tick`, with its lists newest first. Cycles and
--     Relay are about it.
--   ControlTick: the main loop of onboard/src/system_controller.cpp, as far as it heats. Link has the
--     watch on the link, Tune the auto-tuner and the heater test; `heat` calls the thermal controller, the
--     tune, the test and the scheduler. Outage, Safe, Latched and Budget are
--     about them.
--   Tmc5160Driver: onboard/src/tmc5160_driver.cpp. Registers has the fields and the currents, Chip the
--     datagrams, State the supervision by DRV_STATUS, Setup the configuration and its recovery, Power the
--     enabling; `step`, `enable`, `poll` are `Step`, `Enable`, `Poll`. Fields is about the registers.
--   Prelude, Double: shared names, integers over the native numbers, and the interface to `double`.
--
-- How they interact. A channel acquires the lock of the controller before it leaves idle and releases
-- it at the end of a move, a hold or a stop; the heater scheduler looks at the same lock in each call.
-- The lock is shared through pointers, so the controller hands its value to a channel for the time of a
-- call and takes it back afterwards. The drain takes frames from the queue, sends them with a priority
-- of the link budget, and acknowledges them to the queue; its sender stands for the telemetry client,
-- which holds bytes of the link budget for them. A round of the main loop passes the duties from the
-- thermal controller over the tune and the heater test to the scheduler, whose result drives the
-- outputs. Methods run under the mutex of their object, so a call is one step and concurrency is the
-- order of the calls; a round of the pulse thread is such a call, of a channel.
-- `ArmPullCycle` drops its mutex on the way and is two steps, `acquires_pull` and `arms_pull`. `Release`
-- of the link budget reads its clock before the mutex; the clock readings are in the order of the calls.
--
-- Numbers. A `double` is an element of a type `W` with the operations of `Double`: no law of
-- arithmetic is assumed of it but where a theorem names one; `IsTotal` says that no value is NaN. The
-- counters that the source keeps in 64 bits without sign wrap around; positions are integers without
-- bound, since `max_position_steps` is far below their range. Loops are structural recursion on their
-- lists or on the number of pulses;
-- `ExecutePullCycle` is bounded by the 60000 ticks that the source allows. The fuel of `prune_while` is
-- the number of frames, each round removes one; the replay of a tick goes on until a time, and its
-- model runs for any number of rounds.
--
-- Not modelled: the sockets (command server, telemetry client, the TCP information that the link budget
-- reads) and the state file of the link's cap, the file of the queue (the outcomes of its calls and its
-- lines at the start are arguments), the text form of the fallback plan, the sensors, the bus and the
-- lines of the motor chip (an interface over their state), the configuration file, and the rest of the
-- main loop (the bend sequences, the commands and the start-up): they are input and output,
-- or not yet done. The snapshot of a channel and the count of missed pulse deadlines only report.
pub mod Prelude
pub mod Double
pub mod PidController
pub mod PidAutotuner
pub mod ControlTick
pub mod Phase
pub mod StateManager
pub mod Command
pub mod CommandParser
pub mod LinkBudget
pub mod TelemetryQueue
pub mod ThermalController
pub mod TelemetryDrain
pub mod MotionLock
pub mod FallbackPlanner
pub mod HeaterScheduler
pub mod StepperDriver
pub mod Tmc5160Driver
pub mod StepperChannel
pub mod StepperController
