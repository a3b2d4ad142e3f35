-- ===== src/Lib.antt =====
-- A model of the cell stack in C++: the sandbox that runs user programs, the
-- command bus, supervisor and motion service of the gateway, the cells with their
-- nodes and robots, and the governed motion loop.
--
-- How the parts interact. A command reaches the gateway, which puts it on the
-- command bus; the bus hands the commands to one worker thread, in order. The
-- worker runs a command under the supervisor, which admits motions, latches
-- e-stops and faults, and carries the stop request. A motion is planned,
-- validated and executed: the executive reads each axis, asks the source for a
-- setpoint, passes it through the governor of the axis and writes the result.
-- A capability may be a program in the language of the sandbox, which is
-- compiled to stack code and run with an op budget and a stack limit. An
-- application is a list of steps that the program runner performs verb by verb.
-- The runtime builds a cell from its descriptor and binds the robots to its
-- nodes; the motion service plans a move, composes it for the whole cell, has it
-- validated and runs it on the live cell.
--
-- The files and the code they model:
--   * Core/Result: core/include/robonode/core/status.hpp and result.hpp, as one
--     result type with its monad and a triple for it (Post).
--   * Core/Double: the double of the code is a type with an interface (Double);
--     IsOrdered names the laws of comparison, clamping and rounding that the
--     proofs use. Core/Double/Whole is an instance: the integers with a NaN.
--   * Sandbox: sandbox/include/robonode/sandbox/program.hpp (Program, Eval) and
--     compiler.hpp (Chars, Compiler, Compiler/Grammar). Expr is the reference
--     semantics, expression trees; Machine and Compiler/* hold the proofs.
--   * Gateway/CommandBus: gateway/include/robonode/gateway/command_bus.hpp. A
--     step is one critical section of the mutex, so that every interleaving of
--     threads is a sequence of steps; the condition variable is the guard of
--     the step take.
--   * Gateway/Supervisor: cell_supervisor.hpp beside it, and the function
--     execute of cell_gateway.hpp.
--   * Gateway/Router: command_router.hpp beside it, the verbs of
--     cell_supervisor.hpp as its builders, and the worker that serves the bus.
--     nlohmann::json is a parameter (Json).
--   * Gateway/Directory: cell_manager.hpp beside it.
--   * Motion/ModuleRegistry: module_registry.hpp of motion/include/robonode/motion.
--   * Program: gateway/include/robonode/gateway/program_runner.hpp (Runner, Verbs)
--     and celld/include/robonode/celld/station.hpp (Station). What the runner
--     reaches through references and callbacks is an interface (Shop).
--   * Core/Map: std::map with keys that are strings, as a list in their order.
--   * Vision/Tracker, Vision/Smoothed: the constant-velocity and the smoothed
--     tracker of vision/include/robonode/vision/tracker.hpp.
--   * Celld: cell_descriptor.hpp (CellDescriptor), cell.hpp (Driver, Cell, Run)
--     and robot_node.hpp (Robot) of celld/include/robonode/celld. The drivers
--     and the controllers of a run are an interface over the state behind them
--     (Driver); Example is a cell of such devices over whole numbers.
--   * Gateway/Runtime: gateway/include/robonode/gateway/cell_runtime.hpp, the
--     live cell and its robots, without the reading of files.
--     Gateway/MotionService: motion_service.hpp beside it, without the jog; the
--     planner in force is an argument.
--   * Gateway/Gripper: sim_gripper.hpp beside them. The constraint of the
--     world that closes on a part is an argument.
--   * Motion/Blend: motion/include/robonode/motion/sync_blend.hpp, the plan of
--     a synchronised move.
--   * Sandbox/Wasm: engines/wasm/include/robonode/wasm/wasm_emit.hpp. Its
--     numbers are emitted in at most five rounds, which is enough for 32 bits.
--   * Gateway/Planner: gateway/include/robonode/gateway/sandboxed_planner.hpp,
--     a planner that a user wrote; the straight move is an argument.
--   * Celld/DocStore: celld/include/robonode/celld/json_doc_store.hpp, with the
--     files of its directory as the state, and the answers of the file system as
--     an argument: whether a file opens, is cut short as it is written or as it
--     is closed, and is renamed. Documents go by the names of files.
--   * Gateway/Capability: gateway/include/robonode/gateway/capability.hpp,
--     and the versions as trajectory_capability.hpp and tracking_capability.hpp
--     keep them.
--   * Celld/Conveyor: celld/include/robonode/celld/conveyor.hpp, over the calls
--     of scene.hpp beside it, and gateway/include/robonode/gateway/station_ops.hpp.
--   * Core/Geometry: core/include/robonode/core/geometry.hpp, with the functions
--     of the standard library as a parameter (Maths).
--   * Motion/Kinematics, Motion/Cartesian, Motion/Planner: kinematics.hpp,
--     cartesian.hpp and planner.hpp of motion/include/robonode/motion. The arm
--     is an interface (Kinematics); Motion/Waypoints holds the waypoints and what
--     their columns are.
--   * Gateway/Control: gateway/include/robonode/gateway/control_capability.hpp,
--     and what trajectory_capability.hpp beside it builds a planner from.
--   * Gateway/CellGateway: cell_gateway.hpp beside them, the building of a cell
--     and the exchange of a node or the scene. The kinematics of a world and the
--     composing of a scene are arguments.
--   * Gateway/Library: the documents of gateway/include/robonode/platform.hpp,
--     and the sessions of gateway/workspace.hpp beside it. The JSON text of a
--     document and what makes one storable are arguments.
--   * Gateway/Verbs: the verbs that cell_gateway.hpp registers, with the keys of
--     their commands. How the arguments are read from JSON is a parameter.
--   * Gateway/Sensing: camera_capability.hpp and vision_capability.hpp of
--     gateway/include/robonode/gateway, with what cell_gateway.hpp does to both.
--     What a detector finds, and what a version makes, are arguments.
--   * Motion/Governor, Motion/Validator, Motion/Executive: governor.hpp,
--     trajectory_validator.hpp and sync_executive.hpp of
--     motion/include/robonode/motion. The axes, the sources and the controllers
--     are functions of the environment, which may give anything.
--   * Prelude: helpers on lists, texts, tests and integers, and no code.
--
-- Bounds and fuel. The parser of the sandbox recurses on fuel, 9 * length + 7
-- for a channel of that length, and the proof that it never runs out is part of
-- Compiler/Sound. The loop of the executive recurses on max_cycles, the bound
-- that the code computes itself. The wait for a sighting recurses on a bound of
-- polls, an argument of the verbs, with an error of the model's own where it is
-- too small. The numbers in a file name or an export have at most 20 and 10
-- digits, which is enough for 64 and 32 bits. Ids and counters are natural
-- numbers: the code counts them in 64 bits, and one a nanosecond takes centuries to wrap.
-- Characters are their codes; std::stod is a parameter.
--
-- Not modelled: clocks, jitter and overrun counts, hooks and logging, threads
-- beyond their critical sections, the physics behind an axis, the HTTP
-- server and the clients, the jog on the generator of another library, the
-- parsing of descriptors from JSON, the views, telemetry and the comparison of
-- versions, the verbs of single program steps, the adapters of libraries, and
-- paths in the names of documents and sessions (json_doc_store.hpp joins a name
-- to its directory as it is, so that one with a separator leaves it).

pub mod Prelude
pub mod Core
pub mod Sandbox
pub mod Gateway
pub mod Motion
pub mod Program
pub mod Celld
pub mod Vision
