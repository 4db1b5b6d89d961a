-- ===== src/Lib.antt =====
-- The SSA gateway between Modbus devices (DTUs with their slaves) and the Quark platform, as
-- Makefile builds it: the .cpp files of src/. The .cc files beside them are earlier versions and
-- are not compiled.
--
-- Parts, and how they meet. A device opens a connection and sends a registration package; the
-- session (src/client_session.cpp) looks its id up on the platform (src/c8y.cpp) and loads the
-- point tables of its child devices (src/modbus_model.cpp). A timer thread then polls the slaves,
-- one request at a time under a mutex; each response is checked and read (src/modbus_p.cpp, with
-- src/util.cpp for checksums and bit fields), and what has changed is uploaded. The platform's
-- own operations come in through src/agent_msg_handler.cpp.
--
-- Prelude: texts are lists of bytes, `std::map` is an association list in key order whose
--   `operator[]` creates entries, `int` is ℤ (overflow is undefined in the source, and sums are
--   exact here). Words of a fixed width keep their wrap-around.
-- Crc: `crc16` of src/util.cpp and its tables, the laws of `^`, the bitwise reference.
-- Model: include/modbus_model.h and src/modbus_model.cpp. A point is a row of texts at the
--   positions of Model/Position.antt, as in the source. Handlers give `none`, and `Handled` the
--   outcome `undefined`, where a vector of TYPENUM is read out of range; `bad_call` is the
--   exception of an unknown message id. A message that changes a row
--   gives `none` too where it reads or writes the row out of its range. Parse reads rows, which have
--   their lengths in well-formed tables, with a default.
-- Frame: checkReg, checkHB, checkMP and checkMsg over the buffer and its fill.
-- Util: bat, unbat, getbitu, HexToFloat, HexToDouble and floatReserve. HexToFloat gives the exact
--   value, in units of 2^-150, which `of_dyadic` of `Floats` makes a float: rounded for exponent 0,
--   infinite for exponent 255.
--   HexToDouble gives it in units of 2^-1075.
-- Parse: getSid, parseCO, parseDI, parseHR, parseIR, parseMsg. `none` is undefined behaviour (a
--   shift by the width, a copy past a buffer, a missing range map). Comparing `tm.find(x)` with
--   `mp.end()`, iterators of two maps, is the parameter `ends_equal`.
--   Coils/Bits and Registers/Responses compare the reading with the protocol's order of the bits
--   and words, Coils/Raises and Registers/Messages are about the messages that it raises.
-- Platform, C8y: the agent library's connection is a parameter, a world with `post` and its
--   answers; C8y has the functions of src/c8y.cpp over it.
-- Session: the members of ClientSession and the handlers of its events. A handler runs under
--   `_io_mutex`, hence as one step; what it asks of the event loop is a list of actions. The
--   polling thread waits for `_mutex` between requests, and is a step function over its place.
--   Session/Polling/History.antt has the orders in which the thread and the handlers take turns.
--   The thread seeks the next device in the map as it is then. It walks through the ranges of a kind
--   by a reference into a vector, which operations that bring in devices may move; where the vector is
--   not what it was when the thread came to the kind, the outcome of its step is `changed`. (One that is
--   erased and filled again with the same ranges meanwhile is taken for the same.)
--   Complete and Address beside it follow one round: its requests, and the address at which a response
--   is read.
--   Session/Sound has the invariant of a session's tables, for the handlers and the thread.
-- Agent: the operations of src/agent_msg_handler.cpp over all sessions. A wait for a mutex by
--   repeated attempts is one look at it. Agent/Sound has the invariant for them.
--   Agent/Stall follows an operation into the session whose mutex it has taken.
-- Program: all of these at run time. A state has every session, the place of its thread, the global
--   maps and the acceptor; a step is the end of an accept, a turn of a session's thread or of one of
--   its handlers, or an operation of the platform, and a run is any sequence of them from the start
--   of which none is undefined behaviour.
--   The buffer of a new session is what the memory holds, and each answer of the platform is any world.
-- Shared: class Map of include/map.h; each operation holds the mutex and is one step.
-- Timer: include/timer.h and src/timer.cpp. The clock is an argument, and the loop goes over what
--   the timer is each time it wakes.
-- Libmodbus: class Modbus of src/libmodbus.cpp over the modbus library (`Library`); it fills the
--   interface `ModbusLibrary` through which the sessions and Agent make requests.
-- Integrate: src/integrate.cpp over the platform.
-- Accept: src/io_service_thread.cpp, the connections of the thread pool and the accepts, as a list of
--   how they end.
-- Config: readConfig of src/util.cpp over the bytes of a file.
-- StartUp: src/main.cpp, the settings and the steps up to the agent's loop.
--
-- Floating-point arithmetic (`Floats`), the modbus library (`Library`), the platform (`Platform`) and
-- the steps of the agent library (`AgentLibrary`) are parameters. Loops are recursions on lists or on
-- the number of rounds left; the printing of a number has its value plus one as fuel, which its digits
-- do not exceed; `read_loop` takes one entry of its list for each read.
--
-- Not modelled: logging (src/ssa_logger.cpp), sockets and threads themselves, and clocks.
pub mod Prelude
pub mod Crc
pub mod Model
pub mod Frame
pub mod Util
pub mod Session
pub mod Parse
pub mod Platform
pub mod Program
pub mod C8y
pub mod Agent
pub mod Timer
pub mod Config
pub mod StartUp
pub mod Accept
pub mod Integrate
pub mod Libmodbus
pub mod Shared
mod Tests
