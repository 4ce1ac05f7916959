-- ===== src/Lib.antt =====
-- The door switch server: it takes requests to open doors from an MQTT broker and drives the
-- relays of switch boards over TCP.
--
-- Parts. The server (src/DoorSwitchSvr.cpp) reads its configuration, loads the switches from
-- MongoDB, and then owns an engine and an MQTT proxy until it is told to end. The proxy
-- (src/DoorSwitchMqttProxy.cpp) gives each message of its topic to the engine
-- (src/DoorSwitchEngine.cpp), which checks it and keeps one handler for each switch it has had a
-- request for. A handler (src/DoorSwitchHandler.cpp) owns the connection to one board, a timer
-- that reconnects, and one controller for each door. A controller
-- (src/DoorSwitchChannelController.cpp) owns a queue of tasks and a thread that opens and closes
-- the door, sends the commands of the board, and watches over its replies; an error of a read or a
-- write goes back to the handler by a callback.
--
-- Files. Prelude holds what all share: tests on native numbers, signed integers with the C++
-- conversions, lists. OrderedMap is std::map (find, insert, crbegin, a write through an iterator).
-- Param is src/Param.h. Controller is the class DoorSwitchChannelController: Controller.Command is
-- make_open_command and make_close_command, Controller.Watchdog the deadline timer and the read,
-- Controller.Run the thread (run, addTask, Start, close) and Controller itself Init, sendData and
-- the whole. Handler is the class DoorSwitchHandler (reconnect, connect, startReconnectTimer,
-- onReconnTimer, close, openDoor, handleRWError), with Handler.Timer the calls it makes. Engine is
-- the class DoorSwitchEngine (onRecvMqttMessage, createSwitchHandler, the destructor). Mqtt is the
-- class DoorSwitchMqttProxy. Svr is the class DoorSwitchSvr: Svr.Config is parseConfiguration,
-- Svr.Load is loadSwitchSetting, Svr itself what mosquitto's thread calls, Svr.Main is main. The
-- modules below these hold their theorems; the modules called Tests apply them to concrete values.
-- Handler.Event lists what reaches a handler, with one function for its steps. Serving puts the
-- parts together: the server between the construction of the engine and the termination request,
-- with the threads of all handlers. Controller.Board is the relay board, which reads the frames.
-- Two programs for tests complete the system: MockSwitch is testsuite/SeetaMockSwitch, a board
-- that answers "OK!" to what it reads, and StreamNode is testsuite/SeetaMockStreamNode, which
-- publishes a request for each row of a test file (StreamNode.Program is its test_main.cpp,
-- StreamNode.Stoi the conversion of a column).
--
-- In Serving, a door is followed from a message to its commands (Serving.Opens and Serving.First for
-- the first message, Serving.Round and Serving.Rounds for those after it), a switch through the events
-- of all others (Serving.Apart, Serving.Among) and through the messages for them (Serving.Elsewhere,
-- Serving.Amid), both together in Serving.Service, and a command that the board does not answer to the
-- reconnect that follows (Serving.Timeout).
--
-- State. A class is a record of its fields, and a member function that changes it is a function
-- from the record to the record. A call of boost::asio, of Poco::Timer or of mosquitto changes no
-- field: it is put in front of a list of calls, in the order of the code. What comes back from
-- outside (the error of a connect or a write, the number of bytes, the time) is an argument. The
-- thread of a door runs in turns, from one point where another thread may act to the next: the
-- test of m_stop, the wait for a notification, the end of a sleep. Between the turns come new
-- tasks and the shutdown, in any order. wakeUpAll ends the wait of a thread that waits at that
-- moment and has no effect later. The whole server is a step relation (Serving.Step): a step is
-- one call of mosquitto's thread, with the whole handling of its message, or one event of a
-- handler (one half of a call of its timer, a turn of a door's thread, a reply or a timeout of the
-- board), in any order. onReconnTimer is split where reconnect() returns, since an error may fall
-- there; Poco::Timer has one call of it under way at most, and its stop() waits for the end of it.
-- Two records stand beside the state of the server, for the statements alone: the doors that
-- messages asked for, and the commands that were given to a write. Serving.Routed.OrderedReach has
-- only the runs in which each new switch has an id above those with a handler, and Handler.InOrder
-- the requests in which each new channel is above those with a controller.
--
-- Parameters. Poco::NotificationQueue is a parameter of the thread of a door (Controller.Run); the
-- other components use the thread on the list of its tasks, and Controller.Run.Queue compares it
-- with the thread on any queue with the documented laws. The JSON library, the configuration of
-- Poco::Util, the MongoDB client, the command line of TCLAP, the CSV reader and Poco::ThreadPool
-- are records of functions. None of the server's has a law assumed. The theorem
-- on the shutdown assumes that a write to a closed socket fails (Handler.Closing), the one on the requests of
-- the test program assumes that JSON text which was printed is parsed back
-- (StreamNode.Request.IsJson), and the one on its start what the documentation says of the thread
-- pool (StreamNode.Starts.IsThreadPool). A call that may throw a Poco::Exception returns a Result.
--
-- Numbers. Times are microseconds. `short`, `unsigned short`, `unsigned char` and the `int` of
-- getElapsed keep their low bits; other integers are exact, since the code only compares them or
-- subtracts two of them. Undefined behaviour is `none` where
-- it can happen: the subtraction that gives realWait, where it overflows `int`, which it can for a time
-- to close near the least one; and the conversion of a power of two that `int16_t` cannot hold. The
-- statements about a thread alone (Controller.Run) are about turns without this overflow. The loop over the
-- cursor of the database runs on fuel, and each pass takes one batch, so that one more than the
-- number of batches is enough; likewise the loop over the rows of the test file, with the number
-- of rows. The loops of a door's thread, of a connection of the board's stand-in and of a node
-- have no end of their own: they are run for a list of turns, of polls, or a number of passes.
--
-- Not modelled. Logging, except where the log line is the only result of a branch: there it is a
-- value. The branch of run for a notification of another class, which nothing puts into the queue.
-- The thread that runs the io service: its callbacks are functions that may come at any time. The
-- joins of the doors' threads when a handler is closed: each thread is told to stop, and may go on to its
-- end, or block for good (Controller.Run.Shutdown). The pool of threads that the timers of all handlers
-- share: a call of a timer may come at any time that it runs. An exception that leaves the callback
-- of mosquitto ends the process: Svr.Main stops there, the steps of Serving go on with the engine as it
-- was, so that they have every state that the program comes to.
-- on_subscribe and the on_message of the test program's client, which only log or sleep; m_bSyncSuc
-- and syncSwitchSetting, which nothing uses; Obj2Str of src/utility.h, which nothing calls; the
-- generator of the MQTT client's id; the factory of the board's stand-in, which passes its
-- configuration on to each connection. The entries of the server and of the board's stand-in
-- (src/main.cpp, testsuite/SeetaMockSwitch/src/Main.cpp) and initialize only call Poco, which reads
-- the configuration and runs main. The files for TCP and USB switches are empty.
-- testsuite/SeetaMockStreamNode/src/csv.h is a copy of a third-party library.
pub mod Prelude
pub mod OrderedMap
pub mod Param
pub mod Controller
pub mod Handler
pub mod Poco
pub mod Engine
pub mod Mqtt
pub mod Svr
pub mod MockSwitch
pub mod Serving
pub mod StreamNode
