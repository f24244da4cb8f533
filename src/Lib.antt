-- ===== src/Lib.antt =====
-- Kiwibes, a server that runs jobs: a model of the C++ code under source/, and theorems about it.
--
-- The parts of the program, and their files here:
--   Errors          source/kiwibes_errors.h, the error codes
--   Database        source/kiwibes_database.cpp: the jobs as one JSON value, saved in a file.
--                   Runs, Changes and Names have the operations, Spec is the map of typed jobs that
--                   a client sees, Refinement has the proofs that relate the two, Loading is about
--                   the load of the file, Saving about what is on the disk
--   Manager         source/kiwibes_jobs_manager.cpp: the active jobs and their processes, and the
--                   watcher thread that sees the processes end; it calls the database
--   Scheduler       source/kiwibes_scheduler.cpp, kiwibes_scheduler_event.cpp: the queue of events
--                   and the thread that starts the jobs which are due; it calls the database and the
--                   manager
--   Cron            source/kiwibes_cron.cpp, the wrapper of ccronexpr
--   DataStore       source/kiwibes_data_store.cpp, keys and values with a limit on their size
--   Authentication  source/kiwibes_authentication.cpp, the tokens and the thread that reads them
--   CmdLine         source/kiwibes_cmd_line.cpp, the command line
--   Rest            source/kiwibes_rest.cpp: requests, the handlers of all routes, and answers; it
--                   calls all the others
--   Server          the program as a whole: Steps has the steps of requests and of the threads,
--                   Signals is about the signals to processes, the other files about what each
--                   handler keeps
--   Main            source/main.cpp: Start, Scheduling, Serving and IllTyped are about the start, Stop
--                   and Leftover about the exit, Restart about a start after an exit
--   Interleaving    source/kiwibes_jobs_manager.cpp once more, with each call of the database as a
--                   step that other threads interrupt: Operations has the code, Alone relates it to
--                   Manager, Others has what the other threads do, Turns and Orphans what follows, and
--                   Steps joins these operations with the steps of Server
-- Prelude, Exec, CStdlib and Map are shared: numbers and tests, member functions that may throw
-- and what they preserve, strtol and std::stol, std::map. Examples holds a small platform and runs
-- on it.
--
-- A member function keeps its name. It becomes a function from the object to its result and the
-- object after it (Exec); an exception is a result, and what was written before it stays. Of the
-- exceptions, the code catches the parse_error of nlohmann::json alone (catch_parse_error). The
-- manager holds the database and the scheduler the manager, where the code holds pointers. The body
-- of a thread is a function of what it reads: the results of waitpid and fork, the clock, the file of
-- the tokens, and for the scheduler the addresses that `new` returns. Each function runs under the
-- lock that the code takes.
--
-- Parameters: nlohmann::json, ccronexpr and the floating-point operations are the record Platform,
-- and what the proofs use of them is PlatformLaws: what a member reads after a write, which values
-- may be written to, that an object has each key once, the removal at a JSON pointer, and that an
-- integer, a text, a double and a list of texts are read back as they were written. A request of
-- cpp-httplib is a record of functions.
--
-- Texts: a String is a sequence of Unicode characters, whose `len` counts the bytes of UTF-8, and
-- stands for a std::string that holds this encoding. A std::string that is not in UTF-8 is not a text
-- of the model: nlohmann::json throws a type_error where it prints one, and on all others it prints
-- without an exception, so that print and dump are functions here.
--
-- Files: an ifstream opens a file or does not, and an ofstream writes all of its text or, where the
-- path cannot be written, nothing; which paths can be written is part of the disk.
--
-- Numbers: `unsigned int`, `unsigned long` and `size_t` wrap at 2^32 and 2^64, which is written out;
-- `signed int` and `time_t` are integers with the conversions of the code, and `signed int` wraps at
-- its increment. A time difference is not cut to 64 bits. The loops run over lists, and the only bound
-- on a run is the length of the list of inputs that a thread is given.
--
-- The destructor of the scheduler runs on fuel, which is the number of queued events.
--
-- A step of Server.Steps is a whole request, one call of a component that a handler makes, or a whole
-- turn of a thread, so that the calls of a handler may have other steps between them. What the
-- manager calls while it holds its own lock belongs to one step there. Interleaving cuts these calls
-- apart: the lock of the manager keeps out its other operations, and the handlers of other requests
-- may change the database before each call. A turn of the scheduler thread is one step of Server, and
-- in Interleaving.Steps it may also be cut into the start of the job, the call of the database that
-- schedules it again after a sleep, and the removal of the event.
--
-- Not modelled: the output, logging, the signal handler, which calls exit, the HTTPS server, the
-- sleeps, the text of the help, the libraries in 3rd_party, and the client in another language.
pub mod Prelude
pub mod Errors
pub mod Exec
pub mod CStdlib
pub mod Map
pub mod Platform
pub mod Cron
pub mod DataStore
pub mod Manager
pub mod Scheduler
pub mod Authentication
pub mod CmdLine
pub mod Rest
pub mod Server
pub mod Main
pub mod Interleaving
mod Examples
pub mod Database
