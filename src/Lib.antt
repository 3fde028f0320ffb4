-- ===== src/Lib.antt =====
-- HInit, an init system for Linux: PID 1 and the programs that it starts.
--
-- PID 1 (hinit/[ENG]/hinit.c) opens the log, blocks SIGCHLD, SIGTERM and SIGINT, starts the machine
-- modes and then alternates between processing the pending signals and sigsuspend. The mode controller
-- (mode.c) runs MD1 (startup) to its end, keeps one process for MD2 (operating), and on a shutdown
-- request stops it and runs MD0 (shutdown). process.c makes, awaits, signals and reaps children.
-- signal.c sets one flag for each signal in the handler, and outside of it starts the shutdown and
-- collects children, whose exits it passes to the mode controller and to the table of service
-- supervisors (HSV). load.c keeps that table: it starts, stops and restarts services, links them into
-- the onboot directory, starts what is linked there, and stops all supervisors. log.c appends a line
-- with the local time to the log for each message.
--
-- Each HSV is a program of its own (hsv.c): it keeps the process of one service running, restarts it on
-- SIGUSR1 and when it exits, stops it on SIGTERM with SIGKILL after a time-out, and then runs the
-- service's stop and finish scripts. The programs of the modes are hinit/[MD]/md0.c, md1.c and md2.c:
-- md1 prepares the machine (hinit/[SYSLOAD]/sysload.c) and loads the onboot services, md2 watches PID 1
-- and /run/hinit each second, md0 stops the supervisors of its table and powers the machine off
-- (sysdown.c).
--
-- The log viewer (hinit/[LOG]/logger.c) is a program for the terminal: it shows the newest lines of the
-- log, reads keys, and reads the file again every quarter of a second.
--
-- The feed (hinit/[FEED]/feed.c) takes commands over a socket and passes them to the mode controller and
-- to load.c. Nothing calls it yet.
--
-- The files and the code they model:
--   Kernel, Kernel/*    the system calls, as an interface with a parameter for the outside world;
--                       errno, signal numbers and the wait-status macros; what the system refuses
--   Image               the static variables of one process: those of log.c, mode.c, load.c, signal.c
--   Log                 hinit/[LOG]/log.c, log.h: log_init, log_write, log_close
--   Process             hinit/[ENG]/process.c: process_spawn, process_wait, process_signal, process_reap
--   Mode, Mode/Exits    hinit/[ENG]/mode.c: mode_init, mode_start, mode_child_exit, mode_get, with the
--                       cases of mode_start as start_md1, start_md2, start_md0; what mode_exec and
--                       mode_stop_md2 make of a wait status is in Mode/Exits
--   Load/Table          hinit/[ENG]/load.c: hsv_find, hsv_register, hsv_unregister, load_child_exit,
--                       load_service_path
--   Load/Services       load.c: load_start_service, load_stop_service, load_restart_service
--   Load/Boot           load.c: load_enable_service, load_disable_service, load_directory, load_onboot,
--                       hsv_shutdown_all
--   Signals             hinit/[ENG]/signal.c: signal_handler, signal_setup, signal_process
--   Hinit               hinit/[ENG]/hinit.c: main, with the signals of each sigsuspend as a list
--   Hsv/Control         hinit/[ENG]/hsv.c: hsv_signal, hsv_build_path, hsv_exec_script, hsv_sleep_ms
--   Hsv/Stop            hsv.c: hsv_stop_service
--   Hsv/Supervise       hsv.c: main, with its outer loop as supervise and its inner loop as watch
--   Machine/Exec        hinit/[SYSLOAD]: sysload_exec and sysdown_exec, which differ in a tag
--   Machine/Startup     hinit/[SYSLOAD]/sysload.c: sysload_prepare and its phases
--   Machine/Shutdown    hinit/[SYSLOAD]/sysdown.c: sysdown_prepare
--   Md/Md0, Md1, Md2    hinit/[MD]/md0.c, md1.c, md2.c: main, and the checks of md2
--   Logger/Lines        hinit/[LOG]/logger.c: logger_trim_newline, and the loop of logger_load_file
--   Logger/Terminal     logger.c: the terminal as an interface, logger_draw, logger_visible_lines,
--                       logger_terminal_raw, logger_terminal_restore
--   Logger/Keys         logger.c: the scroll functions, logger_read_key, logger_process_key
--   Logger/Session      logger.c: main, for a number of rounds of its loop
--   Feed/Words          hinit/[FEED]/feed.c: what strtok, strtol and isspace do
--   Feed/Commands       feed.c: feed_command, feed_valid_service, feed_reply
--   Feed/Sockets        feed.c: feed_set_nonblock, feed_prepare, feed_loop for a number of rounds
--   Prelude, Prelude/*  integers, texts, printf of numbers, tests
--   Examples, Examples/* a scripted system, and runs of the theorems on it
-- The child modules of a component hold its theorems.
--
-- How state and control are modelled. A function that changes variables or calls the system is a
-- function from the state to a result and the new state (M). A system call takes the outside world and
-- gives an answer, with errno when it fails, and a new world. Where other calls come between a failed
-- call and perror, errno is read from the world (md2.c). What is done to other processes and files is
-- also kept in a trace of events, and each line that the log accepts in a list. In hsv.c the waits and
-- signals for the service go through hsv_waitpid and hsv_kill, which make their events from what the
-- call answered, and stop_wait notes each look for the process. A function
-- of the source that runs on after a call is cut there, and the rest is a function of the answer. A
-- pointer that may be NULL is an Option; a result of -1 that comes with no other output is negsuc 0.
--
-- Loops. The loops over the table run on its count. The loops of process_wait, process_reap and
-- signal_process end only when waitpid stops being interrupted or handing over children: they run on
-- fuel, the number of such events that the world still holds (patience) plus one, and Settles says that
-- each of them is then past, so that the fuel is enough.
--
-- The loops of hsv.c and md2.c run until a signal comes. The signals that came are looked for
-- (arrivals) and handled before the tests of the flags that they set; in md2.c also after the checks,
-- which do not look at the flag. Their fuel is patience plus one again: Watchful says that SIGTERM
-- comes after finitely many looks, that each interruption of a sleep is
-- then past, and that no call makes such events. It supposes that SIGTERM is let through to the program.
--
-- The loop of logger.c goes on until q is pressed, and that of feed_loop while clients come: they
-- are modelled for a number of rounds. The loop of logger_load_file runs on the length of the file,
-- since each round of fgets reads at least one byte.
--
-- Bounds. The pids, statuses and modes are small: no wrap-around of int occurs, and none is written.
-- The HSV table has 128 entries with arrays of PATH_MAX (4096) bytes for their paths; messages are cut
-- at the size of their buffers, as snprintf does. The viewer keeps 4096 lines of at most 511 bytes.
--
-- Not modelled: a system call that never returns; messages on standard error, but for those of
-- [SYSLOAD], [MD], logger.c and feed.c, which are kept with standard output as one list (console)
-- in the order of the calls; the child's side of fork, with the signal mask that it inherits; the
-- delivery of signals to PID 1 outside sigsuspend; stdio's buffers; the flags of termios, of which
-- only the raw and the old mode are told apart.
mod Prelude
pub mod Kernel
pub mod Log
pub mod Process
pub mod Image
pub mod Mode
pub mod Load
pub mod Signals
pub mod Hinit
pub mod Hsv
pub mod Machine
pub mod Md
pub mod Logger
pub mod Feed
mod Examples
