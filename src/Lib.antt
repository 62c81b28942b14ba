-- ===== src/Lib.antt =====
-- The programs of a course on network programming with the POSIX interfaces, in C, one directory for
-- each week and one for the final exercise. The programs share no code; what they share are the calls
-- of the C library and the kernel.
--
-- The parts and their files:
--
--   exercise/exercise.c, a client of the UNIX_TL service. `main` connects to the service, greets it,
--   reads a port off its fifth message and starts `childServer` there in a new process, which serves
--   each connection with `newConnection` in a process of its own. That answers the commands E (echo
--   in capitals), C (path of the source), F (a file over a new connection), A and Q (end) and
--   comments (#).
--     Exercise/Split       `split`: the words of a line, in an array that ends with a null pointer
--     Exercise/Reply       `echoer`, `getsrcfldr`, `filetransfer`
--     Exercise/Connection  `newConnection`; a record Session holds its local variables, one function
--                          models each branch of its chain of tests; Exercise/Connection/Protocol
--                          states what it sends with no buffers, Connection/Output that it puts
--                          nothing else on its socket
--     Exercise/Server      `childServer`; Exercise/Server/Connections goes from its loop to the
--                          answers of `newConnection`
--     Exercise/World       `childServer` and the processes of its connections, turn by turn in every order,
--                          as a server that forks (Posix/Forking); what they send (Answers), when the
--                          parent ends (Kills, Terminated), what they record (Recorded), what an array
--                          that is not initialised can do (Junk)
--     Exercise/Client      `main`, `handle_signals`; Exercise/Client/Whole goes from the command line
--                          to the answers of `newConnection`
--     Exercise/Tests       runs on concrete inputs
--
--   week3/teht1_1.c, teht1_2.c, teht1_3.c, three programs joined by named pipes: the reader writes each
--   line it reads in a block of 100 chars, the converter changes the case of its letters, the doubler
--   prints it twice.
--     Pipeline             the three programs
--     Pipeline/Reader, Converter, Doubler, Whole, Tests
--
--   week6/unpv22e/mutex/prodcons6.c, threads that store numbers in an array and threads that take them,
--   with two mutexes and a condition. A step of the model is what a thread does between locking a
--   mutex and unlocking it, or waiting on the condition; Step is the relation of all of them, Reach the
--   states that they lead to, the returns of a wait with no signal included.
--     ProdCons             the locked sections as functions, and the steps
--     ProdCons/Counting    sums over a list of threads of which one makes a step
--     ProdCons/Sound       what the invariant says, and the locked sections against it
--     ProdCons/Served      that a thread is awake while an item is ready
--     ProdCons/Moves       which step is possible in a state
--     ProdCons/Measure     the steps that are left, and runs with their number of steps
--     ProdCons/Counts      the counters where no two changes overlap, and what `main` prints of them
--     ProdCons/Cells, Totals, Report, what they add up to then
--     ProdCons/Race        the loads and the stores of the counters, in every order
--     ProdCons/Race/Near, Close, against the counters where no two changes overlap
--     ProdCons/Race/Lost, Outcome, what they add up to
--     ProdCons/Invariant, Stuck, Progress, Deadlock, Tests
--
--   week4/teht6_server.c and teht6_client.c, a service that sends back what it reads, with a process for
--   each connection, and its client.
--     EchoService          both programs
--     EchoService/Server, Stream, Client, Whole (both on one connection), Tests
--     EchoService/World    the parent and the processes of its connections, as a server that forks
--
--   week1/teht2a.c, teht2b.c, teht4.c and week2/teht5.c, programs that copy what they read once or twice,
--   the last of them in two processes with a pipe between them.
--     Copies               the programs
--     Copies/Cat, Twice, Pipe, Junk, Scan, Tests
--
--   week5/teht3_server.c and teht3_client.c, a server that prints what its clients send, one client after
--   the other, and a client for it.
--     LineService          both programs
--     LineService/Remains, Peers, Tests
--
--   The other programs, most with theorems and tests in child modules:
--     Datagram             week6/teht2_client.c and teht2_server.c, datagrams of given sizes
--     StandardEcho         week4/teht2.c, a client of the echo service
--     Daytime              week5/daytimetcpcli.c, daytimetcpcli_2c.c, daytimetcpsrv1.c
--     Processes            week2/teht2.c and testPipe.c, programs in two processes
--     Reports              week1/teht1.c and teht3.c, what the kernel says of a process and of a file
--
-- What they stand on:
--     Prelude              names of the libraries, Boolean tests, lists over the native numbers
--     Cstring              char arrays, the string functions, ctype.h, decimal numbers
--     Posix                calls as a trace of effects, and how a run ends; Posix/ReadLoop is the interface
--                          of a loop over reads, which the programs with such a loop fill in;
--                          Posix/Fifo is a pipe, bytes in the order of the writes, cut by the sizes of
--                          the reads; Posix/Stream is what is left of writes however they are cut;
--                          Posix/Every is a property of every call of a run;
--                          Posix/Output is all that a run puts on a descriptor, by write or by printf;
--                          Posix/Forking is a parent in its loop over accept beside the processes that it
--                          forked, one turn of one of them at a time, for a Service: a loop over turns and
--                          one turn of it, and a law that they agree, which the two servers fill in;
--                          Forking/Follows compares each process with the run of its loop alone,
--                          Forking/Kills says when a signal ended the parent
--
-- How the code is read. A char is a number below 256 and an array is a list of chars; an access outside
-- an array is an outcome of its own (`faulted out_of_bounds`), as are a null pointer and a failed
-- assertion. Arrays and variables that nothing initialises are arguments. A function that calls the
-- kernel has the type Proc: the list of the calls made, and an outcome (returned, exited, faulted,
-- blocked). What the kernel and the name services answer are arguments (Answer, ReadResult, Forked); a
-- loop over reads or connections takes the list of the answers to come, and is `blocked` at its end,
-- where the process waits. A run is the run of one process: what follows a fork depends on the side
-- that it returned in; only Posix/Forking has processes beside one another. An int is its pattern
-- modulo 2^32, and the order of bytes that of a little-endian machine with signed chars.
--
-- Bounds and fuel. The loop of strtok runs on fuel, one more than the length of the line, which is
-- enough since each token takes a char; the copy loop of `filetransfer` runs on the cells of its array.
-- The arrays of the pipeline have the size that the functions are given, 100 in `main`; the threads of
-- prodcons6 are any number.
--
-- The counters of prodcons6, which two threads change with no mutex, are taken to be loaded and stored as
-- wholes, and a store to be seen by the next load.
--
-- Not modelled: what the kernel keeps of sockets and processes; calls that a signal interrupts, where the
-- code does not look at that; SIGPIPE on a write to a peer that is gone, whose handler in exercise.c would
-- end the process (such a write is taken to return an error, as to a caller that ignores the signal); the
-- limit of the stack, for the arrays whose size is read (`filetransfer`, the datagram client); failures of
-- strdup; the copies of a book's sources in week5 and week6
-- (unpv13e, unpv22e).
pub mod Prelude
pub mod Cstring
pub mod Posix
pub mod Exercise
pub mod Pipeline
pub mod ProdCons
pub mod EchoService
pub mod Copies
pub mod LineService
pub mod Datagram
pub mod StandardEcho
pub mod Daytime
pub mod Processes
pub mod Reports
