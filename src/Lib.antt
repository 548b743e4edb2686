-- ===== src/Lib.antt =====
-- Programs of a course on system programming: a file server with its client (MidtermProject), a pide
-- shop of chefs and deliverers (FinalProject), a grade book with a shell (Homework1), a parking lot
-- (Homework3), the copying of a directory by many threads (Homework4 and Homework5), and a sum and a
-- product over pipes (Homework2).
--
-- The file server. Clients write to a FIFO of the server; its main loop (FileServer/Registrar, `main`
-- and `createChildProcess` of MidtermProject/server.c) hands each to a child process or to the queue of
-- waiting clients (FileServer/WaitQueue, MidtermProject/common.c), and keeps the children in a list
-- (FileServer/ProcessArray, MidtermProject/common.c). A child reads requests (FileServer/Requests,
-- `parse_command` and `server_request`) and runs commands (FileServer/Commands, FileServer/Help; lines
-- of files in FileServer/Reading), under the lock of the file (FileServer/SafeFile) that it looks up in
-- a table (FileServer/SafeDir, both MidtermProject/sync.c). FileServer/Exchange is the commands that take
-- a whole file elsewhere (`cmd_copy`, `cmd_archServer`), and FileServer/Service one round of
-- `server_request` on the two directories. FileServer/Client has the functions of
-- MidtermProject/client.c that work on a line of input, FileServer/Terminal the loop of its `main`, and
-- FileServer/Conversation puts server and client together.
--
-- The pide shop, FinalProject/PideShop.c, and its client, FinalProject/HungryVeryMuch.c. PideShop/Customers
-- is the orders that the client makes. PideShop/Orders is the table of orders, with a function for
-- each critical section on it: `pick_order` for a chef, `collect` and `deliver` for a deliverer,
-- `place_orders` for the main thread. PideShop/Kitchen is the way of the chefs through slots, peels and
-- oven, with the condition variables that they sleep on.
--
-- The grade book, Homework1/main.c. Grades/Shell splits a line into tokens and chooses the command;
-- Grades/Sorting is `sortByGrade` and `bubbleSort`; Grades/Records is `addStudentGrade`, `searchStudent`
-- and `showAll` on the bytes of a file; Grades/Paging is `listGrades` and `listSome`, and Grades/Reports
-- `readStudentsFromFile`, `printStudents`, `sortName` and `sortAll`, all with the memory of their buffers,
-- which strtok reads and writes. qsort is an argument.
--
-- The parking lot, Homework3/hw3.c. Parking/Lot is a lot with its places and semaphores;
-- Parking/Threads is `carOwner` and `carAttendant`, with the queue between them.
--
-- The directory copy, Homework4/200104004104_main.c and Homework5/200104004104_main.c.
-- DirectoryCopy/Traversal is `traverse_directory`, DirectoryCopy/Buffer the bounded buffer, and
-- DirectoryCopy/Pool `manager_function`, `worker_function` and `copy_file_contents`; a flag tells the
-- program with the barrier, Homework5, from the one without.
--
-- The pipes, Homework2/main.c. Pipes is the bytes that the parent and the two children write to the two
-- FIFOs, and what the children read there.
--
-- State is a record with the fields of the C struct, and an operation is a function of it that returns
-- the new state and the result; what a system call may answer is an argument. Concurrent code is a step
-- relation: a thread stands at a program counter and makes one access to the shared state at a time, or
-- does what stands under one mutex, in any order of the threads. A thread that waits on a condition
-- variable sleeps until a signal wakes it, or wakes without one, as POSIX allows. Bytes and pids
-- are natural numbers; sizes and counters stay below the range of an int, and a number that is read from a
-- request is reduced to 32 bits. Where the grade book would write past the arrays of its students, the
-- result is `none`.
--
-- Fuel: the loop of `resize_queue` has the capacity as fuel, since the live cells are no more; the loops
-- over a text or a file have its length, since each round takes a byte at least.
--
-- Not modelled: opening FIFOs and files, signals and fork beyond the events above, the log and all that
-- is printed but for the client's responses and the lists of the grade book; what the external program of
-- `cmd_archServer` makes (the content of its file is an argument); the processes that the shell of the
-- grade book forks; sockets and distances of the pide shop; the handler of SIGINT and the statistics of
-- the directory copy; the waiting of the parent in Homework2.

pub mod Prelude
pub mod FileServer
pub mod PideShop
pub mod Grades
pub mod Parking
pub mod DirectoryCopy
pub mod Pipes
