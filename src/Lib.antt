-- ===== src/Lib.antt =====
-- Models of uACPI, an ACPI implementation in C, and theorems about them.
--
-- The parts, and how they interact:
-- * source/shareable.c, the reference counts of shared objects: Shareable.
-- * source/mutex.c and include/uacpi/internal/mutex.h, the locks: Mutex.Native has the wrappers of
--   the kernel's mutexes, on which all other locks rest; Mutex.GlobalLock the lock that is shared
--   with the firmware; Mutex.RwLock and Mutex.Recursive the two built locks; Mutex.Aml the mutexes
--   of AML programs, which use the global lock, and drop and retake the namespace's write lock.
-- * source/osi.c, the interfaces that _OSI reports: Osi.Table the list of interfaces, Osi the
--   operations under the interface mutex, Osi.Calls the operations as data.
-- * source/notify.c, the handlers of Notify(): Notify.
-- * source/event.c, the fixed and the general purpose events: Event their data, Event.Fixed the fixed
--   events and Event.Fixed.Interrupt their interrupt; Event.Gpe the operations on one event and its
--   register, Event.Dispatch what runs when one fires, Event.Store the events in their blocks and
--   the loops over those, Event.Block blocks as a whole; Event.Lock the frame of the calls, which
--   hold the recursive event lock, Event.Handlers, Event.Wake and Event.Setup the calls. The
--   registers are read and written by Gas.Transfer and Registers; Event.Invariant.Calls has the calls
--   on single events as data, and Event.Api those of include/uacpi/event.h.
-- * source/tables.c and include/uacpi/internal/dynamic_array.h, the tables: Tables.Array the array,
--   Tables.Table one table and its references, Tables.Control the mutex and the requests to a table,
--   Tables.Search the searches, which go through the same mutex, Tables.Fadt the FADT's corrections,
--   Tables.Install the installation, which calls the host's handler and itself for a DSDT.
-- * source/io.c up to line 397, fields: Field.Copy the copy of bits between memories, Field.Buffer
--   fields of buffers, Field.Unit fields behind operation regions, which use both.
-- * source/io.c from line 399, registers behind a Generic Address Structure: Gas.Access the choice
--   of the access width, Gas.Transfer the accesses.
-- * source/registers.c, the fixed registers and their fields: Registers.Table the tables,
--   Registers the operations, which read and write by Gas.Transfer.
-- * source/stdlib.c, the library's own string functions: Stdlib.Memory those on memory,
--   Stdlib.Format the writes of vsnprintf, Stdlib.Printf its directives, Text.CString the comparison.
-- * source/utilities.c, in parts: Text.Chars the classes of characters, Text.Integer the reading of
--   numbers, which Stdlib.Printf uses too, Text.Eisa the EISA identifiers.
-- Base has the shared names and lemmas, and Host what include/uacpi/kernel_api.h asks of the
-- embedding kernel.
--
-- A definition has the name of the C function without its prefix `uacpi_`; a helper is named for the
-- part of a function that it models. What a function changes is passed to it and returned: the
-- fields of its file's static variables or of the runtime context as a record, and the world of
-- the kernel, of a type that the models never look into. A handle is a number, 0 for UACPI_NULL; a
-- status is `ok` or an error; a C string is the list of its bytes before the NUL. The kernel's
-- operations are a record of functions on its world, and what its documentation promises a record
-- of laws, which the theorems about held mutexes take as parameters. Numbers are natural numbers,
-- and arithmetic that can wrap is written with `% 2 ^ w`.
--
-- Loops: those over lists recurse on the list. The attempts to take the lock from the firmware are
-- a number, 0xFFFF in `acquire_from_firmware`; the theorems are about any number of them. A
-- compare-and-exchange loop takes the list of the values that others store meanwhile and ends when
-- they do. The transfer loops have as many rounds as there are bits, which is enough since each
-- round takes one bit at least; the halving of the access width has five, from 128 to 8 at most.
-- The copy of bits has as many rounds as the destination has bits, each of which takes one at least;
-- a write to a field unit one more than the field has bits; the digits of a number at most 64, since
-- a division by the base halves it at least; the turns of vsnprintf as many as the format has
-- characters, each of which takes one at least. An installation has a depth of
-- nested ones, where the code has no bound: a FADT may name another one as its DSDT. Loops over
-- registers and events have as many rounds as the block has of them. A memory is a
-- function from addresses to bytes.
--
-- Not modelled: logging; the threads themselves, so that each operation is one sequence of steps;
-- what a driver's callback does to the library's own state, since it acts on the kernel's world
-- only; the names of the triggerings; the RSDP and the early access to the tables; the files of the interpreter, the namespace, the
-- resources, the sleep states and the operation regions, and what source/utilities.c
-- evaluates by them.
pub mod Base
pub mod Host
pub mod Shareable
pub mod Stdlib
pub mod Text
pub mod Mutex
pub mod Osi
pub mod Field
pub mod Tables
pub mod Event
pub mod Gas
pub mod Registers
pub mod Notify
pub mod Tests
