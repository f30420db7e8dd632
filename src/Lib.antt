-- ===== src/Lib.antt =====
-- JOS, a small operating system for x86-64 with an exokernel interface: a kernel, a file server and
-- a user library. This is a model of the tree JOS-with-network, with theorems on its core.
--
-- The parts and their files:
--   Pmap    kern/pmap.c: the physical page allocator (`page_alloc`, `page_free`, `page_decref`),
--           Pmap.Init the free list that `page_init` makes, and,
--           below Pmap.Walk and Pmap.Map, the four-level page tables and what is mapped by them;
--           Pmap.Tables has the tables of an address.
--           A page is a number; its `struct PageInfo` and its 512 words are found under it.
--   Env     kern/env.c: the table of environments, `env_init`, `env_alloc`, `envid2env`. An
--           environment is its index in `envs`; Env.Vm is the page that it gets for its tables. `Kernel` is
--           the state that Pmap, Env and Sched share.
--   Sched   kern/sched.c and `env_run`: the scheduler on any number of processors. The big kernel
--           lock makes each call one step on the `Kernel`.
--   Fs      fs/fs.c: the free-block bitmap and `check_bitmap` over the words of the disk's blocks;
--           below Fs.File the direct and indirect blocks of a file, and reading and writing of its
--           bytes (Fs.File.Io, Fs.Bytes); Fs.Dir and Fs.Dir.Path the directories and paths.
--           Fs.Serv is fs/serv.c: the table of open files and the handlers of requests.
--   Pipe    lib/pipe.c: one reader and one writer, interleaved at each access to the shared page.
--   Syscall kern/syscall.c: the calls on environments, their memory (Syscall.Page) and messages
--           between them (Syscall.Ipc). `env_destroy` stands in Sched.Destroy, `env_free` in Env.Free.
--   Descriptor lib/fd.c: the file descriptors of an environment, with devices as parameters.
--   Malloc  lib/malloc.c: `malloc` and `free` on the pages of their area.
--   Fork    lib/fork.c: `duppage` and the walk of `fork`, on the entries of both address spaces, and
--           `pgfault` at what the parent writes to during the walk.
--   Cstring lib/string.c: strings as the bytes up to the end of their object; Cstring.Strtol `strtol`.
--   Format  lib/printfmt.c: `printnum`, in Format.Spec and Format.Vprintfmt the escapes of `vprintfmt`,
--           and `vsnprintf`. What is printed is a list of characters.
--   Nic     kern/e1000.c: the rings of the network card's driver, in Nic.Ring together with the card.
--   Memory  lib/string.c: `memmove`, as compiled with ASM.
--   Prelude what these share: Boolean tests, lists, array updates, bits of words, panics.
-- `env_alloc` takes pages from Pmap for `env_setup_vm`, the scheduler works on the environments'
-- states, and the file server reaches its blocks through the bitmap. Fs.Serv calls the operations on
-- paths and files, and shares the Fd pages with its clients. The driver's buffers are pages of Pmap.
--
-- Conventions. Numbers are natural numbers; where C wraps around, the model reduces modulo a power
-- of 2, as for `env_runs` and `pp_ref`. A call that may panic (or stop at a failed assertion)
-- returns an `Outcome`; an error code is a constructor of a `Reply`. Loops over tables recurse on
-- the number of rounds: NENV for those of the scheduler, the number of blocks for those of the file
-- system, which is the bound of the loop in the source or above it. `printnum` divides its number by
-- the base at each call, so that the number is enough fuel; `vprintfmt` has one round more than its
-- format has bytes, and the walk of `fork` one more than there are pages below its start.
--
-- Not modelled: devices, assembly, booting, ELF images and debug data, which touch hardware or only
-- read other data; the copy of lwIP in net/lwip; the block cache's transfers of sectors, of which
-- only the calls of `flush_block` are recorded; the rest of `fork` and the stubs of the user library.
-- `elf` of `struct Env` is left out, as only `load_icode` uses it. The counters of `readn`, which are
-- of type int, are those of fewer than 2^31 bytes, and a read through a pointer that was never set, in
-- `sys_ipc_try_send`, counts as a panic. The tree JOS-with-file-system is an earlier state of the same files.
pub mod Prelude
pub mod Pmap
pub mod Env
pub mod Descriptor
pub mod Malloc
pub mod Sched
pub mod Syscall
pub mod Fs
pub mod Pipe
pub mod Cstring
pub mod Memory
pub mod Format
pub mod Nic
pub mod Fork
