-- ===== src/Lib.antt =====
-- Verification of the kernel of flurry, an x86_64 operating system. The files here model the parts
-- of the kernel that keep state or compute: each definition is a translation of the C code that it
-- names, with the wrap-around of machine words written out, NULL as 0, and a failed assertion
-- (kpanic, which halts for ever) as an outcome of its own.
--
-- Prelude holds what the parts share: Boolean tests, lists, machine words, the bit operations as
-- arithmetic, memory as words at addresses, and the outcome of a call that may stop the machine or
-- run out of the rounds that a loop is given.
--
-- Kmalloc is kernel/memory/kmalloc.c. `mem` is the heap's memory by 8-byte words and
-- `freelist_head` the head of the list of free chunks; a function that changes them takes a Heap
-- and returns one. kmalloc's search runs on rounds, and as many as the freelist has chunks, and
-- one, are enough. A heap is well formed (IsHeap of Kmalloc/Invariant) when chunks tile it from
-- HEAP_START to HEAP_END, each with its metadata, which say its size, whether it is free and
-- whether the chunk before it is, every free one that has a chunk behind it with its footer, and
-- the freelist links exactly the free ones. A row of chunks is changed at one chunk (IsChange):
-- alloc_here of Kmalloc/Alloc says how kmalloc changes it, free_here of Kmalloc/Free how kfree
-- does, and the four ways of kfree stand in Kmalloc/Free/Alone, Prev, Next and Both. In such a row
-- no two free chunks lie side by side. The mapping of the heap's pages by kmalloc_init stands in
-- Vmm.
--
-- Pmm is kernel/memory/pmm.c: memory by its 8-byte words, with the list of free frames in the
-- frames themselves. A region is taken in rounds, one for each of its pages and one more.
--
-- Paging is kernel/memory/paging.c and the calls of kernel/memory/vmm.c that pass on to it, over
-- the frames of Pmm; the flushes of single translations are kept as a list. Paging/Descend is
-- about the way down through tables that are there or are made, Paging/Walk about the mapping of a
-- page. Vmm is kernel/memory/vmm.c with vmm_init, and the loop of kmalloc_init that maps the heap;
-- its loops run on rounds, one for each page and one more for the end. Vmm/Loops and Vmm/Mappings
-- are about what the loops map, Vmm/Init about vmm_init; Vmm/HeapPages is about the heap's pages,
-- which lie below one last table, Vmm/Backing about one of them, Vmm/HeapRun about the loop over
-- them and Vmm/HeapInit about kmalloc_init.
--
-- Strings is kernel/string.c over memory as bytes at addresses; strcpy runs on rounds, one for
-- each byte up to the NUL.
--
-- Tty is log/tty.c: the printing of numbers, where itoa runs on rounds, of which more than the
-- number are enough; and in Tty/Cursor the cursor and the drawing of characters, as the sequence
-- of writes to the framebuffer.
--
-- Events is kernel/multitasking/events.c: the links of all events in a store, each field a
-- function of the event's address, with 0 for NULL. Events/Shape says when the links are a tree in
-- a context, Events/Hang and Events/Placed follow bst_transplant, Events/Supplant and
-- Events/Delete the cases of bst_delete, Events/Insert the search of event_bst_insert, and
-- Events/Calls what each call does to the queue as a list. The search and the walk to the minimum
-- take a round for each level of the tree, which more rounds than events cover.
--
-- Sched is kernel/multitasking/sched.c: the linked list of ready threads, the switch of threads
-- and the timer's handler, over the event queue of Events and the timer of Lapic. In place of a
-- thread's saved stack the state has where the thread goes on: at its start, in the handler's loop
-- or behind thread_yield. The readings of the clock and the nodes that kmalloc gives are
-- parameters, in the record Machine. Sched/Fifo is about the thread list, Sched/Slice about one
-- switch, Sched/Turn about many, Sched/Handler about the handler, Sched/First about the switch
-- from a thread that cannot run to a new one, Sched/FirstRun about the handler's run in which that
-- happens. SchedBoot is sched_init: the threads that it creates, the first event and the first run
-- of the handler. The handler's loop runs on rounds, one for each event that a run handles and one
-- more.
--
-- Threads is kernel/multitasking/thread.c and process.c: the fields of threads as functions of the
-- address, and the words of their stacks.
--
-- Madt is kernel/acpi/madt.c: memory by its bytes, the place of the table a parameter, each list
-- of the source the list of its entries, and the heap the number of nodes for which kmalloc has a
-- chunk. Madt/Entries says what the lists become, Madt/Loop that the loop reads the table's
-- entries; it runs on rounds, one for each entry and one more.
--
-- Elf is elf_read of kernel/abi/sysv/elf.c. Gdt and Idt are the descriptor tables of kernel/cpu;
-- Interrupts is the table of handlers and the allocation of vectors of
-- kernel/interrupts/interrupts.c.
--
-- Ioapic and Lapic are kernel/hardware/ioapic.c and lapic.c: what a function does to a chip is the
-- sequence of its writes, each an address and a value. Clock is kernel/hardware/tsc.c,
-- kernel/time/timer.c, the reading of kernel/acpi/hpet.c and clamp of kernel/common.c; a wait
-- takes the readings of the clock as a function and runs on rounds, of which as many are enough as
-- there are readings before its time.
--
-- Boot is kernel/boot/entry.c: the boot loader's answers are parameters, and the result is what
-- kinit is called with, the stop of a failed assertion, or an access outside of an array. Uacpi is
-- kernel/acpi/uacpi_interface.c, the services that the uACPI library calls.
--
-- Syscall is kernel/syscalls/syscall.c, over the model specific registers by number.
--
-- Not modelled: the bodies of the test threads and of the reaper, the order of kinit, kprintf, the
-- set-up of the HPET and of the I/O APIC, the log; assembly; and the vendored libraries.
pub mod Boot
pub mod Clock
pub mod Elf
pub mod Events
pub mod Gdt
pub mod Idt
pub mod Interrupts
pub mod Ioapic
pub mod Kmalloc
pub mod Lapic
pub mod Madt
pub mod Paging
pub mod Pmm
pub mod Prelude
pub mod Sched
pub mod SchedBoot
pub mod Strings
pub mod Syscall
pub mod Tests
pub mod Threads
pub mod Tty
pub mod Uacpi
pub mod Vmm
