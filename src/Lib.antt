-- ===== src/Lib.antt =====
-- Verification of K1OS: the terminal of its display server, and the data structures of the Wayland
-- library that the image ships.
--
-- packages/k1de is the console that the image boots into. Its main loop reads what the shell
-- writes and gives it to Terminal::process_byte of src/main.rs, byte by byte; the terminal keeps a
-- grid of cells, a cursor, the colours and the state of the escape sequences, and the grid is
-- drawn to the frame buffer.
--
-- packages/wayland/build is built into the image. Its parts are the core structures that client
-- and server share (src/wayland-util.c), the connection with its buffers and the marshalling of
-- messages (src/connection.c), the event loop (src/event-loop.c), and the client and server
-- libraries on top of them. A connection keeps two byte queues and two queues of descriptors; a
-- display or a client keeps a map from object ids to objects, which grows in a wl_array.
--
-- Files and sources:
--   Prelude         numbers, tests, lists over the native numbers, steps that may fail.
--   K1de.Palette    the palette and its reduction: rgb, ansi256_to_rgb and nearest_16.
--   K1de.Terminal   Terminal of packages/k1de/src/main.rs: new, resize, newline, put, apply_csi and
--                   apply_sgr, with the struct's fields. Terminal.Input is process_byte and the
--                   loop over the bytes read. A result of `none` is a panic of the program, by an
--                   index or a range out of bounds. Terminal.Grid and Terminal.Invariant are about
--                   the cells and the sound states, Colors and Safety about the bounds, Text and
--                   Print about what is shown, Motion about a move of the cursor, Strings about OSC
--                   and DCS.
--   Wayland.Array   wl_array of src/wayland-util.c. `items` are the elements up to `size`, `alloc`
--                   is the room. malloc and realloc are the parameter `can_alloc`, which says
--                   for each size whether it is met; a second parameter is what new memory holds.
--   Wayland.IdMap   wl_map of src/wayland-util.c. An entry is the word that the union holds: a
--                   pointer with the flag in bit 1, or twice the next free index with bit 0 set.
--                   The two arrays, the side and the free list are the fields of the struct.
--                   An access past the end of an array is `none`. Insert, Remove and Visit are about
--                   the operations, Invariant and Store about the sound states.
--   Wayland.Links   wl_list of src/wayland-util.c: the members `prev` and `next` of each node, by its
--                   address. Links.Laws is about what insertion and removal keep.
--   Wayland.Ring    wl_ring_buffer of src/connection.c: the block, the two counters modulo
--                   2 ^ 64 and the size bits. Ring.Contents relates it to a list of bytes,
--                   Ring.Space is about its growth and its limit. The copies with memcpy are
--                   those of Wayland.Block, and Wayland.Cyclic has the windows of a round block.
--   Wayland.Signature
--                   get_next_argument, arg_count_for_signature and wl_message_count_arrays of
--                   src/connection.c, on the characters of a signature; Signature.Print writes
--                   signatures out.
--   Wayland.Word    words of 32 bits as four bytes, the lowest first.
--   Wayland.Closure the closures of src/connection.c: arguments, wl_closure_init, the clearing and
--                   the closing of descriptors. Marshal is wl_closure_marshal, Serialize is
--                   serialize_closure with buffer_size_for_closure, Demarshal is
--                   wl_connection_demarshal, Lookup is wl_closure_lookup_objects, and Sending is
--                   wl_closure_send and wl_closure_queue. Transfer, OneArgument, RoundTrip,
--                   Messages, Header and Delivery are about a message on its way from the one to
--                   the other, Room is about the size of its buffer. The parameter `memory` gives
--                   the object behind a pointer, and dup is the parameter that gives the new
--                   descriptor, if it succeeds.
--   Wayland.Connection
--                   wl_connection of src/connection.c. Connection.Send has wl_connection_flush,
--                   queue, write and put_fd; sendmsg is a list of its answers, one for each call, and
--                   a call with no answer is one that waits for ever. Connection.Receive has
--                   wl_connection_read and decode_cmsg over such a list for recvmsg. The children of
--                   both are about what is sent, kept, taken in and closed.
--   Wayland.Shm     wl_shm of src/wayland-shm.c: a pool with the buffers that point to it and the
--                   references of the compositor, where the answers of malloc, mmap, mremap and
--                   wl_resource_create come with the requests, and mremap is the system's. Bounds is
--                   about the numbers of a buffer; Steps, Changes, Lifetime and Runs are about the
--                   references to a pool. Shm.Access has the accesses of one thread and the
--                   handler of SIGBUS.
--   K1de.Tests, Wayland.Tests, and the Tests of Wayland.Closure, Connection, Links and Shm
--                   the tests and the uses of the theorems at concrete inputs.
--
-- A connection fills the arguments of a closure from the queues that a read has filled, and puts
-- the words of a closure into those that a flush empties, so the theorems on closures and on
-- connections meet at the contents of the rings.
--
-- Machine integers: size_t and the counters are taken modulo 2 ^ 64, ids and counts modulo
-- 2 ^ 32, with the wrap-around written out. Pointers are numbers, aligned where the code needs
-- it. The loop of wl_array_add runs on 65 units of fuel: it doubles a number from 16 on, so 61
-- rounds reach 2 ^ 64. get_max_size_bits_for_size runs 52 rounds, from 12 bits to 64.
--
-- The loop of a tab runs on 8 rounds, the width of a tab stop. The number of an escape sequence's
-- parameter is taken modulo 2 ^ 32, as the release build computes it. Sums of usize in the terminal
-- are plain: the number of cells is the length of a vector, below 2 ^ 63, and a parameter is below
-- 2 ^ 32.
--
-- The rest of the machine's numbers: sizes of arguments and messages are taken modulo 2 ^ 32 where
-- C has them in 32 bits. What C keeps in an int, as the size of a closure and the counts that
-- wl_connection_flush and wl_connection_read return, is the word of 32 bits that holds it: one from
-- 2 ^ 31 on is negative. A call of sendmsg or recvmsg moves at most 0x7ffff000 bytes on Linux, so its
-- own count is plain. A negative count out of a flush is taken for an error other than EAGAIN by
-- those who test its sign. CMSG_LEN is that of a 64-bit system. The number of queued descriptors,
-- an int32_t in C, is plain, which is exact for queues below 2 ^ 33 bytes; the theorems that name a
-- larger bound speak of the code up to there. The references of a pool are plain, since each takes
-- memory. Numbers of a wl_shm request are integers, and sums of them plain, since the sums are of
-- ssize_t and a product is tested before it is used.
--
-- State that the sources do not hold: the `region` of a pool is the mapping that the system has for
-- it, which mmap makes and mremap moves, beside the fields that the code keeps. The callback of
-- wl_map_for_each takes the map and gives it back, so that it may remove entries in the walk.
--
-- Not modelled: Terminal::render, the glyphs and the frame buffer, the pty, the keyboards and the
-- main loop of k1de, which are device I/O; wl_array_release and wl_map_release, which only free
-- memory; wl_closure_invoke and wl_closure_dispatch, which call through libffi, and
-- wl_closure_print, which writes to a stream; the set-up of the SIGBUS handler and of the global
-- of wl_shm; the event loop, the client and server libraries; the scanner, cursors and egl;
-- libxkbcommon, which is another project's library that no code here calls; the other packages of
-- the image, which are built from other projects.
pub mod Prelude
pub mod Wayland
pub mod K1de
