-- ===== src/Lib.antt =====
-- A peer of a chat network that floods its messages over UDP. It keeps a search tree of the
-- neighbours that it hears (`NEIGHBORS`) and one of those that it knows of (`POTENTIAL`), the last
-- messages with the neighbours that have not acknowledged them (`DATAF`), and for every neighbour
-- the TLVs that wait to be sent in one datagram.
--
-- The files, and the parts of the program that they model:
-- - Prelude, Bytes: tests, lists and numbers; words in memory, of a machine that is little-endian.
-- - Neighbor: struct.h, and `compare_n` of util.c.
-- - Abr: abr.c, the trees. Order has the invariant, Lookup the trees as dictionaries, Listing what
--   `find_by` visits, and Shape the functions that look at a tree as a whole.
-- - Genlist: genlist.c. Counted is about the field `length`, Search about `get` and `remove_elem`.
-- - Tlv: the construction of TLVs in tlv.c; Format has their shape and the room that they take.
-- - Flood: the entries of list.c and their order; Entries is about the lists that `find_by` makes.
-- - Net: the buffer of a neighbour and the sends of net_lib.c; Buffer is about one neighbour,
--   Buffer/Everyone about a whole tree.
-- - Peer: the globals (peer.h) as a record, and what list.c does with `DATAF`. Valid has the
--   invariant, Removal what `remove_neighbor_everywhere` leaves.
-- - Periodic: the periodic work in net_lib.c; Valid keeps the invariant, Farewell follows a GoAway.
-- - Receive: the handlers of tlv.c and the loop of `handle_message_h`. Meeting and Valid keep the
--   invariant, Frames is about the loop, Hello and Data are about two handlers,
--   Repeat about a data TLV that comes again, Table has the
--   handlers by the number of the type.
-- - Flooding: the transmission of floods in util.c; Valid keeps the invariant, Inactive follows a
--   neighbour that does not answer, Late an entry that is sent again too late, and Order is about
--   the times along a list. Schedule, Rounds, Loop and Ends are about the end of the loop: the
--   chain, a round, all of them, and the loops as relations.
-- - Sockets: the addresses and the sockets of net_lib.c.
-- - Main: the loop of main.c as a function of the events of a round; Invariant is about its runs,
--   Delivered about the buffers at the end of a round, Farewell about `disconnect`.
-- - Startup: main.c up to its loop, and the whole program; Valid has the invariant from there on.
-- - Gui: websocket.c, the process that serves browsers and its two pipes to the peer. Relay is about
--   what passes through it, in the terms of Traffic.
-- - Fragments: `write_big_data` and `bigdata` of tlv.c, which the program does not call. Texts has
--   the fragments that are sent.
-- - Print: the texts of the print_ functions; Lines is about trees and messages.
-- - Spare: what is declared and not used.
-- - Protocol: the peer as a transition system on its neighbours and floods, without buffers and
--   messages. Handlers, Jobs and Rounds show that the code makes these changes alone; Floods, Ready,
--   Unlink, Syms and Linked are about what they keep: lists whose loops end, and entries that point
--   to neighbours; Dangling is about a time at which they do not. Timed, Overdue, Punctual and Runs
--   are about the times of the transmissions.
-- - Delivery: a text on its way from one peer to the next.
-- - Integrity: the texts in buffers, datagrams, floods and on the screen. Sends is about net_lib.c,
--   Peers about the globals, Handlers about tlv.c, Jobs and Floods about what is sent unasked, and
--   Rounds about the loop.
-- - Network: the peers and the network between them as a step relation; Start has the peers at the
--   start of their loops, Safety what every peer keeps.
-- - Tests: the theorems at concrete values.
--
-- The globals are passed on as a record; what C writes to a socket or to the screen is appended to
-- the lists `sent` and `shown`. A function that takes a pointer into `NEIGHBORS` takes the address
-- of the neighbour, `send_via`: a tree holds an address once, and a send through a pointer to a
-- neighbour that was freed, which is not defined, does nothing; Protocol/Linked has runs without
-- one. What comes from outside is a parameter: the clock, which stands still during a round, the
-- numbers that `rand` returns, the contents of fresh memory, the datagrams and the texts. The
-- trees and `init` have a parameter for `malloc`; the handlers take it to succeed, and `sendto`
-- too. The times are numbers that do not wrap, and `char` is unsigned, as on ARM: where it is
-- signed, `send_data` is not defined for a TLV of more than 127 bytes.
--
-- Four loops run on fuel. Those of `print_msg` and `write_big_data` go on by two bytes and by 231
-- in each round, and have a unit of fuel for every byte. That of `handle_message_h` has one unit
-- more than there are bytes, of which every round takes one at least. That of
-- `flood_message_to_neighbours` has two for every entry and one more: an entry is visited where it
-- is due, and is put back at a later time unless it has been sent five times, where it is visited
-- once more and removed; this takes a neighbour to have one entry, which every run keeps, and the
-- times to lie within 32768 seconds, since `compare_n_s` cuts their difference to a `short`. The
-- relations of Flooding/Ends are these loops without fuel.
--
-- The network of Network.antt delivers any datagram that was sent to any peer, any number of times,
-- as from any address; a peer may go on after its farewell.
--
-- A copy to a number that the code takes for an address, a null pointer that is read and a write
-- beyond an array in `callback_chat` or `bigdata` are not defined: the model's result is none.
--
-- `write` with a size near 2^64, for a data TLV of less than 13 bytes, fails and shows nothing. Where
-- nothing is left of a typed text, the byte in front of the array, which the code reads, is taken to
-- be neither 0 nor a newline.
--
-- Not modelled: libwebsockets in lib_dir, whose constants and results are parameters; what the
-- handlers, the main loop and the server write to the terminal for the developer; the declarations
-- of headers without a definition; and the page itself (chat.html, chat.js).
pub mod Prelude
pub mod Bytes
pub mod Neighbor
pub mod Abr
pub mod Genlist
pub mod Tlv
pub mod Flood
pub mod Net
pub mod Sockets
pub mod Peer
pub mod Periodic
pub mod Receive
pub mod Flooding
pub mod Main
pub mod Print
pub mod Fragments
pub mod Gui
pub mod Delivery
pub mod Integrity
pub mod Network
pub mod Startup
pub mod Spare
pub mod Protocol
pub mod Tests
