-- ===== src/Lib.antt =====
-- PyTCP: a TCP/IP stack that runs in user space, in Python, on a TAP interface.
--
-- The stack is a chain of packet handlers, one for each protocol, between two rings of frames. A
-- frame that arrives is parsed by the handler of each layer in turn; a TCP packet ends in the
-- session of its connection, a state machine (`TcpSession.tcp_fsm`) that three kinds of events
-- drive: a packet, a system call of the program that uses the socket, and a tick of the timer
-- thread, once in a millisecond. What the session sends goes down the same chain. This library
-- models the core of that: the session, the timer, the packets of TCP, UDP, ICMP and IP on both
-- sides, the reassembly and the sending of IP packets, UDP sockets, addresses, ARP and the
-- checksum.
--
-- Files, and the code that they are about:
--   Prelude, Dict: lists, Boolean tests, integers and dictionaries, for all files. A Python
--     `dict` is an association list, an `int` that may be negative is ℤ, any other is ℕ.
--   Checksum: `inet_cksum` of pytcp/lib/ip_helper.py. Checksum/Reference has the Internet
--     checksum of RFC 1071 as the specification; Checksum/Residue and Checksum/Laws relate the
--     two.
--   Tcp/State: `TcpSession` (pytcp/protocols/tcp/session.py) as a record with the fields of its
--     `__init__`, in the source's words, `TcpMetadata` (pytcp/protocols/tcp/metadata.py) and the
--     enums. The semaphores are their counts; the timers of the session are a function from their
--     names to the time left; `sent` and `effects` log what the session hands to the stack.
--   Tcp/Outcome: a method returns or raises; in both cases there is a session that it leaves
--     behind.
--   Tcp/Output: what sends (`_transmit_packet`, `_transmit_data`, `_delayed_ack`, the
--     retransmissions) with the assertions of `TcpAssembler` (pytcp/protocols/tcp/fpa.py) that a
--     packet meets.
--   Tcp/Input: what receives (`_process_ack_packet`, `_enqueue_rx_buffer`, the out-of-order
--     queue).
--   Tcp/Fsm: the handlers of the eleven states and `tcp_fsm`. A handler that goes on with a
--     queued packet calls `tcp_fsm` again. Here that call is a parameter of the handler, and
--     `tcp_fsm_at` bounds its depth. `tcp_fsm` gives a depth of one more than there are queued
--     packets, which is enough since each call takes one packet out of the queue
--     (Tcp/Termination).
--   Tcp/Syscalls: `send` and `receive`, and a session that lives through a sequence of events,
--     sends and receives. A timer event ends a tick of pytcp/subsystems/timer.py, which lets the
--     named timers of the session run down first.
--   Tcp/Moves: the specification of the state machine, a relation of single guarded changes;
--     Tcp/Moves/Refinement is about the handlers as sequences of moves, and Tcp/Sequence,
--     Tcp/Stream and Tcp/Syscalls/Delivery about invariants, move by move.
--   Tcp/Limits: events at which the session falls short of TCP.
--   Timer: the named timers and the tasks of pytcp/subsystems/timer.py, with a tick as the unit
--     of time. Timer/Names is about the view of the timers that Tcp/State has.
--   Ip4: `_defragment_ip4_packet` (pytcp/protocols/ip4/phrx.py) on what the parser reads of a
--     fragment, and the cutting of data in `_phtx_ip4` (pytcp/protocols/ip4/phtx.py). The table
--     of flows is a function from identifiers. Ip4/Cut says what the pieces of a packet are;
--     Ip4/Order, Ip4/Pieces, Ip4/Whole and Ip4/Runs follow them through the reassembly;
--     Ip4/Sender is about the sender, Ip4/Overlap about fragments that overlap. A packet of n
--     bytes has at most n fragments since each takes a byte at least; that is the fuel of `cut`.
--     `_phrx_ip4` hands over only packets with MF or an offset.
--   Ip4/Output: the choice of the source address and `_phtx_ip4` (pytcp/protocols/ip4/phtx.py). The
--     way to Ethernet is a function to a status; what is handed to it is logged. Ip4/Output/Numbers is
--     about the identifications over a sequence of calls.
--   Arp: pytcp/subsystems/arp_cache.py, `_phrx_arp` (pytcp/protocols/arp/phrx.py) and the claim of
--     addresses in pytcp/subsystems/packet_handler.py, on one state that holds both sets of
--     conflicts of the source.
--   Ether: the choice of the destination of IPv4 packets in `_phtx_ether`
--     (pytcp/protocols/ether/phtx.py), with the lookups of Arp.
--   Wire: big-endian fields, as `struct` writes and reads them. A frame is a list of bytes; what
--     raises `struct.error` or `IndexError` is `none`, or `crashed` for a check.
--   Packet/Tcp, Packet/Udp, Packet/Ip4: the assemblers (fpa.py) and the parsers (fpp.py) under
--     pytcp/protocols/tcp, /udp and /ip4. The getters of a parser, which read the frame when they
--     are called, are one function that reads all of them; `_packet_integrity_check` and
--     `_packet_sanity_check` are functions to a verdict. The loops over options run on fuel, one
--     more than the header has bytes; Packet/Tcp/Options/Safety is about why that is enough.
--     Packet/Layers puts one assembler into the other. Packet/Ether has the same of Ethernet and ARP
--     (pytcp/protocols/ether and /arp).
--   Address/Ip4: pytcp/lib/ip4_address.py with its base classes. `&` is the binary operation of
--     the prelude, which Prelude/Bits relates to quotients and remainders. What `socket.inet_aton`
--     and the regular expressions make of a text are parameters.
--   Packet/Ip6, Packet/Icmp4, Packet/Icmp6: the same for pytcp/protocols/ip6, /icmp4 and /icmp6, and
--     for the fragment header of /ip6_ext_frag in Packet/Ip6/Frag. The loops over the options of
--     neighbour discovery run on fuel of one more than the length of the frame;
--     Packet/Icmp6/Termination is about why that is enough for the check.
--   Address/Ip6: pytcp/lib/ip6_address.py, as Address/Ip4.
--   Ip6: `_phrx_ip6` (pytcp/protocols/ip6/phrx.py) and `_defragment_ip6_packet`
--     (pytcp/protocols/ip6_ext_frag/phrx.py), on the flows of Ip4. Ip6/Output is `_phtx_ip6`
--     (pytcp/protocols/ip6/phtx.py) with `_phtx_ip6_ext_frag`, which call each other; the fuel is the
--     depth of the calls that the interpreter allows, and beyond it the code raises.
--   Nd: pytcp/subsystems/nd_cache.py and the choice of the destination of IPv6 packets in
--     `_phtx_ether`, as Arp and Ether. What is handed to `_phtx_icmp6` is logged.
--   Icmp6: `_phrx_icmp6` (pytcp/protocols/icmp6/phrx.py), on the cache of Nd and the sockets of Udp.
--     What is handed to `_phtx_icmp6` is the answer; Icmp6/Output is that function, over `_phtx_ip6`.
--   Udp: `UdpSocket` (pytcp/protocols/udp/socket.py) with pytcp/lib/socket.py, over the registry of
--     pytcp/lib/stack.py as a store of objects. Udp/Sockets and Udp/Transfer have the system calls,
--     Udp/Output `_phtx_udp` and `_phtx_icmp4`, Udp/Input `_phrx_udp`, Udp/Icmp4 `_phrx_icmp4`. A
--     wait for a packet that does not come is the timeout.
--   The modules called Tests run the definitions, and apply the theorems, on concrete sessions.
--
-- The order of events is explicit: an event is handled as a whole before the next one, as the
-- lock in `tcp_fsm` has it. A program's `send` or `receive` takes the lock of its buffer only, so
-- in the source it may also run in the middle of an event; that interleaving is not modelled.
--
-- Bounds. The clock of the reassembly counts whole units. Sequence numbers are natural numbers
-- with no wrap-around, since the source does not reduce them; the assembler's assertions bound
-- what is sent. Bytes are natural numbers.
--
-- Not modelled: threads and file descriptors, logging and statistics; TCP sockets, and the blocking
-- calls `connect` and `listen` of a session beyond the events that they send; the choice of the
-- session for a TCP packet and the dispatch of received packets to the next handler; the texts that
-- objects print as, and equality by them; and DHCP.
pub mod Prelude
pub mod Checksum
pub mod Dict
pub mod Tcp
pub mod Timer
pub mod Ip4
pub mod Wire
pub mod Packet
pub mod Address
pub mod Arp
pub mod Ether
pub mod Icmp6
pub mod Nd
pub mod Udp
pub mod Ip6
