-- ===== src/Udp/Tests.antt =====
-- A socket that is bound and receives a packet, its other operations, and an answered ping.
use py_tcp.Prelude.{ℕ, ◌≡◌, refl, some, [], ◌∷◌, ◌++◌, true, false, arith}
use py_tcp.Checksum.{word_sum, sum_longs, sum_quads, shifted_remainder, remainder, inet_cksum}
use py_tcp.Checksum.Laws.{carried, dropped_carry}
use py_tcp.Wire.{accepted}
use py_tcp.Ip4.Output.{passed_to_tx_ring, member}
use py_tcp.Packet.Udp.{UdpPacket, check_udp_integrity, parse_udp, check_udp_sanity}
use py_tcp.Packet.Icmp4.{
  Icmp4Message, echo_request, echo_reply, icmp4_words, icmp4_len, assemble_icmp4,
}
use py_tcp.Packet.Icmp4.Laws.{IsIcmp4, request_fits}
use py_tcp.Udp.{
  update, process_udp_packet, inet4, new_udp_socket, SocketTable, get_socket, pop_socket,
  put_socket,
}
use py_tcp.Udp.Sockets.{Given, ok, is_address_in_use, bind}
use py_tcp.Udp.Transfer.{recvfrom}
use py_tcp.Udp.Output.{to_ip4, carried_icmp4}
use py_tcp.Udp.Input.{IpPacket, delivered, answered, metadata_of, phrx_udp}
use py_tcp.Udp.Icmp4.{phrx_icmp4}
use py_tcp.Udp.Laws.{bind-delivers}
use py_tcp.Udp.Echo.{phrx_icmp4-echo}

-- Addresses are their own texts.
abbrev given : Given ℕ
given = record {
  parse = λ family text. some text;
  owned = λ family. 0x0a00_0001 ∷ [];
  pick_local_ip_address = λ family remote. 0x0a00_0001;
  pop = λ ports. 14266;
  send_udp_packet = λ family local local_port remote remote_port body. passed_to_tx_ring;
}

abbrev one_socket : SocketTable
one_socket = record { sockets = []; objects = λ h. new_udp_socket inet4; tcp_ports = [] }

abbrev question : UdpPacket
question = record { sport = 1000; dport = 53; payload = 104 ∷ 105 ∷ [] }

abbrev question_ip : IpPacket
question_ip = record {
  family = inet4;
  src = 0x0a00_0002;
  dst = 0x0a00_0001;
  packet_copy = [];
  dlen = 10;
  pshdr_sum = 0;
  frame = 3 ∷ 0xe8 ∷ 0 ∷ 53 ∷ 0 ∷ 10 ∷ 0x93 ∷ 0x6f ∷ 104 ∷ 105 ∷ [];
}

question-checked :
    check_udp_integrity question_ip.dlen question_ip.pshdr_sum question_ip.frame ≡ accepted
unfolding check_udp_integrity inet_cksum word_sum sum_longs sum_quads shifted_remainder remainder
question-checked = refl

question-read : parse_udp question_ip.frame ≡ some question
unfolding parse_udp
question-read = refl

question-sane : check_udp_sanity question ≡ accepted
unfolding check_udp_sanity
question-sane = refl

nothing_else : is_address_in_use inet4 0x0a00_0001 53 one_socket.objects one_socket.sockets ≡ false
unfolding is_address_in_use
nothing_else = refl

bind-delivers_example :
    (after : SocketTable) × (bind given 0 0x0a00_0001 53 one_socket ≡ (ok tt, after))
    × (phrx_udp true question_ip after
        ≡ (delivered 0, update 0 (process_udp_packet (metadata_of question_ip question)) after))
    × ((recvfrom 0 (phrx_udp true question_ip after).1).0 ≡ ok (metadata_of question_ip question))
unfolding member get_socket put_socket pop_socket
bind-delivers_example =
    bind-delivers given 0 0x0a00_0001 0x0a00_0001 53 one_socket question_ip question true refl refl
      refl (omega arith) (omega arith) nothing_else refl refl refl (refl, refl) refl
      question-checked question-read question-sane refl

abbrev ping : Icmp4Message
ping = echo_request 7 1 (1 ∷ 2 ∷ 3 ∷ [])

ping-IsIcmp4 : IsIcmp4 ping
ping-IsIcmp4 = request_fits (omega arith) (omega arith) (omega arith) (omega arith)

ping-carry : dropped_carry (word_sum (icmp4_words ping 0) 0) ≡ 0
unfolding carried word_sum sum_longs sum_quads shifted_remainder remainder
ping-carry = refl

phrx_icmp4-echo_example :
    phrx_icmp4
      (record {
        family = inet4;
        src = 0x0a00_0002;
        dst = 0x0a00_0001;
        packet_copy = [];
        dlen = icmp4_len ping;
        pshdr_sum = 0;
        frame = assemble_icmp4 ping ++ (0 ∷ []);
      })
      one_socket
    ≡ (
      answered (to_ip4 0x0a00_0001 0x0a00_0002 (carried_icmp4 (echo_reply 7 1 (1 ∷ 2 ∷ 3 ∷ [])))),
      one_socket,
    )
phrx_icmp4-echo_example =
    phrx_icmp4-echo 7 1 (1 ∷ 2 ∷ 3 ∷ []) (0 ∷ []) 0x0a00_0002 0x0a00_0001 0 [] one_socket
      ping-IsIcmp4 ping-carry
