-- ===== src/Udp/Echo.antt =====
-- How echo requests are answered.
use py_tcp.Prelude.{ℕ, ◌≤◌, ◌≡◌, refl, none, some, List, ◌++◌, true, leb, ap, ◌∙◌, arith}
use py_tcp.Checksum.{word_sum}
use py_tcp.Checksum.Laws.{dropped_carry}
use py_tcp.Wire.{accepted}
use py_tcp.Packet.Icmp4.{
  Icmp4Args, echo_reply_type, echo_request_type, icmp4_type, icmp4_ec_id, icmp4_ec_seq,
  icmp4_ec_data, check_icmp4_integrity, check_icmp4_sanity, echo_request, echo_reply, icmp4_words,
  icmp4_len, assemble_icmp4, new_icmp4,
}
use py_tcp.Packet.Icmp4.Laws.{IsIcmp4, request_fits, check_icmp4_integrity-assemble_icmp4}
use py_tcp.Udp.{inet4, SocketTable}
use py_tcp.Udp.Output.{phtx_icmp4, carried_icmp4, to_ip4}
use py_tcp.Udp.Input.{IpPacket, answered}
use py_tcp.Udp.Icmp4.{phrx_icmp4, checked_icmp4, echo_args, echoed, handle_icmp4, sane_icmp4}

abbrev reply_args : ℕ → ℕ → List ℕ → Icmp4Args
reply_args id seq body = record {
  type = echo_reply_type;
  code = 0;
  ec_id = some id;
  ec_seq = some seq;
  ec_data = some body;
  un_data = none;
}

phrx_icmp4-answered :
    (ip : IpPacket) (id seq : ℕ) (body : List ℕ) (t : SocketTable)
    → check_icmp4_integrity ip.dlen ip.frame ≡ accepted
    → check_icmp4_sanity ip.frame ≡ accepted
    → icmp4_type ip.frame ≡ some echo_request_type
    → icmp4_ec_id ip.frame ≡ some id
    → icmp4_ec_seq ip.frame ≡ some seq
    → icmp4_ec_data ip.dlen ip.frame ≡ some body
    → phrx_icmp4 ip t ≡ (answered (phtx_icmp4 ip.dst ip.src (reply_args id seq body)), t)
unfolding phrx_icmp4
phrx_icmp4-answered ip id seq body t checked sane type has_id has_seq has_body =
    let args : echo_args ip.dlen ip.frame ≡ some (reply_args id seq body) =
      rw (has_id, has_seq, has_body) refl in
    ap (λ v. checked_icmp4 ip v t) checked
    ∙ ap (λ v. sane_icmp4 ip v t) sane
    ∙ ap (λ o. handle_icmp4 ip o t) type
    ∙ ap (λ a. (echoed ip a, t)) args

IsIcmp4-fits :
    (id seq : ℕ) (body : List ℕ)
    → IsIcmp4 (echo_request id seq body)
    → (id ≤ 0xffff) × (seq ≤ 0xffff)
IsIcmp4-fits id seq body (request_fits i s l b) = (i, s)

phtx_icmp4-reply :
    (src dst id seq : ℕ) (body : List ℕ)
    → (id ≤ 0xffff) × (seq ≤ 0xffff)
    → phtx_icmp4 src dst (reply_args id seq body)
      ≡ to_ip4 src dst (carried_icmp4 (echo_reply id seq body))
unfolding phtx_icmp4 new_icmp4
phtx_icmp4-reply src dst id seq body (i, s) =
    let id_fits : leb id 0xffff ≡ true = ground arith in
    let seq_fits : leb seq 0xffff ≡ true = ground arith in rw (id_fits, seq_fits) refl

-- An echo request to the stack that the assembler of another stack made, whose identifier, sequence number
-- and data fit, and whose checksum drops no carry, with any padding behind it: the handler answers to
-- its source, from its destination, with the assembled echo reply of the same identifier, sequence
-- number and data, and leaves the sockets as they are.
pub phrx_icmp4-echo :
    (id seq : ℕ) (body padding : List ℕ) (src dst sum : ℕ) (packet : List ℕ) (t : SocketTable)
    → IsIcmp4 (echo_request id seq body)
    → dropped_carry (word_sum (icmp4_words (echo_request id seq body) 0) 0) ≡ 0
    → phrx_icmp4
        (record {
          family = inet4;
          src = src;
          dst = dst;
          packet_copy = packet;
          dlen = icmp4_len (echo_request id seq body);
          pshdr_sum = sum;
          frame = assemble_icmp4 (echo_request id seq body) ++ padding;
        })
        t
      ≡ (answered (to_ip4 dst src (carried_icmp4 (echo_reply id seq body))), t)
phrx_icmp4-echo id seq body padding src dst sum packet t v carry =
    let (_, checked, sane, read) =
      check_icmp4_integrity-assemble_icmp4 (echo_request id seq body) padding v carry in
    let (type, _, has_id, has_seq, has_body) = read in
    phrx_icmp4-answered
      (record {
        family = inet4;
        src = src;
        dst = dst;
        packet_copy = packet;
        dlen = icmp4_len (echo_request id seq body);
        pshdr_sum = sum;
        frame = assemble_icmp4 (echo_request id seq body) ++ padding;
      })
      id seq body t checked sane type has_id has_seq has_body
    ∙ ap (λ tx. (answered tx, t))
        (phtx_icmp4-reply dst src id seq body (IsIcmp4-fits id seq body v))
