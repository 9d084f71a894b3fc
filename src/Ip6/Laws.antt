-- ===== src/Ip6/Laws.antt =====
-- The reassembly of IPv6 packets (pytcp/protocols/ip6_ext_frag/phrx.py) puts the same data together as
-- that of IPv4.
use py_tcp.Prelude.{
  ℕ, ◌+◌, ◌<◌, ◌≡◌, ◌⊎◌, refl, ap, sym, ◌∙◌, leb, length, take, drop, length-append, length-take,
  length-drop, ◌++◌, ◌∷◌, [], length-replicate, Option-cases, Option, none, some, List, true, ltb,
  set, replicate, Bool-cases, inl, inr, arith,
}
use mathlib.Core.Option.{none-ne-some, some_inj}
use py_tcp.Wire.{set_word, ◌>>=◌}
use py_tcp.Ip4.{
  Fragment, Flow, FlowId, Flows, Reassembly, waiting, reassembled, struct_error, with_length,
  defragment, flow_id, update_flow, cleanup, header_len, put, sorted, covered, fill, reassemble,
  whole_header, pack_into,
}
use py_tcp.Ip6.{defragment_ip6, whole_ip6_header, with_ip6_length}

-- The same outcome, with the header of each protocol, unless the data are too long for IPv4.
pub data SameData (held : List ℕ) (next : ℕ) : Reassembly → Reassembly → Type 0 where
  both_wait : SameData held next waiting waiting
  both_raise : SameData held next struct_error struct_error
  both_whole :
      (header bytes : List ℕ)
      → SameData held next
          (reassembled header bytes)
          (reassembled (set (set_word 4 (length bytes) held) 6 next) bytes)

pack_into-length :
    (buffer d out : List ℕ) (offset : ℕ)
    → pack_into buffer offset d ≡ some out
    → length out ≡ length buffer
unfolding pack_into
pack_into-length buffer d out offset e =
    elim (Bool-cases (leb (offset + length d) (length buffer))) [
      | inl t ↦
          let made : take offset buffer ++ (d ++ drop (offset + length d) buffer) ≡ out =
            some_inj.0 (rw t at e) in
          let whole = length-append (take offset buffer) (d ++ drop (offset + length d) buffer) in
          let back = length-append d (drop (offset + length d) buffer) in
          let front = length-take offset buffer in
          let behind = length-drop (offset + length d) buffer in
          sym (ap length made) ∙ ground (arith, t, whole, back, front, behind)
      | inr f ↦ absurd (none-ne-some _ (rw f at e))
    ]

bind-some :
    {A B : Type 0} (o : Option A) (f : A → Option B) (b : B)
    → (o >>= f) ≡ some b
    → (a : A) × (o ≡ some a) × (f a ≡ some b)
bind-some none f b e = absurd (none-ne-some _ e)
bind-some (some a) f b e = (a, refl, e)

fill-length :
    (pieces : List (ℕ × List ℕ)) (buffer out : List ℕ)
    → fill pieces buffer ≡ some out
    → length out ≡ length buffer
unfolding fill
fill-length [] buffer out e = sym (ap length (some_inj.0 e))
fill-length ((offset, d) ∷ rest) buffer out e =
    let (next, packed, filled) = bind-some (pack_into buffer offset d) (fill rest) out e in
    fill-length rest next out filled ∙ pack_into-length buffer d next offset packed

-- A packet that is put together has the length that was found.
fill-cases :
    (pieces : List (ℕ × List ℕ)) (n : ℕ)
    → (fill pieces (replicate n 0) ≡ none)
      ⊎ ((bytes : List ℕ) × (fill pieces (replicate n 0) ≡ some bytes) × (length bytes ≡ n))
fill-cases pieces n = elim (Option-cases (fill pieces (replicate n 0))) [
  | inl e ↦ inl e
  | inr (bytes, e) ↦
      inr (bytes, e, fill-length pieces (replicate n 0) bytes e ∙ length-replicate n 0)
]

module _ (next : ℕ) (k : FlowId) (flow : Flow) (flows : Flows) where
  -- With the length found, and few enough bytes for an IPv4 packet.
  abbrev Same : Reassembly × Flows → Reassembly × Flows → Type 0
  Same a b = SameData flow.header next a.0 b.0 × (a.1 ≡ b.1)

  with_data-Same :
      (n : ℕ)
      → header_len + n < 0x1_0000
      → Same (with_length k flow flows (some n)) (with_ip6_length k flow flows next (some n))
  unfolding whole_header whole_ip6_header
  with_data-Same n short = elim (fill-cases (sorted flow.pieces) n) [
    | inl e ↦ rw e (both_raise, refl)
    | inr (bytes, e, long) ↦
        let fits4 : ltb (header_len + n) 0x1_0000 ≡ true = ground arith in
        let fits6 : ltb n 0x1_0000 ≡ true = ground arith in
        rw (e, fits4, fits6, sym long) (both_whole _ bytes, refl)
  ]

  with_length-Same :
      (o : Option ℕ)
      → ((n : ℕ) → o ≡ some n → header_len + n < 0x1_0000)
      → Same (with_length k flow flows o) (with_ip6_length k flow flows next o)
  with_length-Same none short = (both_wait, refl)
  with_length-Same (some n) short = with_data-Same n (short n refl)

-- A fragment that comes with both protocols, to the same flows, where what is put together then is not too
-- long for an IPv4 packet: the same flows are left, and both wait, both raise, or both put the same
-- data together. The IPv6 header is that of the first fragment, with the length of the data and the
-- protocol of the fragment that comes.
pub defragment_ip6-defragment :
    (now next : ℕ) (f : Fragment) (flows : Flows)
    → ((n : ℕ)
        → covered 0 (sorted (update_flow now f (cleanup now flows (flow_id f))).pieces) ≡ some n
        → header_len + n < 0x1_0000)
    → SameData
        (update_flow now f (cleanup now flows (flow_id f))).header
        next
        (defragment now f flows).0
        (defragment_ip6 now next f flows).0
      × ((defragment now f flows).1 ≡ (defragment_ip6 now next f flows).1)
unfolding defragment defragment_ip6 reassemble
defragment_ip6-defragment now next f flows short =
    let flow = update_flow now f (cleanup now flows (flow_id f)) in
    let stored = put (flow_id f) (some flow) (cleanup now flows) in
    elim (Bool-cases flow.last) [
      | inl t ↦
          rw t
            (with_length-Same next (flow_id f) flow stored (covered 0 (sorted flow.pieces)) short)
      | inr e ↦ rw e (both_wait, refl)
    ]
