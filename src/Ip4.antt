-- ===== src/Ip4.antt =====
-- Reassembly of IPv4 packets: `_defragment_ip4_packet` of pytcp/protocols/ip4/phrx.py, and the cutting
-- of the data into fragments in `_phtx_ip4` of pytcp/protocols/ip4/phtx.py. A fragment is what the
-- parser reads from it, and the clock counts whole units, of which the timeout is five.
pub mod Cut
pub mod Order
pub mod Pieces
pub mod Overlap
pub mod Sender
pub mod Output
pub mod Whole
pub mod Tests
pub mod Runs
use py_tcp.Prelude.{
  ◌^◌, ℕ, zero, suc, ◌+◌, ◌-◌, ◌*◌, ◌/◌, ◌%◌, Option, none, some, List, [], ◌∷◌, ◌++◌, Bool, true,
  false, not, ◌&&◌, ◌==◌, leb, ltb, if◌then◌else◌, length, take, drop, replicate, set,
}
use py_tcp.Wire.{◌>>=◌, set_word}
use py_tcp.Dict.{Dict, insert}
use py_tcp.Checksum.{inet_cksum}

-- `IP4_FRAG_FLOW_TIMEOUT`
abbrev pub flow_timeout : ℕ
flow_timeout = 5

-- `IP4_HEADER_LEN`
abbrev pub header_len : ℕ
header_len = 20

pub record Fragment : Type 0 where
  pub src : ℕ
  pub dst : ℕ
  pub id : ℕ
  pub offset : ℕ
  pub flag_mf : Bool
  pub header : List ℕ
  pub payload : List ℕ

pub record Flow : Type 0 where
  pub header : List ℕ
  pub timestamp : ℕ
  pub last : Bool
  pub pieces : Dict (List ℕ)

pub record FlowId : Type 0 where
  pub src : ℕ
  pub dst : ℕ
  pub id : ℕ

abbrev pub flow_id : Fragment → FlowId
flow_id f = record { src = f.src; dst = f.dst; id = f.id }

abbrev pub same_flow : FlowId → FlowId → Bool
same_flow a b = a.src == b.src && (a.dst == b.dst && a.id == b.id)

-- `self.ip4_frag_flows`
abbrev pub Flows : Type 0
Flows = FlowId → Option Flow

unfoldable pub put : FlowId → Option Flow → Flows → Flows
put k flow flows = λ j. if same_flow k j then flow else flows j

-- Whether the cleanup keeps a flow; its condition is the source's `timestamp - time() < timeout`.
abbrev pub keep_flow : ℕ → Option Flow → Option Flow
keep_flow now none = none
keep_flow now (some flow) = if ltb flow.timestamp (now + flow_timeout) then some flow else none

unfoldable pub cleanup : ℕ → Flows → Flows
cleanup now flows = λ k. keep_flow now (flows k)

unfoldable pub update_flow : ℕ → Fragment → Option Flow → Flow
update_flow now f known =
    let flow : Flow = elim known [
      | none ↦ record {
        header = f.header;
        timestamp = now;
        last = false;
        pieces = (f.offset, f.payload) ∷ [];
      }
      | some g ↦ record g { pieces = insert f.offset f.payload g.pieces }
    ] in
    if f.flag_mf then flow else record flow { last = true }

-- `sorted`, on the offsets.
unfoldable pub insert_sorted : ℕ × List ℕ → List (ℕ × List ℕ) → List (ℕ × List ℕ)
insert_sorted e [] = e ∷ []
insert_sorted e (f ∷ rest) = if leb e.0 f.0 then e ∷ f ∷ rest else f ∷ insert_sorted e rest

unfoldable pub sorted : List (ℕ × List ℕ) → List (ℕ × List ℕ)
unfolding insert_sorted
sorted [] = []
sorted (e ∷ rest) = insert_sorted e (sorted rest)

-- The loop that looks for a gap, from `data_len` on.
unfoldable pub covered : ℕ → List (ℕ × List ℕ) → Option ℕ
covered data_len [] = some data_len
covered data_len ((offset, d) ∷ rest) =
    if ltb data_len offset then none else covered (offset + length d) rest

-- `struct.pack_into`, which raises where the bytes do not fit.
unfoldable pub pack_into : List ℕ → ℕ → List ℕ → Option (List ℕ)
pack_into buffer offset d =
    if leb (offset + length d) (length buffer)
    then some (take offset buffer ++ (d ++ drop (offset + length d) buffer))
    else none

unfoldable pub fill : List (ℕ × List ℕ) → List ℕ → Option (List ℕ)
fill [] buffer = some buffer
fill ((offset, d) ∷ rest) buffer = pack_into buffer offset d >>= fill rest

unfoldable pub whole_header : List ℕ → ℕ → Option (List ℕ)
whole_header header data_len =
    let blank =
      set_word 10 0 (set_word 6 0 (set_word 2 (header_len + data_len) (set header 0 0x45))) in
    if ltb (header_len + data_len) 0x1_0000
    then some (set_word 10 (inet_cksum blank 0) blank)
    else none

pub data Reassembly : Type 0 where
  waiting : Reassembly
  reassembled : List ℕ → List ℕ → Reassembly
  struct_error : Reassembly

-- With the header written; the flow went before.
abbrev pub with_header : FlowId → Flows → List ℕ → Option (List ℕ) → Reassembly × Flows
with_header k flows bytes none = (struct_error, put k none flows)
with_header k flows bytes (some header) = (reassembled header bytes, put k none flows)

-- With the data put together.
abbrev pub with_data : FlowId → Flow → Flows → ℕ → Option (List ℕ) → Reassembly × Flows
with_data k flow flows data_len none = (struct_error, flows)
with_data k flow flows data_len (some bytes) =
    with_header k flows bytes (whole_header flow.header data_len)

-- With the length of the data, if there is no gap.
abbrev pub with_length : FlowId → Flow → Flows → Option ℕ → Reassembly × Flows
with_length k flow flows none = (waiting, flows)
with_length k flow flows (some data_len) =
    with_data k flow flows data_len (fill (sorted flow.pieces) (replicate data_len 0))

-- The packet out of a flow that has its last fragment.
unfoldable pub reassemble : FlowId → Flow → Flows → Reassembly × Flows
reassemble k flow flows = with_length k flow flows (covered 0 (sorted flow.pieces))

-- `_defragment_ip4_packet`; the packet is given as its header and its data.
unfoldable pub defragment : ℕ → Fragment → Flows → Reassembly × Flows
unfolding cleanup update_flow put reassemble
defragment now f flows =
    let kept = cleanup now flows in
    let flow = update_flow now f (kept (flow_id f)) in
    let stored = put (flow_id f) (some flow) kept in
    if flow.last then reassemble (flow_id f) flow stored else (waiting, stored)

-- Fragments of any packets that arrive one after the other, each with its time; every one is answered.
unfoldable pub run : List (ℕ × Fragment) → Flows → List (Fragment × Reassembly)
unfolding defragment
run [] flows = []
run ((now, f) ∷ rest) flows =
    let (answer, next) = defragment now f flows in (f, answer) ∷ run rest next

-- `(config.TAP_MTU - hlen) & 0b1111111111111000`, for a header without options. The mask keeps the lower
-- 16 bits, also of a negative number.
abbrev pub data_mtu : ℕ → ℕ
data_mtu mtu = (mtu + 2 ^ 16 - header_len) % 2 ^ 16 / 8 * 8

-- The fragments of the data from an offset on, as offset, bytes and MF; each cut takes `size` bytes
-- off, so a fuel of the length of the data is enough.
unfoldable pub cut : ℕ → ℕ → ℕ → List ℕ → List (ℕ × (List ℕ × Bool))
cut fuel size offset [] = []
cut zero size offset (b ∷ bytes) = []
cut (suc fuel) size offset (b ∷ bytes) =
    let piece = take size (b ∷ bytes) in
    let rest = drop size (b ∷ bytes) in
    (offset, (piece, ltb size (length (b ∷ bytes)))) ∷ cut fuel size (offset + length piece) rest
