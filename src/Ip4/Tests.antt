-- ===== src/Ip4/Tests.antt =====
-- A packet of ten bytes that arrives in two fragments.
use py_tcp.Prelude.{
  ℕ, ◌≡◌, refl, List, [], ◌∷◌, Bool, true, false, arith, All, none, some, take, drop, inl, inr,
  Bool-cases, ltb, replicate,
}
use py_tcp.Dict.{insert}
use py_tcp.Ip4.{
  Fragment, Flow, flow_id, same_flow, Flows, cleanup, update_flow, reassembled, struct_error,
  defragment, run, cut,
}
use py_tcp.Ip4.Cut.{Starts}
use py_tcp.Ip4.Order.{AnyEntry}
use py_tcp.Ip4.Whole.{IsFragment, IsWhole, IsFlow}
use py_tcp.Ip4.Runs.{run-IsWhole, defragment_complete}
use py_tcp.Ip4.Sender.{IsCut, bytes_of, cut-IsCut}
use py_tcp.Ip4.Overlap.{overlap-raises}

abbrev ten : List ℕ
ten = 1 ∷ 2 ∷ 3 ∷ 4 ∷ 5 ∷ 6 ∷ 7 ∷ 8 ∷ 9 ∷ 10 ∷ []

-- An IPv4 header; the reassembly writes the length, the fragment fields and the checksum.
abbrev any_header : List ℕ
any_header =
    69 ∷ 0 ∷ 0 ∷ 28 ∷ 0 ∷ 7 ∷ 32 ∷ 0 ∷ 64 ∷ 17 ∷ 0 ∷ 0 ∷ 10 ∷ 0 ∷ 0 ∷ 1 ∷ 10 ∷ 0 ∷ 0 ∷ 2 ∷ []

abbrev fragment : ℕ → Bool → List ℕ → Fragment
fragment offset mf payload = record {
  src = 0x0a000001;
  dst = 0x0a000002;
  id = 7;
  offset = offset;
  flag_mf = mf;
  header = any_header;
  payload = payload;
}

abbrev first : Fragment
first = fragment 0 true (take 8 ten)

abbrev second : Fragment
second = fragment 8 false (drop 8 ten)

sends : cut 10 8 0 ten ≡ (0, (take 8 ten, true)) ∷ (8, (drop 8 ten, false)) ∷ []
unfolding cut
sends = refl

cut-IsCut_example : All (IsCut 8 ten) (cut 10 8 0 ten) × (bytes_of (cut 10 8 0 ten) ≡ ten)
cut-IsCut_example = cut-IsCut 8 ten (omega arith)

first-IsFragment : IsFragment 8 ten first
first-IsFragment = record {
  piece = record { index = 0; at = refl; below = omega arith; bytes = refl };
  ends = λ e. cc;
}

second-IsFragment : IsFragment 8 ten second
second-IsFragment = record {
  piece = record { index = 1; at = refl; below = omega arith; bytes = refl };
  ends = λ e. refl;
}

abbrev no_flows : Flows
no_flows = λ k. none

-- The fragments in the wrong order, the first of them twice.
abbrev swapped : List (ℕ × Fragment)
swapped = (100, second) ∷ (101, first) ∷ (101, first) ∷ []

run-IsWhole_example :
    All
      (λ e. same_flow (flow_id e.0) (flow_id first) ≡ true → IsWhole 8 ten e.1)
      (run swapped no_flows)
run-IsWhole_example =
    run-IsWhole 8 ten (flow_id first) swapped no_flows (omega arith) (omega arith)
      ((λ e. second-IsFragment), ((λ e. first-IsFragment), ((λ e. first-IsFragment), tt))) tt

abbrev half : Flow
half = record { header = any_header; timestamp = 100; last = true; pieces = (8, drop 8 ten) ∷ [] }

half-IsFlow : IsFlow 8 ten half
half-IsFlow = record {
  distinct = (tt, tt);
  held = (second-IsFragment.piece, tt);
  ended = λ e. inl (second-IsFragment.piece, refl);
}

abbrev half_here : Flows
half_here = λ k. some half

every_piece :
    (o : ℕ)
    → Starts 8 ten (omega arith) o
    → AnyEntry (λ p d. p ≡ o) (update_flow 101 first (cleanup 101 half_here (flow_id first))).pieces
unfolding update_flow cleanup insert
every_piece o s = elim (Bool-cases (ltb o 1)) [
  | inl t ↦ inr (inl (ground (arith, t)))
  | inr f ↦ inl (ground (arith, f, s.at, s.below))
]

defragment_complete_example :
    (header : List ℕ) × ((defragment 101 first half_here).0 ≡ reassembled header ten)
    × ((defragment 101 first half_here).1 (flow_id first) ≡ none)
unfolding update_flow cleanup
defragment_complete_example =
    defragment_complete 8 ten 101 first half_here (omega arith) (omega arith) (omega arith)
      first-IsFragment half-IsFlow refl every_piece

-- A hundred bytes, then a fragment inside of them that claims to be the last.
abbrev long_first : Flows
long_first = λ k. some (record {
  header = any_header;
  timestamp = 100;
  last = false;
  pieces = (0, replicate 100 0) ∷ [];
})

overlap-raises_example : (defragment 101 second long_first).0 ≡ struct_error
unfolding cleanup
overlap-raises_example =
    overlap-raises 101 any_header 100 (replicate 100 0) second long_first refl refl (omega arith)
      (omega arith)
