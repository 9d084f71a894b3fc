-- ===== src/Arp/Laws.antt =====
-- The exchange of ARP packets, and the claim of addresses.
use py_tcp.Prelude.{
  ℕ, ◌≡◌, refl, none, some, List, [], ◌∷◌, ◌++◌, Bool, true, false, ◌&&◌, ◌==◌, if◌then◌else◌,
  arith, ap, sym, ◌∙◌,
}
use mathlib.Core.List.{append_assoc, append-nil}
use py_tcp.Dict.{get?, insert}
use py_tcp.Dict.Laws.{get?-insert}
use py_tcp.Arp.{
  request, reply, ArpPacket, broadcast_mac, ArpState, is_one_of, send_arp, arp_request,
  send_arp_request, add_entry, found_entry, find_entry, arp_reply, handle_request,
  is_probe_conflict, handle_reply, handle_oper, phrx_arp, phrx_all, announcement, claim_all,
  claim_candidates, new_entry,
}

-- What no packet changes.
record Keeps (s t : ArpState) : Type 0 where
  pub addresses : t.ip4_unicast ≡ s.ip4_unicast
  pub candidates : t.ip4_host_candidate ≡ s.ip4_host_candidate
  pub conflicts : t.handler_conflicts ≡ s.handler_conflicts

same : (s : ArpState) → Keeps s s
same s = record { addresses = refl; candidates = refl; conflicts = refl }

if-Keeps : (b : Bool) (s t u : ArpState) → Keeps s t → Keeps s u → Keeps s (if b then t else u)
if-Keeps true s t u k l = k
if-Keeps false s t u k l = l

phrx_arp-Keeps : (now : ℕ) (p : ArpPacket) (s : ArpState) → Keeps s (phrx_arp now p s)
unfolding phrx_arp handle_request handle_reply add_entry
phrx_arp-Keeps now p s = elim p.oper as (λ o. Keeps s (handle_oper o now p s)) [
  | request ↦ if-Keeps (is_one_of p.spa s.ip4_unicast) s _ _ (same s) (
      if-Keeps (is_one_of p.tpa s.ip4_unicast) s _ _
        (record { addresses = refl; candidates = refl; conflicts = refl }) (same s))
  | reply ↦
      if-Keeps (is_probe_conflict p s) s _ _
        (record { addresses = refl; candidates = refl; conflicts = refl })
        (if-Keeps (p.ether_dst == s.mac_unicast) s _ _
          (record { addresses = refl; candidates = refl; conflicts = refl })
          (if-Keeps (p.ether_dst == broadcast_mac && p.spa == p.tpa) s _ _
            (record { addresses = refl; candidates = refl; conflicts = refl }) (same s)))
]

Keeps-trans : (s t u : ArpState) → Keeps s t → Keeps t u → Keeps s u
Keeps-trans s t u k l = record {
  addresses = l.addresses ∙ k.addresses;
  candidates = l.candidates ∙ k.candidates;
  conflicts = l.conflicts ∙ k.conflicts;
}

phrx_all-Keeps : (packets : List (ℕ × ArpPacket)) (s : ArpState) → Keeps s (phrx_all packets s)
unfolding phrx_all
phrx_all-Keeps [] s = same s
phrx_all-Keeps ((now, p) ∷ rest) s =
    Keeps-trans s (phrx_arp now p s) (phrx_all rest (phrx_arp now p s)) (phrx_arp-Keeps now p s)
      (phrx_all-Keeps rest (phrx_arp now p s))

claim_all-addresses :
    (candidates : List ℕ) (s : ArpState)
    → s.handler_conflicts ≡ []
    → (claim_all candidates s).ip4_unicast ≡ s.ip4_unicast ++ candidates
unfolding claim_all is_one_of
claim_all-addresses [] s e = sym (append-nil s.ip4_unicast)
claim_all-addresses (a ∷ rest) s e =
    let free : is_one_of a s.handler_conflicts ≡ false = rw e refl in
    let next = send_arp (announcement a s) (record s { ip4_unicast = s.ip4_unicast ++ (a ∷ []) }) in
    ap (λ b. (claim_all rest (if b then s else next)).ip4_unicast) free
    ∙ (claim_all-addresses rest next e ∙ append_assoc s.ip4_unicast (a ∷ []) rest)

-- Whatever ARP packets arrive in answer to the probes, replies that tell of a conflict among them: if the
-- packet handler starts without conflicts, the stack claims every candidate, since the replies are
-- noted in another set than the one that the claim reads.
pub claim_candidates-phrx_all :
    (packets : List (ℕ × ArpPacket)) (s : ArpState)
    → s.handler_conflicts ≡ []
    → (claim_candidates (phrx_all packets s)).ip4_unicast ≡ s.ip4_unicast ++ s.ip4_host_candidate
unfolding claim_candidates
claim_candidates-phrx_all packets s e =
    let k = phrx_all-Keeps packets s in
    let t = phrx_all packets s in
    claim_all-addresses t.ip4_host_candidate (record t { ip4_host_candidate = [] })
      (k.conflicts ∙ e)
    ∙ (ap (λ xs. xs ++ t.ip4_host_candidate) k.addresses
        ∙ ap (λ xs. s.ip4_unicast ++ xs) k.candidates)

find_entry-add_entry :
    (now k m : ℕ) (s : ArpState) → (find_entry k (add_entry now k m s)).0 ≡ some m
unfolding find_entry add_entry
find_entry-add_entry now k m s =
    let entry = new_entry now m in
    let there : get? k (insert k entry s.arp_cache) ≡ some entry =
      get?-insert k k entry s.arp_cache ∙ (let e : (k == k) ≡ true = ground arith in rw e refl) in
    ap (λ o. (found_entry k (add_entry now k m s) o).0) there

sent-add_entry : (now k m : ℕ) (s : ArpState) → (add_entry now k m s).sent ≡ s.sent
unfolding add_entry
sent-add_entry now k m s = refl

request_answered :
    (now : ℕ) (q : ArpPacket) (s : ArpState)
    → is_one_of q.spa s.ip4_unicast ≡ false
    → is_one_of q.tpa s.ip4_unicast ≡ true
    → handle_request now q s ≡ add_entry now q.spa q.sha (send_arp (arp_reply q s) s)
unfolding handle_request
request_answered now q s other owned = rw (other, owned) refl

reply_noted :
    (now : ℕ) (r : ArpPacket) (s : ArpState)
    → r.ether_dst ≡ s.mac_unicast
    → is_one_of r.spa s.ip4_host_candidate ≡ false
    → handle_reply now r s ≡ add_entry now r.spa r.sha s
unfolding handle_reply
reply_noted now r s here free =
    let direct : (r.ether_dst == s.mac_unicast) ≡ true = ground (arith, here) in
    rw (direct, free) refl

lookup_missed :
    (k : ℕ) (s : ArpState)
    → get? k s.arp_cache ≡ none
    → find_entry k s ≡ (none, send_arp (arp_request k s) s)
unfolding find_entry send_arp_request
lookup_missed k s unknown = ap (found_entry k s) unknown

-- A stack that looks up an address that it does not know sends a request; a stack that has the address,
-- other than the one that asks, answers it and notes the asking one; and when the answer arrives, a
-- second lookup finds the hardware address of the stack that answered, if the address is no candidate of
-- the one that asks.
pub find_entry-exchange :
    (asks has : ArpState) (now later target : ℕ)
    → get? target asks.arp_cache ≡ none
    → is_one_of target has.ip4_unicast ≡ true
    → is_one_of (arp_request target asks).spa has.ip4_unicast ≡ false
    → is_one_of target asks.ip4_host_candidate ≡ false
    → ((find_entry target asks).0 ≡ none)
      × ((find_entry target asks).1.sent ≡ arp_request target asks ∷ asks.sent)
      × ((phrx_arp now (arp_request target asks) has).sent
          ≡ arp_reply (arp_request target asks) has ∷ has.sent)
      × ((find_entry (arp_request target asks).spa (phrx_arp now (arp_request target asks) has)).0
          ≡ some asks.mac_unicast)
      × ((find_entry target
            (phrx_arp later (arp_reply (arp_request target asks) has) (find_entry target asks).1)).0
          ≡ some has.mac_unicast)
unfolding phrx_arp
find_entry-exchange asks has now later target unknown owned other free =
    let q = arp_request target asks in
    let answered = request_answered now q has other owned in
    let missed = lookup_missed target asks unknown in
    let r = arp_reply q has in
    let noted = reply_noted later r (send_arp q asks) refl free in
    (
      ap (λ l. l.0) missed,
      ap (λ l. l.1.sent) missed,
      ap (λ t. t.sent) answered ∙ sent-add_entry now q.spa q.sha (send_arp r has),
      ap (λ t. (find_entry q.spa t).0) answered
          ∙ find_entry-add_entry now q.spa q.sha (send_arp r has),
      ap (λ l. (find_entry target (handle_reply later r l.1)).0) missed
          ∙ (ap (λ t. (find_entry target t).0) noted
              ∙ find_entry-add_entry later target r.sha (send_arp q asks)),
    )
