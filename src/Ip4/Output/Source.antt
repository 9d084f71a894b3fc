-- ===== src/Ip4/Output/Source.antt =====
-- The source addresses that `_validate_src_ip4_address` (pytcp/protocols/ip4/phtx.py) lets out.
use py_tcp.Prelude.{
  ℕ, ◌≡◌, ◌≢◌, ◌⊎◌, inl, inr, refl, Option, none, some, List, [], ◌∷◌, ◌++◌, map, Bool, true, false,
  ◌||◌, ◌==◌, Bool-cases, arith,
}
use py_tcp.Address.Ip4.{Ip4Host, broadcast_address, contains, is_limited_broadcast, is_unspecified}
use py_tcp.Ip4.Output.{
  Ip4Stack, ip4_unicast, ip4_broadcast, Src, unchanged, chosen, dropped, SrcCount, TxStatus, member,
  primary, network_broadcast_replace, first_host, or_go_on, pick_src, unspecified_src,
  unspecified_or_src, validate_src_ip4_address, address_of,
}

-- A unicast address of the stack, or 0.0.0.0 for the DHCP client.
abbrev pub IsOwn : Ip4Stack → Bool → ℕ → Type 0
IsOwn s is_dhcp a = (member a (ip4_unicast s) ≡ true) ⊎ ((a ≡ 0) × (is_dhcp ≡ true))

-- Every address that the choice lets out is.
abbrev pub LetsOwn : Ip4Stack → Bool → Src → Type 0
LetsOwn s is_dhcp (unchanged a) = IsOwn s is_dhcp a
LetsOwn s is_dhcp (chosen count a) = IsOwn s is_dhcp a
LetsOwn s is_dhcp (dropped count status) = Unit

pub member-append : (a : ℕ) (xs ys : List ℕ) → member a (xs ++ ys) ≡ (member a xs || member a ys)
unfolding member
member-append a [] ys = refl
member-append a (x ∷ xs) ys = ground (arith, member-append a xs ys)

-- A host that is found is one of the stack's.
abbrev Found : List Ip4Host → Option Ip4Host → Type 0
Found hosts none = Unit
Found hosts (some host) = member host.address (map address_of hosts) ≡ true

Found-later :
    (h : Ip4Host) (hosts : List Ip4Host) (o : Option Ip4Host) → Found hosts o → Found (h ∷ hosts) o
unfolding member
Found-later h hosts none f = tt
Found-later h hosts (some host) f = ground (arith, f)

first_host-Found : (p : Ip4Host → Bool) (hosts : List Ip4Host) → Found hosts (first_host p hosts)
unfolding first_host member
first_host-Found p [] = tt
first_host-Found p (h ∷ hosts) = elim (Bool-cases (p h)) [
  | inl t ↦ rw t (ground arith)
  | inr f ↦ rw f (Found-later h hosts (first_host p hosts) (first_host-Found p hosts))
]

-- A broadcast address that is not the limited one belongs to a host.
first_host-broadcast :
    (src : ℕ) (hosts : List Ip4Host)
    → member src (map (λ host. broadcast_address host.network) hosts) ≡ true
    → first_host (λ host. broadcast_address host.network == src) hosts ≢ none
unfolding first_host member
first_host-broadcast src [] e = λ _. cc e
first_host-broadcast src (h ∷ hosts) e = elim (Bool-cases (broadcast_address h.network == src)) [
  | inl t ↦ rw t (λ n. cc n)
  | inr f ↦ rw f (first_host-broadcast src hosts (ground (arith, e, f)))
]

among_others :
    (src : ℕ) (us groups bs : List ℕ)
    → member src (us ++ (groups ++ (bs ++ (0 ∷ [])))) ≡ true
    → member src groups ≡ false
    → member src bs ≡ false
    → src ≢ 0
    → member src us ≡ true
unfolding member
among_others src us groups bs known g b nonzero = ground (
  arith,
  known,
  g,
  b,
  member-append src us (groups ++ (bs ++ (0 ∷ []))),
  member-append src groups (bs ++ (0 ∷ [])),
  member-append src bs (0 ∷ []),
)

not_last :
    (src : ℕ) (xs : List ℕ)
    → is_limited_broadcast src ≡ false
    → member src (xs ++ (0xffff_ffff ∷ [])) ≡ true
    → member src xs ≡ true
unfolding member
not_last src xs f t = ground (arith, f, t, member-append src xs (0xffff_ffff ∷ []))

unspecified_src-LetsOwn :
    (s : Ip4Stack) (src : ℕ) (is_dhcp : Bool)
    → src ≡ 0
    → LetsOwn s is_dhcp (unspecified_src src is_dhcp)
unspecified_src-LetsOwn s src true e = inr (e, refl)
unspecified_src-LetsOwn s src false e = tt

primary-LetsOwn :
    (groups : List ℕ) (hosts : List Ip4Host) (is_dhcp : Bool) (r d : SrcCount) (status : TxStatus)
    → LetsOwn
        (record { ip4_host = hosts; ip4_multicast = groups })
        is_dhcp
        (primary hosts r d status)
unfolding member
primary-LetsOwn groups [] is_dhcp r d status = tt
primary-LetsOwn groups (h ∷ hosts) is_dhcp r d status = inl (ground arith)

module _ (s : Ip4Stack) (src dst : ℕ) (is_dhcp : Bool) where
  or_go_on-LetsOwn :
      (o : Option Ip4Host) (count : SrcCount) (rest : Src)
      → Found s.ip4_host o
      → LetsOwn s is_dhcp rest
      → LetsOwn s is_dhcp (or_go_on o count rest)
  or_go_on-LetsOwn none count rest f l = l
  or_go_on-LetsOwn (some host) count rest f l = inl f

  pick_src-LetsOwn : src ≡ 0 → LetsOwn s is_dhcp (pick_src s src dst is_dhcp)
  unfolding pick_src
  pick_src-LetsOwn e =
      or_go_on-LetsOwn (first_host (λ host. contains host.network dst) s.ip4_host) _ _
        (first_host-Found _ s.ip4_host)
        (or_go_on-LetsOwn _ _ _ (first_host-Found _ s.ip4_host)
          (unspecified_src-LetsOwn s src is_dhcp e))

  unspecified_or_src-LetsOwn :
      (src ≢ 0 → member src (ip4_unicast s) ≡ true)
      → LetsOwn s is_dhcp (unspecified_or_src s src dst is_dhcp)
  unspecified_or_src-LetsOwn own = elim (Bool-cases (is_unspecified src)) [
    | inl t ↦ rw t (pick_src-LetsOwn (ground (arith, t)))
    | inr f ↦ rw f (inl (own (ground (arith, f))))
  ]

  broadcast-LetsOwn :
      (o : Option Ip4Host) (rest : Src)
      → Found s.ip4_host o
      → o ≢ none
      → LetsOwn s is_dhcp (or_go_on o network_broadcast_replace rest)
  broadcast-LetsOwn none rest f some_one = absurd (some_one refl)
  broadcast-LetsOwn (some host) rest f some_one = inl f

  pub validate_src-LetsOwn : LetsOwn s is_dhcp (validate_src_ip4_address s src dst is_dhcp)
  unfolding validate_src_ip4_address
  validate_src-LetsOwn =
      let groups = s.ip4_multicast ++ (ip4_broadcast s ++ (0 ∷ [])) in
      elim (Bool-cases (member src (ip4_unicast s ++ groups))) [
        | inr foreign ↦ rw foreign tt
        | inl known ↦ elim (Bool-cases (member src s.ip4_multicast)) [
          | inl t ↦ rw (known, t) (primary-LetsOwn s.ip4_multicast s.ip4_host is_dhcp _ _ _)
          | inr not_group ↦ elim (Bool-cases (is_limited_broadcast src)) [
            | inl t ↦
                rw (known, not_group, t) (primary-LetsOwn s.ip4_multicast s.ip4_host is_dhcp _ _ _)
            | inr not_limited ↦ elim (Bool-cases (member src (ip4_broadcast s))) [
              | inl t ↦
                  rw (known, not_group, not_limited, t)
                    (broadcast-LetsOwn
                      (first_host (λ host. broadcast_address host.network == src) s.ip4_host) _
                      (first_host-Found _ s.ip4_host)
                      (first_host-broadcast src s.ip4_host (not_last src _ not_limited t)))
              | inr other ↦
                  rw (known, not_group, not_limited, other)
                    (unspecified_or_src-LetsOwn (
                      among_others src (ip4_unicast s) s.ip4_multicast (ip4_broadcast s) known
                        not_group other))
            ]
          ]
        ]
      ]
