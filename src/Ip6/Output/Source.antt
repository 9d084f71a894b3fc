-- ===== src/Ip6/Output/Source.antt =====
-- The source addresses that `_validate_src_ip6_address` (pytcp/protocols/ip6/phtx.py) lets out.
use py_tcp.Prelude.{
  ℕ, ◌≡◌, ◌⊎◌, inl, inr, refl, Option, none, some, List, [], ◌∷◌, ◌++◌, map, Bool, true, false,
  ◌||◌, ◌==◌, Bool-cases, arith,
}
use py_tcp.Address.Ip6.{Ip6Host, ip6_contains}
use py_tcp.Ip4.Output.{member}
use py_tcp.Ip4.Output.Source.{member-append}
use py_tcp.Ip6.{Ip6Stack, ip6_unicast, ip6_address_of}
use py_tcp.Ip6.Output.{
  Carried6, Src6, chosen, dropped, primary_ip6, first_ip6_host, has_ip6_gateway, or_go_on6,
  pick_ip6_src, validate_src_ip6_address,
}

-- A unicast address of the stack, or :: for the packets that may have it.
abbrev pub IsOwn6 : Ip6Stack → Carried6 → ℕ → Type 0
IsOwn6 s carried a =
    (member a (ip6_unicast s) ≡ true)
    ⊎ ((a ≡ 0) × ((carried.is_dad || carried.is_mld2_report) ≡ true))

-- Every address that the choice lets out is.
abbrev pub LetsOwn6 : Ip6Stack → Carried6 → Src6 → Type 0
LetsOwn6 s carried (chosen a) = IsOwn6 s carried a
LetsOwn6 s carried (dropped status) = Unit

-- A host that is found is one of the stack's.
abbrev Found : List Ip6Host → Option Ip6Host → Type 0
Found hosts none = Unit
Found hosts (some host) = member host.address (map ip6_address_of hosts) ≡ true

Found-later :
    (h : Ip6Host) (hosts : List Ip6Host) (o : Option Ip6Host) → Found hosts o → Found (h ∷ hosts) o
unfolding member
Found-later h hosts none f = tt
Found-later h hosts (some host) f = ground (arith, f)

first_ip6_host-Found :
    (p : Ip6Host → Bool) (hosts : List Ip6Host) → Found hosts (first_ip6_host p hosts)
unfolding first_ip6_host member
first_ip6_host-Found p [] = tt
first_ip6_host-Found p (h ∷ hosts) = elim (Bool-cases (p h)) [
  | inl t ↦ rw t (ground arith)
  | inr f ↦ rw f (Found-later h hosts (first_ip6_host p hosts) (first_ip6_host-Found p hosts))
]

primary_ip6-LetsOwn6 :
    (groups : List ℕ) (hosts : List Ip6Host) (carried : Carried6)
    → LetsOwn6 (record { ip6_host = hosts; ip6_multicast = groups }) carried (primary_ip6 hosts)
unfolding member
primary_ip6-LetsOwn6 groups [] carried = tt
primary_ip6-LetsOwn6 groups (h ∷ hosts) carried = inl (ground arith)

module _ (s : Ip6Stack) (src dst : ℕ) (carried : Carried6) where
  or_go_on6-LetsOwn6 :
      (o : Option Ip6Host) (rest : Src6)
      → Found s.ip6_host o
      → LetsOwn6 s carried rest
      → LetsOwn6 s carried (or_go_on6 o rest)
  or_go_on6-LetsOwn6 none rest f l = l
  or_go_on6-LetsOwn6 (some host) rest f l = inl f

  pick_ip6_src-LetsOwn6 : LetsOwn6 s carried (pick_ip6_src s dst carried)
  unfolding pick_ip6_src
  pick_ip6_src-LetsOwn6 =
      or_go_on6-LetsOwn6 (first_ip6_host (λ host. ip6_contains host.network dst) s.ip6_host) _
        (first_ip6_host-Found _ s.ip6_host)
        (or_go_on6-LetsOwn6 (first_ip6_host has_ip6_gateway s.ip6_host) _
          (first_ip6_host-Found _ s.ip6_host)
          (elim (Bool-cases (carried.is_dad || carried.is_mld2_report)) [
            | inl t ↦ rw t (inr (refl, t))
            | inr f ↦ rw f tt
          ]))

  own_among :
      member src (ip6_unicast s ++ (s.ip6_multicast ++ (0 ∷ []))) ≡ true
      → member src s.ip6_multicast ≡ false
      → (src == 0) ≡ false
      → member src (ip6_unicast s) ≡ true
  unfolding member
  own_among known g z = ground (
    arith,
    known,
    g,
    z,
    member-append src (ip6_unicast s) (s.ip6_multicast ++ (0 ∷ [])),
    member-append src s.ip6_multicast (0 ∷ []),
  )

  pub validate_src-LetsOwn6 : LetsOwn6 s carried (validate_src_ip6_address s src dst carried)
  unfolding validate_src_ip6_address
  validate_src-LetsOwn6 =
      let groups = s.ip6_multicast ++ (0 ∷ []) in
      elim (Bool-cases (member src (ip6_unicast s ++ groups))) [
        | inr foreign ↦ rw foreign tt
        | inl known ↦ elim (Bool-cases (member src s.ip6_multicast)) [
          | inl t ↦ rw (known, t) (primary_ip6-LetsOwn6 s.ip6_multicast s.ip6_host carried)
          | inr not_group ↦ elim (Bool-cases (src == 0)) [
            | inl z ↦ rw (known, not_group, z) pick_ip6_src-LetsOwn6
            | inr f ↦ rw (known, not_group, f) (inl (own_among known not_group f))
          ]
        ]
      ]
