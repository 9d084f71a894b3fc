-- ===== src/Packet/Icmp6/Read.antt =====
-- `Icmp6Parser` of pytcp/protocols/icmp6/fpp.py, with both checks enabled, as they are by default. An IPv6
-- packet comes without padding, so that the frame has the length `plen`.
use py_tcp.Prelude.{
  ℕ, zero, suc, ◌+◌, ◌-◌, ◌*◌, Option, none, some, List, [], ◌∷◌, Bool, true, false, ◌&&◌, ◌||◌,
  ◌==◌, leb, ltb, length, take, drop, if◌then◌else◌,
}
use py_tcp.Wire.{word_at, long_at, mac_at, ip6_at, byte_at, test_bit, ◌>>=◌}
use py_tcp.Address.Ip6.{Ip6Network, new_ip6_network, ip6_mask_of_bit_count}
use py_tcp.Packet.Icmp4.{when, body_of}
use py_tcp.Packet.Icmp6.{NdOption, slla, tlla, pi, unk}

-- The getters; `none` is an exception.
abbrev pub icmp6_type : List ℕ → Option ℕ
icmp6_type frame = byte_at 0 frame

abbrev pub icmp6_code : List ℕ → Option ℕ
icmp6_code frame = byte_at 1 frame

-- `assert self.type in {...}` in front of a getter.
abbrev pub of_type {ℓ} : {A : Type ℓ} → (ℕ → Bool) → List ℕ → Option A → Option A
of_type p frame a = icmp6_type frame >>= λ type. when (p type) a

abbrev pub is_icmp6_echo : ℕ → Bool
is_icmp6_echo type = type == 128 || type == 129

abbrev pub icmp6_un_data : ℕ → List ℕ → Option (List ℕ)
icmp6_un_data plen frame = of_type (λ type. type == 1) frame (some (body_of plen frame))

abbrev pub icmp6_ec_id : List ℕ → Option ℕ
icmp6_ec_id frame = of_type is_icmp6_echo frame (word_at 4 frame)

abbrev pub icmp6_ec_seq : List ℕ → Option ℕ
icmp6_ec_seq frame = of_type is_icmp6_echo frame (word_at 6 frame)

abbrev pub icmp6_ec_data : ℕ → List ℕ → Option (List ℕ)
icmp6_ec_data plen frame = of_type is_icmp6_echo frame (some (body_of plen frame))

abbrev pub is_ra : ℕ → Bool
is_ra type = type == 134

-- A flag in a byte of the frame.
abbrev pub flag_at : ℕ → ℕ → List ℕ → Option Bool
flag_at at k frame = byte_at at frame >>= λ byte. some (test_bit k byte)

abbrev pub ra_hop : List ℕ → Option ℕ
ra_hop frame = of_type is_ra frame (byte_at 4 frame)

abbrev pub ra_flag_m : List ℕ → Option Bool
ra_flag_m frame = of_type is_ra frame (flag_at 5 7 frame)

abbrev pub ra_flag_o : List ℕ → Option Bool
ra_flag_o frame = of_type is_ra frame (flag_at 5 6 frame)

abbrev pub ra_router_lifetime : List ℕ → Option ℕ
ra_router_lifetime frame = of_type is_ra frame (word_at 6 frame)

abbrev pub ra_reachable_time : List ℕ → Option ℕ
ra_reachable_time frame = of_type is_ra frame (long_at 8 frame)

abbrev pub ra_retrans_timer : List ℕ → Option ℕ
ra_retrans_timer frame = of_type is_ra frame (long_at 12 frame)

abbrev pub ns_target_address : List ℕ → Option ℕ
ns_target_address frame = of_type (λ type. type == 135) frame (ip6_at 8 frame)

abbrev pub is_na : ℕ → Bool
is_na type = type == 136

abbrev pub na_flag_r : List ℕ → Option Bool
na_flag_r frame = of_type is_na frame (flag_at 4 7 frame)

abbrev pub na_flag_s : List ℕ → Option Bool
na_flag_s frame = of_type is_na frame (flag_at 4 6 frame)

abbrev pub na_flag_o : List ℕ → Option Bool
na_flag_o frame = of_type is_na frame (flag_at 4 5 frame)

abbrev pub na_target_address : List ℕ → Option ℕ
na_target_address frame = of_type is_na frame (ip6_at 8 frame)

abbrev pub mld2_rep_nor : List ℕ → Option ℕ
mld2_rep_nor frame = of_type (λ type. type == 143) frame (word_at 6 frame)

-- `Icmp6NdOptPI`: the mask is that of "/" and the third byte, which raises above 128.
abbrev pub read_pi : List ℕ → Option NdOption
read_pi frame = do
  mask_len ← byte_at 2 frame
  l ← flag_at 3 7 frame
  a ← flag_at 3 6 frame
  r ← flag_at 3 5 frame
  valid ← long_at 4 frame
  prefer ← long_at 8 frame
  prefix ← ip6_at 16 frame
  when (leb mask_len 128) (
      some (
        pi (Ip6Network.address (new_ip6_network prefix (ip6_mask_of_bit_count mask_len))) mask_len
          valid prefer l a r))

-- The class that the first byte chooses, on the frame from the option on.
abbrev pub read_nd_option_of : ℕ → ℕ → List ℕ → Option NdOption
read_nd_option_of code len frame =
    if code == 1
    then (mac_at 2 frame >>= λ mac. some (slla mac))
    else if code == 2
    then (mac_at 2 frame >>= λ mac. some (tlla mac))
    else if code == 3
    then read_pi frame
    else some (unk code len (take (len * 8 - 2) (drop 2 frame)))

abbrev pub read_nd_option : List ℕ → Option NdOption
read_nd_option frame = do
  code ← byte_at 0 frame
  len ← byte_at 1 frame
  read_nd_option_of code len frame

-- `_read_nd_options`; `none` where it raises or does not end within the fuel.
unfoldable pub read_nd_options : ℕ → ℕ → List ℕ → Option (List NdOption)
unfolding new_ip6_network
read_nd_options zero optr frame = none
read_nd_options (suc fuel) optr frame = elim (ltb optr (length frame)) [
  | false ↦ some []
  | true ↦ do
    option ← read_nd_option (drop optr frame)
    len ← byte_at (optr + 1) frame
    rest ← read_nd_options fuel (optr + len * 8) frame
    some (option ∷ rest)
]

-- Where `nd_options` starts to read.
abbrev pub nd_options_at : ℕ → Option ℕ
nd_options_at type =
    if type == 133
    then some 12
    else if type == 134
    then some 16
    else if type == 135 || type == 136
    then some 24
    else none

-- `nd_options`
abbrev pub nd_options : List ℕ → Option (List NdOption)
nd_options frame = do
  type ← icmp6_type frame
  optr ← nd_options_at type
  read_nd_options (suc (length frame)) optr frame

abbrev pub first_slla : List NdOption → Option ℕ
first_slla [] = none
first_slla (slla mac ∷ os) = some mac
first_slla (tlla mac ∷ os) = first_slla os
first_slla (pi _ _ _ _ _ _ _ ∷ os) = first_slla os
first_slla (unk _ _ _ ∷ os) = first_slla os

abbrev pub first_tlla : List NdOption → Option ℕ
first_tlla [] = none
first_tlla (tlla mac ∷ os) = some mac
first_tlla (slla mac ∷ os) = first_tlla os
first_tlla (pi _ _ _ _ _ _ _ ∷ os) = first_tlla os
first_tlla (unk _ _ _ ∷ os) = first_tlla os

-- `nd_opt_slla` and `nd_opt_tlla`; the inner `none` is `None`.
abbrev pub nd_opt_slla : List ℕ → Option (Option ℕ)
nd_opt_slla frame = nd_options frame >>= λ os. some (first_slla os)

abbrev pub nd_opt_tlla : List ℕ → Option (Option ℕ)
nd_opt_tlla frame = nd_options frame >>= λ os. some (first_tlla os)

-- The prefixes with the flag A and a mask of 64 bits.
abbrev pub autoconf_prefixes : List NdOption → List ℕ
autoconf_prefixes [] = []
autoconf_prefixes (pi prefix mask_len _ _ _ a _ ∷ os) =
    let rest = autoconf_prefixes os in if a && mask_len == 64 then prefix ∷ rest else rest
autoconf_prefixes (slla mac ∷ os) = autoconf_prefixes os
autoconf_prefixes (tlla mac ∷ os) = autoconf_prefixes os
autoconf_prefixes (unk _ _ _ ∷ os) = autoconf_prefixes os

-- `nd_opt_pi`
abbrev pub nd_opt_pi : List ℕ → Option (List ℕ)
nd_opt_pi frame = nd_options frame >>= λ os. some (autoconf_prefixes os)
