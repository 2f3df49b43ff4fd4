-- ===== src/Host/Client.antt =====
-- `GetClientAddrTrusted`. An address is its bytes, 4 or 16 of them; `net.ParseIP` and
-- `net.SplitHostPort`, of which the host is used, are parameters.
use caspaste.Prelude.{
  ◌/◌, leb, ◌==◌, ◌&&◌, ◌||◌, Bool, true, false, if◌then◌else◌, Option, none, some, List, [], ◌∷◌,
  Text, text_eq, codes, split_on, has_prefix, length, drop,
}
use caspaste.Prelude.Numbers.{trim_space}
use caspaste.Prelude.Strings.{occurs}
use caspaste.Validation.Driver.{trim_prefix}
use caspaste.Host.Headers.{Headers, Request, part_value, first_listed}

-- `bytesInRange`.
unfoldable pub bytes_in_range : Text → Text → Text → Bool
bytes_in_range [] [] [] = true
bytes_in_range (c ∷ ip) (a ∷ low) (b ∷ high) = leb a c && leb c b && bytes_in_range ip low high
bytes_in_range _ _ _ = false

-- The bytes before those of an IPv4 address, as `net.ParseIP` gives it.
abbrev pub mapped_prefix : Text
mapped_prefix = 0 ∷ 0 ∷ 0 ∷ 0 ∷ 0 ∷ 0 ∷ 0 ∷ 0 ∷ 0 ∷ 0 ∷ 255 ∷ 255 ∷ []

-- `net.IP.To4`.
unfoldable pub to_4 : Text → Option Text
unfolding has_prefix
to_4 ip =
    if length ip == 4
    then some ip
    else if length ip == 16 && has_prefix mapped_prefix ip
    then some (drop 12 ip)
    else none

unfoldable pub private_v4 : Text → Bool
unfolding bytes_in_range
private_v4 ip =
    bytes_in_range ip (10 ∷ 0 ∷ 0 ∷ 0 ∷ []) (10 ∷ 255 ∷ 255 ∷ 255 ∷ [])
    || bytes_in_range ip (172 ∷ 16 ∷ 0 ∷ 0 ∷ []) (172 ∷ 31 ∷ 255 ∷ 255 ∷ [])
    || bytes_in_range ip (192 ∷ 168 ∷ 0 ∷ 0 ∷ []) (192 ∷ 168 ∷ 255 ∷ 255 ∷ [])
    || bytes_in_range ip (127 ∷ 0 ∷ 0 ∷ 0 ∷ []) (127 ∷ 255 ∷ 255 ∷ 255 ∷ [])

abbrev loopback : Text
loopback = 0 ∷ 0 ∷ 0 ∷ 0 ∷ 0 ∷ 0 ∷ 0 ∷ 0 ∷ 0 ∷ 0 ∷ 0 ∷ 0 ∷ 0 ∷ 0 ∷ 0 ∷ 1 ∷ []

-- `IsLoopback`, `IsLinkLocalUnicast` and the test for unique local addresses, of an address that is
-- not one of IPv4; the bits are read as a quotient.
private_v6 : Text → Bool
unfolding text_eq
private_v6 (a ∷ b ∷ ip) =
    text_eq (a ∷ b ∷ ip) loopback
    || (length ip == 14 && a == 254 && b / 64 == 2)
    || (length ip == 14 && a / 2 == 126)
private_v6 _ = false

unfoldable pub is_private_ip : Option Text → Bool
unfolding to_4 private_v4 private_v6
is_private_ip none = false
is_private_ip (some ip) = elim (to_4 ip) [ some v4 ↦ private_v4 v4 | none ↦ private_v6 ip ]

-- What stands before the first `]:`.
before_port : Text → Text
unfolding has_prefix
before_port [] = []
before_port (c ∷ t) =
    let rest = before_port t in if has_prefix (codes "]:") (c ∷ t) then [] else c ∷ rest

abbrev one_colon : List Text → Text → Text
one_colon (name ∷ port ∷ []) t = name
one_colon _ t = t

-- The address of a `for=` value, without its port.
unfoldable pub without_for_port : Text → Text
unfolding occurs before_port trim_prefix split_on
without_for_port t =
    if occurs (codes "]:") t
    then before_port (trim_prefix (codes "[") t)
    else one_colon (split_on b':' t) t

module _ (parse_ip : Text → Option Text) (split_host_port : Text → Option Text) where
  abbrev pub or_else : Option Text → Option Text → Option Text
  or_else none rest = rest
  or_else (some ip) rest = some ip

  unfoldable pub of_value : Option Text → Option Text
  unfolding without_for_port
  of_value none = none
  of_value (some value) = parse_ip (without_for_port value)

  -- The first `for=` part that is an address.
  unfoldable pub forwarded_for : List Text → Option Text
  unfolding part_value of_value
  forwarded_for [] = none
  forwarded_for (part ∷ parts) =
      or_else (of_value (part_value (codes "for=") part)) (forwarded_for parts)

  -- A header that holds an address; the empty text is no address.
  unfoldable of_header : Text → Option Text
  unfolding trim_space
  of_header [] = none
  of_header (c ∷ t) = parse_ip (trim_space (c ∷ t))

  -- The first header that gives an address, in the order of the source.
  unfoldable pub from_headers : Headers → Option Text → Option Text
  unfolding of_header forwarded_for first_listed trim_space split_on text_eq
  from_headers h remote =
      or_else (if text_eq h.forwarded [] then none else forwarded_for (split_on b';' h.forwarded)) (
        or_else (of_header h.x_real_ip) (
          or_else
            (if text_eq h.x_forwarded_for []
              then none
              else parse_ip (trim_space (first_listed h.x_forwarded_for)))
            (or_else (of_header h.cf_connecting_ip) (or_else (of_header h.true_client_ip) remote))))

  unfoldable pub from_remote : Bool → Headers → Option Text → Option Text
  unfolding is_private_ip from_headers
  from_remote trust_proxy h remote =
      if trust_proxy || is_private_ip remote then from_headers h remote else remote

  abbrev pub from_peer : Bool → Headers → Option Text → Option Text
  from_peer trust_proxy h none = none
  from_peer trust_proxy h (some host) = from_remote trust_proxy h (parse_ip host)

  -- `none` is the nil address.
  unfoldable pub get_client_addr_trusted : Bool → Request → Option Text
  unfolding from_remote
  get_client_addr_trusted trust_proxy req =
      from_peer trust_proxy req.headers (split_host_port req.remote_addr)

  unfoldable pub get_client_addr : Request → Option Text
  unfolding get_client_addr_trusted
  get_client_addr req = get_client_addr_trusted false req
