-- ===== src/Host/Trust.antt =====
-- The headers of a proxy count only if the peer is one.
use caspaste.Prelude.{ℕ, ◌<◌, ◌≡◌, refl, ap, ◌∙◌, false, Option, some, Text}
use caspaste.Host.Headers.{Headers, Request}
use caspaste.Host.Client.{
  is_private_ip, from_remote, from_peer, get_client_addr_trusted, get_client_addr,
}
use caspaste.Host.Ranges.{number, v4, in_private_block, is_private_ip-number}

module _ (parse_ip : Text → Option Text) (split_host_port : Text → Option Text) where
  from_remote-public :
      (h : Headers) (remote : Option Text)
      → is_private_ip remote ≡ false
      → from_remote parse_ip split_host_port false h remote ≡ remote
  unfolding from_remote
  from_remote-public h remote p = rw p refl

  -- A peer with an IPv4 address outside 10.0.0.0/8, 172.16.0.0/12, 192.168.0.0/16 and 127.0.0.0/8
  -- is the client, whatever headers it sends, unless the proxy is trusted.
  pub get_client_addr-public :
      (req : Request) (host : Text) (a b c d : ℕ)
      → a < 256
      → b < 256
      → c < 256
      → d < 256
      → split_host_port req.remote_addr ≡ some host
      → parse_ip host ≡ some (v4 a b c d)
      → in_private_block (number a b c d) ≡ false
      → get_client_addr parse_ip split_host_port req ≡ some (v4 a b c d)
  unfolding get_client_addr get_client_addr_trusted
  get_client_addr-public req host a b c d ha hb hc hd s p n =
      ap (from_peer parse_ip split_host_port false req.headers) s
      ∙ ap (from_remote parse_ip split_host_port false req.headers) p
      ∙ from_remote-public req.headers (some (v4 a b c d))
          (is_private_ip-number a b c d ha hb hc hd ∙ n)
