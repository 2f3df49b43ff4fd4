-- ===== src/Host/Tests.antt =====
-- Requests through proxies. `parse_ip` knows three addresses by their names.
use caspaste.Prelude.{
  ◌≡◌, refl, false, if◌then◌else◌, Option, none, some, [], Text, text_eq, codes, split_on,
  has_prefix, arith,
}
use caspaste.Prelude.Numbers.{trim_space}
use caspaste.Validation.Driver.{trim_prefix}
use caspaste.Host.Headers.{Headers, Request, forwarded_value, first_value, part_value, trim_quotes}
use caspaste.Host.Url.{get_host, get_protocol, build_paste_url}
use caspaste.Host.Client.{is_private_ip, get_client_addr, get_client_addr_trusted}
use caspaste.Host.Ranges.{v4, number, in_private_block, is_private_ip-number}
use caspaste.Host.Trust.{get_client_addr-public}
use caspaste.Host.Ports.{build_paste_url-port}

abbrev parse_ip : Text → Option Text
parse_ip t =
    if text_eq t (codes "8.8.4.4")
    then some (v4 8 8 4 4)
    else if text_eq t (codes "10.0.0.7")
    then some (v4 10 0 0 7)
    else none

abbrev split_host_port : Text → Option Text
split_host_port t = some t

abbrev headers : Headers
headers = record {
  forwarded = codes "for=8.8.4.4:5; host=\"paste.org:443\" ;proto=https";
  x_forwarded_host = [];
  x_forwarded_proto = [];
  x_forwarded_ssl = [];
  x_scheme = [];
  x_real_ip = codes "10.0.0.7";
  x_forwarded_for = [];
  cf_connecting_ip = [];
  true_client_ip = [];
}

abbrev request : Text → Request
request peer = record {
  headers = headers;
  host = codes "localhost";
  tls = false;
  url_scheme = [];
  remote_addr = peer;
}

is_private_ip-number_run :
    is_private_ip (some (v4 172 31 255 255)) ≡ in_private_block (number 172 31 255 255)
is_private_ip-number_run =
    is_private_ip-number 172 31 255 255 (omega arith) (omega arith) (omega arith) (omega arith)

get_client_addr-public_example :
    get_client_addr parse_ip split_host_port (request (codes "8.8.4.4")) ≡ some (v4 8 8 4 4)
unfolding text_eq
get_client_addr-public_example =
    get_client_addr-public parse_ip split_host_port (request (codes "8.8.4.4")) (codes "8.8.4.4") 8
      8 4 4 (omega arith) (omega arith) (omega arith) (omega arith) refl refl refl

-- Behind a proxy the header is read.
behind_proxy :
    get_client_addr parse_ip split_host_port (request (codes "10.0.0.7")) ≡ some (v4 8 8 4 4)
unfolding get_client_addr get_client_addr_trusted text_eq
behind_proxy = refl

host_header : get_host (request []) ≡ codes "paste.org:443"
unfolding get_host forwarded_value first_value part_value trim_quotes trim_prefix trim_space
    split_on has_prefix
host_header = refl

build_paste_url-port_run :
    build_paste_url (request []) (codes "abc") ≡ codes "https://paste.org/abc"
unfolding get_protocol forwarded_value first_value part_value trim_quotes trim_prefix trim_space
    split_on has_prefix text_eq
build_paste_url-port_run =
    build_paste_url-port (request []) (codes "paste.org") (codes "443") (codes "abc") refl refl
      host_header
