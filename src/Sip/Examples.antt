-- ===== src/Sip/Examples.antt =====
-- The URI functions on concrete addresses.
use lwsip.Common.{
  [], ◌≡◌, ◌<◌, refl, some, Bytes, codes, arith, length, break_at, strchr, strip_prefix, lws_ok,
  lws_einval,
}
use lwsip.Common.Decimal.{decimal, decimal_fuel, read_digits}
use lwsip.Sip.{
  SipAddr, cleared, lws_sip_parse_uri, lws_sip_addr_to_string, parse_unquoted, parse_user,
  parse_port, skip_blanks, trim_end,
}
use lwsip.Sip.Parse.{IsFitting, parse-IsFitting}
use lwsip.Sip.Print.{full_text, print_bound}
use lwsip.Sip.RoundTrip.{IsPlain, written, parse-print}

abbrev alice : SipAddr
alice = record { nickname = codes "Al"; username = codes "al"; domain = codes "x.org"; port = 5070 }

alice_text : full_text alice ≡ codes "\"Al\"<sip:al@x.org:5070>"
unfolding full_text decimal decimal_fuel
alice_text = refl

unquoted_name : lws_sip_parse_uri (some (codes " Bob <sips:bob@y.net;x=1>")) (some cleared) ≡ (
  some
      (record { nickname = codes "Bob"; username = codes "bob"; domain = codes "y.net"; port = 0 }),
  lws_ok,
)
unfolding lws_sip_parse_uri parse_unquoted parse_user parse_port skip_blanks trim_end break_at
    strchr strip_prefix read_digits
unquoted_name = refl

no_user : lws_sip_parse_uri (some (codes "sip:x.org")) (some alice) ≡ (some cleared, lws_einval)
unfolding lws_sip_parse_uri parse_unquoted parse_user skip_blanks strchr strip_prefix
no_user = refl

parse-IsFitting_example :
    (addr : SipAddr) × ((lws_sip_parse_uri (some (codes "sip:al@x.org:99999")) (some alice)).0
      ≡ some addr)
    × IsFitting addr
parse-IsFitting_example = parse-IsFitting (codes "sip:al@x.org:99999") alice

alice-IsPlain : IsPlain alice
alice-IsPlain = record {
  fits = omega arith;
  nickname_plain = (refl, (refl, tt));
  username_plain = (refl, (refl, tt));
  username_open = (refl, (refl, tt));
  domain_plain = (refl, (refl, (refl, (refl, (refl, tt)))));
  domain_open = (refl, (refl, (refl, (refl, (refl, tt)))));
}

parse-print_example :
    lws_sip_parse_uri (lws_sip_addr_to_string (some alice) (some []) 64).0 (some cleared)
    ≡ (some (written alice), lws_ok)
unfolding full_text decimal decimal_fuel
parse-print_example = parse-print alice cleared [] 64 alice-IsPlain (omega arith)

print_bound_example :
    (text : Bytes) × ((lws_sip_addr_to_string (some alice) (some []) 12).0 ≡ some text)
    × (length text < 12)
print_bound_example = print_bound alice [] 12 (omega arith)
