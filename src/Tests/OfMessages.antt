-- ===== src/Tests/OfMessages.antt =====
-- Tests and examples of the handshake messages.
use goktls.Base.{
  ℕ, ◌+◌, ◌*◌, ◌≡◌, ◌<◌, refl, true, false, List, [], ◌∷◌, none, some, replicate, arith,
}
use goktls.Tests.BigEndian.{big_endian, big_endian-IsLawful}
use goktls.Wire.Build.{◌⊕◌, each, add_bytes_with_length, add_prefixed}
use goktls.Wire.Lists.{uints, strings}
use goktls.Wire.Extensions.{extension, empty_extension}
use goktls.Messages.Alpn.{one_protocol}
use goktls.Messages.Framing.{framed, marshal_with}
use goktls.Messages.ClientHello
use goktls.Messages.ClientHello.{ClientHelloMsg}
use goktls.Messages.ClientHello.Canonical as HelloRules
use goktls.Messages.ClientHello.Unmarshal.{has_trailing_dot}
use goktls.Messages.ClientHello.Unmarshal as HelloReader
use goktls.Messages.ClientHello.RoundTrip as HelloTrip
use goktls.Messages.ClientHello.Binders.{gives, same_lengths, update_binders}
use goktls.Messages.ClientHello.Binders.Update.{update_binders-marshal}
use goktls.Messages.ServerHello
use goktls.Messages.ServerHello.{ServerHelloMsg}
use goktls.Messages.ServerHello.Canonical as ReplyRules
use goktls.Messages.ServerHello.RoundTrip as ReplyTrip
use goktls.Messages.NewSessionTicket13
use goktls.Messages.NewSessionTicket13.{NewSessionTicketMsg13}
use goktls.Messages.CertificateRequest13
use goktls.Messages.CertificateRequest13.{CertificateRequestMsg13}
use goktls.Messages.Certificate13
use goktls.Messages.Certificate13.{CertificateMsg13, Certificate}
use goktls.Messages.Certificate13.Entries as ChainRules
use goktls.Messages.Certificate13.RoundTrip as ChainTrip
use goktls.Messages.Certificate
use goktls.Messages.Certificate.{CertificateMsg}
use goktls.Messages.CertificateRequest
use goktls.Messages.CertificateRequest.{CertificateRequestMsg}
use goktls.Messages.Short
use goktls.Messages.Short.{CertificateVerifyMsg}

abbrev hello : ClientHelloMsg
hello = record (ClientHello.blank []) {
  raw = none;
  vers = 0x303;
  random = replicate 32 7;
  session_id = 1 ∷ 2 ∷ [];
  cipher_suites = 0x1301 ∷ 0x00ff ∷ [];
  compression_methods = 0 ∷ [];
  server_name = b'a' ∷ b'b' ∷ [];
  ocsp_stapling = true;
  supported_curves = 29 ∷ [];
  ticket_supported = true;
  session_ticket = 9 ∷ [];
  secure_renegotiation_supported = true;
  alpn_protocols = (b'h' ∷ b'2' ∷ []) ∷ [];
  scts = true;
  supported_versions = 0x304 ∷ [];
  key_shares = record { group = 29; key_data = 5 ∷ [] } ∷ [];
  psk_identities = record { label = 1 ∷ []; obfuscated_ticket_age = 70000 } ∷ [];
  psk_binders = (3 ∷ 4 ∷ []) ∷ [];
}

abbrev hello_bytes : List ℕ
hello_bytes =
    1 ∷ 0 ∷ 0 ∷ 134 ∷ 3 ∷ 3 ∷ 7 ∷ 7 ∷ 7 ∷ 7 ∷ 7 ∷ 7 ∷ 7 ∷ 7 ∷ 7 ∷ 7 ∷ 7 ∷ 7 ∷ 7 ∷ 7 ∷ 7 ∷ 7 ∷ 7 ∷ 7
    ∷ 7 ∷ 7 ∷ 7 ∷ 7 ∷ 7 ∷ 7 ∷ 7 ∷ 7 ∷ 7 ∷ 7 ∷ 7 ∷ 7 ∷ 7 ∷ 7 ∷ 2 ∷ 1 ∷ 2 ∷ 0 ∷ 4 ∷ 19 ∷ 1 ∷ 0 ∷ 255
    ∷ 1 ∷ 0 ∷ 0 ∷ 87 ∷ 0 ∷ 0 ∷ 0 ∷ 7 ∷ 0 ∷ 5 ∷ 0 ∷ 0 ∷ 2 ∷ 97 ∷ 98 ∷ 0 ∷ 5 ∷ 0 ∷ 5 ∷ 1 ∷ 0 ∷ 0 ∷ 0
    ∷ 0 ∷ 0 ∷ 10 ∷ 0 ∷ 4 ∷ 0 ∷ 2 ∷ 0 ∷ 29 ∷ 0 ∷ 35 ∷ 0 ∷ 1 ∷ 9 ∷ 255 ∷ 1 ∷ 0 ∷ 1 ∷ 0 ∷ 0 ∷ 16 ∷ 0
    ∷ 5 ∷ 0 ∷ 3 ∷ 2 ∷ 104 ∷ 50 ∷ 0 ∷ 18 ∷ 0 ∷ 0 ∷ 0 ∷ 43 ∷ 0 ∷ 3 ∷ 2 ∷ 3 ∷ 4 ∷ 0 ∷ 51 ∷ 0 ∷ 7 ∷ 0
    ∷ 5 ∷ 0 ∷ 29 ∷ 0 ∷ 1 ∷ 5 ∷ 0 ∷ 41 ∷ 0 ∷ 14 ∷ 0 ∷ 7 ∷ 0 ∷ 1 ∷ 1 ∷ 0 ∷ 1 ∷ 17 ∷ 112 ∷ 0 ∷ 3 ∷ 2
    ∷ 3 ∷ 4 ∷ []

hello-IsCanonical : HelloRules.IsCanonical hello
unfolding has_trailing_dot
hello-IsCanonical = record {
  vers = omega arith;
  cipher_suites = omega arith;
  server_name = refl;
  curves = omega arith;
  ticket = λ c. cc;
  signature_algorithms = tt;
  signature_algorithms_cert = tt;
  renegotiation = λ c. cc;
  scsv = λ c. cc;
  alpn = omega arith;
  versions = omega arith;
  key_shares = omega arith;
  identities = omega arith;
  binders = omega arith;
  together = refl;
}

hello_written :
    ClientHello.marshal big_endian hello
    ≡ some (hello_bytes, record hello { raw = some hello_bytes })
unfolding ClientHello.marshal ◌⊕◌ each add_bytes_with_length add_prefixed uints strings extension
    empty_extension big_endian framed marshal_with one_protocol ClientHello.key_share
    ClientHello.psk_identity ClientHello.host_name ClientHello.binders
hello_written = refl

hello_read_back_example :
    (HelloReader.unmarshal big_endian hello_bytes ≡ some (record hello { raw = some hello_bytes }))
    × (◌≡◌ {A = ClientHelloMsg}
        (record hello { raw = some hello_bytes })
        (record hello { raw = some hello_bytes }))
hello_read_back_example =
    HelloTrip.unmarshal-marshal_client_hello big_endian big_endian-IsLawful hello hello-IsCanonical
      refl hello_written

abbrev computed : List (List ℕ)
computed = (77 ∷ 78 ∷ []) ∷ []

as_long : same_lengths hello.psk_binders computed ≡ true
unfolding same_lengths
as_long = refl

update_binders-marshal_example :
    (out : List ℕ) × (ClientHello.marshal big_endian (record hello { psk_binders = computed })
      ≡ some (out, record hello { raw = some out; psk_binders = computed }))
    × (update_binders big_endian (record hello { raw = some hello_bytes }) computed
        ≡ gives (record hello { raw = some out; psk_binders = computed }))
update_binders-marshal_example =
    update_binders-marshal big_endian big_endian-IsLawful hello computed hello_bytes
      (record hello { raw = some hello_bytes }) refl refl refl as_long hello_written

abbrev reply : ServerHelloMsg
reply = record (ServerHello.blank []) {
  raw = none;
  vers = 0x303;
  random = replicate 32 7;
  session_id = 1 ∷ 2 ∷ [];
  cipher_suite = 0x1301;
  supported_version = 0x304;
  server_share = record { group = 29; key_data = 5 ∷ [] };
  selected_identity_present = true;
  cookie = 8 ∷ [];
}

abbrev reply_bytes : List ℕ
reply_bytes =
    2 ∷ 0 ∷ 0 ∷ 70 ∷ 3 ∷ 3 ∷ 7 ∷ 7 ∷ 7 ∷ 7 ∷ 7 ∷ 7 ∷ 7 ∷ 7 ∷ 7 ∷ 7 ∷ 7 ∷ 7 ∷ 7 ∷ 7 ∷ 7 ∷ 7 ∷ 7 ∷ 7
    ∷ 7 ∷ 7 ∷ 7 ∷ 7 ∷ 7 ∷ 7 ∷ 7 ∷ 7 ∷ 7 ∷ 7 ∷ 7 ∷ 7 ∷ 7 ∷ 7 ∷ 2 ∷ 1 ∷ 2 ∷ 19 ∷ 1 ∷ 0 ∷ 0 ∷ 28 ∷ 0
    ∷ 43 ∷ 0 ∷ 2 ∷ 3 ∷ 4 ∷ 0 ∷ 51 ∷ 0 ∷ 5 ∷ 0 ∷ 29 ∷ 0 ∷ 1 ∷ 5 ∷ 0 ∷ 41 ∷ 0 ∷ 2 ∷ 0 ∷ 0 ∷ 0 ∷ 44 ∷ 0
    ∷ 3 ∷ 0 ∷ 1 ∷ 8 ∷ []

reply-IsCanonical : ReplyRules.IsCanonical reply
reply-IsCanonical = record {
  vers = omega arith;
  cipher_suite = omega arith;
  compression_method = omega arith;
  renegotiation = λ c. refl;
  scts = tt;
  version = omega arith;
  group = omega arith;
  no_share = λ c. absurd (omega arith);
  identity = omega arith;
  no_identity = λ c. refl;
  selected = omega arith;
  one_of = λ c. refl;
}

reply_written :
    ServerHello.marshal big_endian reply
    ≡ some (reply_bytes, record reply { raw = some reply_bytes })
unfolding ServerHello.marshal ◌⊕◌ each add_bytes_with_length add_prefixed uints strings extension
    empty_extension big_endian framed marshal_with one_protocol
reply_written = refl

reply_read_back_example :
    (ServerHello.unmarshal big_endian reply_bytes ≡ some (record reply { raw = some reply_bytes }))
    × (◌≡◌ {A = ServerHelloMsg}
        (record reply { raw = some reply_bytes })
        (record reply { raw = some reply_bytes }))
reply_read_back_example =
    ReplyTrip.unmarshal-marshal_server_hello big_endian big_endian-IsLawful reply reply-IsCanonical
      refl reply_written

abbrev ticket : NewSessionTicketMsg13
ticket = record {
  raw = none;
  lifetime = 7200;
  age_add = 70000;
  nonce = 1 ∷ [];
  label = 2 ∷ 3 ∷ [];
  max_early_data = 9;
}

abbrev ticket_bytes : List ℕ
ticket_bytes =
    4 ∷ 0 ∷ 0 ∷ 24 ∷ 0 ∷ 0 ∷ 28 ∷ 32 ∷ 0 ∷ 1 ∷ 17 ∷ 112 ∷ 1 ∷ 1 ∷ 0 ∷ 2 ∷ 2 ∷ 3 ∷ 0 ∷ 8 ∷ 0 ∷ 42 ∷ 0
    ∷ 4 ∷ 0 ∷ 0 ∷ 0 ∷ 9 ∷ []

ticket_written :
    NewSessionTicket13.marshal big_endian ticket
    ≡ some (ticket_bytes, record ticket { raw = some ticket_bytes })
unfolding NewSessionTicket13.marshal ◌⊕◌ each add_bytes_with_length add_prefixed uints strings
    extension empty_extension big_endian framed marshal_with one_protocol
ticket_written = refl

ticket_read_back_example :
    NewSessionTicket13.unmarshal big_endian ticket_bytes
    ≡ some (record ticket { raw = some ticket_bytes })
ticket_read_back_example =
    NewSessionTicket13.unmarshal-marshal_new_session_ticket13 big_endian big_endian-IsLawful ticket
      (omega arith) refl ticket_written

abbrev request13 : CertificateRequestMsg13
request13 = record {
  raw = none;
  ocsp_stapling = true;
  scts = false;
  supported_signature_algorithms = 0x0403 ∷ [];
  supported_signature_algorithms_cert = [];
  certificate_authorities = (1 ∷ 2 ∷ []) ∷ [];
}

abbrev request13_bytes : List ℕ
request13_bytes =
    13 ∷ 0 ∷ 0 ∷ 25 ∷ 0 ∷ 0 ∷ 22 ∷ 0 ∷ 5 ∷ 0 ∷ 0 ∷ 0 ∷ 13 ∷ 0 ∷ 4 ∷ 0 ∷ 2 ∷ 4 ∷ 3 ∷ 0 ∷ 47 ∷ 0 ∷ 6
    ∷ 0 ∷ 4 ∷ 0 ∷ 2 ∷ 1 ∷ 2 ∷ []

request13_written :
    CertificateRequest13.marshal big_endian request13
    ≡ some (request13_bytes, record request13 { raw = some request13_bytes })
unfolding CertificateRequest13.marshal ◌⊕◌ each add_bytes_with_length add_prefixed uints strings
    extension empty_extension big_endian framed marshal_with one_protocol
request13_written = refl

request13_read_back_example :
    CertificateRequest13.unmarshal big_endian request13_bytes
    ≡ some (record request13 { raw = some request13_bytes })
request13_read_back_example =
    CertificateRequest13.unmarshal-marshal_certificate_request13 big_endian big_endian-IsLawful
      request13 (omega arith) refl request13_written

abbrev chain13 : CertificateMsg13
chain13 = record {
  raw = none;
  certificate = record {
    chain = (1 ∷ 2 ∷ []) ∷ (3 ∷ []) ∷ [];
    ocsp_staple = some (4 ∷ []);
    timestamps = some ((5 ∷ []) ∷ []);
  };
  ocsp_stapling = true;
  scts = true;
}

abbrev chain13_bytes : List ℕ
chain13_bytes =
    11 ∷ 0 ∷ 0 ∷ 35 ∷ 0 ∷ 0 ∷ 0 ∷ 31 ∷ 0 ∷ 0 ∷ 2 ∷ 1 ∷ 2 ∷ 0 ∷ 18 ∷ 0 ∷ 5 ∷ 0 ∷ 5 ∷ 1 ∷ 0 ∷ 0 ∷ 1
    ∷ 4 ∷ 0 ∷ 18 ∷ 0 ∷ 5 ∷ 0 ∷ 3 ∷ 0 ∷ 1 ∷ 5 ∷ 0 ∷ 0 ∷ 1 ∷ 3 ∷ 0 ∷ 0 ∷ []

chain13-IsCanonical : ChainRules.IsCanonical chain13.certificate
chain13-IsCanonical = record {
  staple = λ c. omega arith;
  some_timestamp = λ c. omega arith;
  timestamps = omega arith;
  no_leaf = λ c. cc;
}

chain13_written :
    Certificate13.marshal big_endian chain13
    ≡ some (chain13_bytes, record chain13 { raw = some chain13_bytes })
unfolding Certificate13.marshal ◌⊕◌ each add_bytes_with_length add_prefixed uints strings extension
    empty_extension big_endian framed marshal_with one_protocol Certificate13.staple
    Certificate13.leaf_extensions
chain13_written = refl

chain13_read_back_example :
    Certificate13.unmarshal big_endian chain13_bytes
    ≡ some (record chain13 { raw = some chain13_bytes })
chain13_read_back_example =
    ChainTrip.unmarshal-marshal_certificate13 big_endian big_endian-IsLawful chain13 refl
      chain13-IsCanonical refl refl chain13_written

abbrev chain : CertificateMsg
chain = record { raw = none; certificates = (1 ∷ 2 ∷ []) ∷ (3 ∷ []) ∷ [] }

abbrev chain_bytes : List ℕ
chain_bytes = 11 ∷ 0 ∷ 0 ∷ 12 ∷ 0 ∷ 0 ∷ 9 ∷ 0 ∷ 0 ∷ 2 ∷ 1 ∷ 2 ∷ 0 ∷ 0 ∷ 1 ∷ 3 ∷ []

chain_small : 3 + 3 * 2 + Certificate.total ((1 ∷ 2 ∷ []) ∷ (3 ∷ []) ∷ []) < 16777216
unfolding Certificate.total
chain_small = omega arith

chain_written :
    Certificate.marshal chain ≡ some (chain_bytes, record chain { raw = some chain_bytes })
unfolding Certificate.marshal ◌⊕◌ each add_bytes_with_length add_prefixed uints strings extension
    empty_extension big_endian framed marshal_with one_protocol
chain_written = refl

chain_read_back_example :
    Certificate.unmarshal chain_bytes ≡ some (record chain { raw = some chain_bytes })
chain_read_back_example =
    Certificate.unmarshal-marshal_certificate chain refl (omega arith) chain_small chain_written

abbrev request : CertificateRequestMsg
request = record {
  raw = none;
  has_signature_algorithm = true;
  certificate_types = 1 ∷ 64 ∷ [];
  supported_signature_algorithms = 0x0403 ∷ [];
  certificate_authorities = (1 ∷ 2 ∷ []) ∷ [];
}

abbrev request_bytes : List ℕ
request_bytes = 13 ∷ 0 ∷ 0 ∷ 13 ∷ 2 ∷ 1 ∷ 64 ∷ 0 ∷ 2 ∷ 4 ∷ 3 ∷ 0 ∷ 4 ∷ 0 ∷ 2 ∷ 1 ∷ 2 ∷ []

request-IsCanonical : CertificateRequest.IsCanonical request
unfolding CertificateRequest.cas_length
request-IsCanonical = record {
  some_type = omega arith;
  types = omega arith;
  algorithms = omega arith;
  count = omega arith;
  authorities = omega arith;
}

request_written :
    CertificateRequest.marshal request
    ≡ some (request_bytes, record request { raw = some request_bytes })
unfolding CertificateRequest.marshal ◌⊕◌ each add_bytes_with_length add_prefixed uints strings
    extension empty_extension big_endian framed marshal_with one_protocol
request_written = refl

request_read_back_example :
    CertificateRequest.unmarshal
      (record request { supported_signature_algorithms = [] })
      request_bytes
    ≡ some (record request { raw = some request_bytes })
request_read_back_example =
    CertificateRequest.unmarshal-marshal_certificate_request request
      (record request { supported_signature_algorithms = [] }) refl request-IsCanonical refl
      request_written

abbrev verify : CertificateVerifyMsg
verify = record {
  raw = none;
  has_signature_algorithm = true;
  signature_algorithm = 0x0403;
  signature = 1 ∷ 2 ∷ [];
}

abbrev verify_bytes : List ℕ
verify_bytes = 15 ∷ 0 ∷ 0 ∷ 6 ∷ 4 ∷ 3 ∷ 0 ∷ 2 ∷ 1 ∷ 2 ∷ []

verify_written :
    Short.marshal_certificate_verify big_endian verify
    ≡ some (verify_bytes, record verify { raw = some verify_bytes })
unfolding Short.marshal_certificate_verify ◌⊕◌ each add_bytes_with_length add_prefixed uints strings
    extension empty_extension big_endian framed marshal_with one_protocol
verify_written = refl

verify_read_back_example :
    Short.unmarshal_certificate_verify big_endian (record verify { signature = [] }) verify_bytes
    ≡ some (record verify { raw = some verify_bytes })
verify_read_back_example =
    Short.unmarshal-marshal_certificate_verify big_endian big_endian-IsLawful verify
      (record verify { signature = [] }) refl (omega arith) refl verify_written
