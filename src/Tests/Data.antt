-- ===== src/Tests/Data.antt =====
-- Concrete ciphers and connections for the examples.
use goktls.Base.{
  ℕ, ◌-◌, ◌≡◌, ◌∙◌, ap, true, false, List, [], ◌++◌, Option, none, some, arith, length, take,
  replicate, length-append, take-length-append,
}
use goktls.Cipher.{Cipher, Ops, absent}
use goktls.Conn.{Conn, Network, Arrival}
use goktls.Record.HalfConn.{HalfConn}
use goktls.Record.Protect.Tls13.{AeadLaws}

abbrev pub tag : List ℕ
tag = replicate 16 0

-- An AEAD that adds a tag of 16 zeros.
abbrev pub toy_ops : Ops
toy_ops = record {
  seal = λ h n p ad. p ++ tag;
  unseal = λ h n c ad. some (take (length c - 16) c);
  overhead = λ h. 16;
  xor_key_stream = λ h p. (p, h);
  set_iv = λ h iv. h;
  crypt_blocks = λ h p. (p, h);
  mac = λ h m. replicate 20 0;
  mac_size = λ h. 20;
}

untagged : (p : List ℕ) → take (length (p ++ tag) - 16) (p ++ tag) ≡ p
untagged p =
    ap (λ (n : ℕ). take n (p ++ tag)) (omega (arith, length-append p tag))
    ∙ take-length-append p tag

pub toy_laws : AeadLaws toy_ops
toy_laws = record {
  unseal-seal = λ h n p ad. ap some (untagged p);
  length-seal = λ h n p ad. length-append p tag;
}

abbrev pub no_random : ℕ → Option (List ℕ)
no_random n = none

abbrev pub half : ℕ → Cipher → HalfConn
half version cipher = record {
  err = none;
  version = version;
  cipher = cipher;
  mac = none;
  seq = replicate 8 0;
  next_cipher = absent;
  next_mac = none;
  traffic_secret = [];
  key = [];
  iv = [];
}

-- A network that takes all that it is given.
abbrev pub open_network : Network
open_network = record {
  write_answer = λ h block. (length block, none);
  control_answer = λ h typ block. (length block, none);
  rand = no_random;
}

-- A connection at the start of its handshake.
abbrev pub fresh : List Arrival → Conn
fresh arrivals = record {
  vers = 0;
  have_vers = false;
  handshake_complete = false;
  dynamic_record_sizing_disabled = false;
  input_half = half 0 absent;
  out = half 0 absent;
  raw_input = [];
  input = [];
  hand = [];
  buffering = true;
  send_buf = [];
  bytes_sent = 0;
  packets_sent = 0;
  retry_count = 0;
  sent = [];
  incoming = arrivals;
  kernel_records = [];
}
