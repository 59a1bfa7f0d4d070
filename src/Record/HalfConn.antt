-- ===== src/Record/HalfConn.antt =====
-- halfConn of conn.go: one direction of the record layer, its errors and its cipher changes.
use goktls.Base.{
  ℕ, Bool, true, false, ◌||◌, List, Option, none, some, leb, ◌==◌, if◌then◌else◌, length, replicate,
}
use goktls.Cipher.{Cipher, absent, stream, aead, cbc, ktls, aead_explicit_nonce_len}
use goktls.Protocol.{version_tls11, version_tls13, alert_internal_error}

-- The errors that the connection keeps. `op_local` and `op_remote` are the net.OpErrors for an alert
-- sent and an alert received; `net_error` is another net.Error, with its Temporary(); `permanent` is
-- permanentError. The messages of errors.New and the RecordHeaderErrors are numbered.
pub data ConnError : Type 0 where
  eof : ConnError
  unexpected_eof : ConnError
  alert : ℕ → ConnError
  op_local : ℕ → ConnError
  op_remote : ℕ → ConnError
  record_header : ℕ → ConnError
  message : ℕ → ConnError
  net_error : Bool → ℕ → ConnError
  permanent : ConnError → ConnError

pub record HalfConn : Type 0 where
  pub err : Option ConnError
  pub version : ℕ
  pub cipher : Cipher
  pub mac : Option ℕ
  pub seq : List ℕ
  pub next_cipher : Cipher
  pub next_mac : Option ℕ
  pub traffic_secret : List ℕ
  pub key : List ℕ
  pub iv : List ℕ

-- What is kept of an error: a net.Error is wrapped, so that it is permanent.
abbrev pub kept : ConnError → ConnError
kept (op_local a) = permanent (op_local a)
kept (op_remote a) = permanent (op_remote a)
kept (net_error t n) = permanent (net_error t n)
kept (permanent e) = permanent (permanent e)
kept eof = eof
kept unexpected_eof = unexpected_eof
kept (alert a) = alert a
kept (record_header n) = record_header n
kept (message n) = message n

abbrev pub kept_option : Option ConnError → Option ConnError
kept_option none = none
kept_option (some e) = some (kept e)

-- setErrorLocked.
unfoldable pub set_error : HalfConn → Option ConnError → HalfConn × Option ConnError
set_error hc e = (record hc { err = kept_option e }, kept_option e)

-- prepareCipherSpec.
unfoldable pub prepare_cipher_spec : HalfConn → ℕ → Cipher → Option ℕ → HalfConn
prepare_cipher_spec hc version cipher mac = record hc {
  version = version;
  next_cipher = cipher;
  next_mac = mac;
}

abbrev pub is_absent : Cipher → Bool
is_absent absent = true
is_absent (stream h) = false
is_absent (aead a) = false
is_absent (cbc c) = false
is_absent ktls = false

-- changeCipherSpec, with the error that it returns.
unfoldable pub change_cipher_spec : HalfConn → HalfConn × Option ConnError
change_cipher_spec hc =
    if is_absent hc.next_cipher || (hc.version == version_tls13)
    then (hc, some (alert alert_internal_error))
    else (
      record hc {
        cipher = hc.next_cipher;
        mac = hc.next_mac;
        next_cipher = absent;
        next_mac = none;
        seq = replicate (length hc.seq) 0;
      },
      none,
    )

-- What setTrafficSecret asks of a cipherSuiteTLS13: its methods trafficKey, aead and
-- nextTrafficSecret of key_schedule.go.
pub record Suite : Type 0 where
  pub traffic_key : List ℕ → List ℕ × List ℕ
  pub aead_cipher : List ℕ → List ℕ → Cipher
  pub next_traffic_secret : List ℕ → List ℕ

-- setTrafficSecret.
unfoldable pub set_traffic_secret : HalfConn → Suite → List ℕ → HalfConn
set_traffic_secret hc suite secret =
    let (key, iv) = suite.traffic_key secret in
    record hc {
      traffic_secret = secret;
      key = key;
      iv = iv;
      cipher = suite.aead_cipher key iv;
      seq = replicate (length hc.seq) 0;
    }

-- explicitNonceLen; `none` is its panic, "unknown cipher type".
unfoldable pub explicit_nonce_len : HalfConn → Option ℕ
explicit_nonce_len hc = elim hc.cipher [
  | absent ↦ some 0
  | stream h ↦ some 0
  | aead a ↦ some (aead_explicit_nonce_len a.form)
  | cbc c ↦ some (if leb version_tls11 hc.version then c.block_size else 0)
  | ktls ↦ none
]
