-- ===== src/Protocol.antt =====
-- The protocol's constants, from common.go, alert.go, cipher_suites.go and ktls_linux.go.
use goktls.Base.{ℕ}

abbrev pub version_tls10 : ℕ
version_tls10 = 0x0301

abbrev pub version_tls11 : ℕ
version_tls11 = 0x0302

abbrev pub version_tls12 : ℕ
version_tls12 = 0x0303

abbrev pub version_tls13 : ℕ
version_tls13 = 0x0304

abbrev pub max_plaintext : ℕ
max_plaintext = 16384

abbrev pub max_ciphertext : ℕ
max_ciphertext = 18432

abbrev pub max_ciphertext_tls13 : ℕ
max_ciphertext_tls13 = 16640

abbrev pub record_header_len : ℕ
record_header_len = 5

abbrev pub max_useless_records : ℕ
max_useless_records = 16

abbrev pub record_type_change_cipher_spec : ℕ
record_type_change_cipher_spec = 20

abbrev pub record_type_alert : ℕ
record_type_alert = 21

abbrev pub record_type_handshake : ℕ
record_type_handshake = 22

abbrev pub record_type_application_data : ℕ
record_type_application_data = 23

abbrev pub alert_level_warning : ℕ
alert_level_warning = 1

abbrev pub alert_level_error : ℕ
alert_level_error = 2

abbrev pub alert_close_notify : ℕ
alert_close_notify = 0

abbrev pub alert_unexpected_message : ℕ
alert_unexpected_message = 10

abbrev pub alert_bad_record_mac : ℕ
alert_bad_record_mac = 20

abbrev pub alert_record_overflow : ℕ
alert_record_overflow = 22

abbrev pub alert_decode_error : ℕ
alert_decode_error = 50

abbrev pub alert_protocol_version : ℕ
alert_protocol_version = 70

abbrev pub alert_internal_error : ℕ
alert_internal_error = 80

abbrev pub alert_no_renegotiation : ℕ
alert_no_renegotiation = 100
