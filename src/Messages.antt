-- ===== src/Messages.antt =====
-- Handshake messages (handshake_messages.go): the numbers of the messages and of the extensions
-- (common.go), and what several messages hold. A `raw` that is `none` is nil.
pub mod Alpn
pub mod Framing
pub mod EncryptedExtensions
pub mod NewSessionTicket13
pub mod CertificateRequest13
pub mod Bytes
pub mod Plain
pub mod Certificate
pub mod Short
pub mod CertificateRequest
pub mod Certificate13
pub mod ClientHello
pub mod ServerHello
use goktls.Wire.Build.{is_empty}
use goktls.Base.{ℕ, ◌<◌, ◌≡◌, List, [], ◌∷◌, Bool, true, false, not, length, All, refl, arith}

abbrev pub type_hello_request : ℕ
type_hello_request = 0

abbrev pub type_client_hello : ℕ
type_client_hello = 1

abbrev pub type_server_hello : ℕ
type_server_hello = 2

abbrev pub type_new_session_ticket : ℕ
type_new_session_ticket = 4

abbrev pub type_end_of_early_data : ℕ
type_end_of_early_data = 5

abbrev pub type_encrypted_extensions : ℕ
type_encrypted_extensions = 8

abbrev pub type_certificate : ℕ
type_certificate = 11

abbrev pub type_server_key_exchange : ℕ
type_server_key_exchange = 12

abbrev pub type_certificate_request : ℕ
type_certificate_request = 13

abbrev pub type_server_hello_done : ℕ
type_server_hello_done = 14

abbrev pub type_certificate_verify : ℕ
type_certificate_verify = 15

abbrev pub type_client_key_exchange : ℕ
type_client_key_exchange = 16

abbrev pub type_finished : ℕ
type_finished = 20

abbrev pub type_certificate_status : ℕ
type_certificate_status = 22

abbrev pub type_key_update : ℕ
type_key_update = 24

abbrev pub extension_server_name : ℕ
extension_server_name = 0

abbrev pub extension_status_request : ℕ
extension_status_request = 5

abbrev pub extension_supported_curves : ℕ
extension_supported_curves = 10

abbrev pub extension_supported_points : ℕ
extension_supported_points = 11

abbrev pub extension_signature_algorithms : ℕ
extension_signature_algorithms = 13

abbrev pub extension_alpn : ℕ
extension_alpn = 16

abbrev pub extension_sct : ℕ
extension_sct = 18

abbrev pub extension_session_ticket : ℕ
extension_session_ticket = 35

abbrev pub extension_pre_shared_key : ℕ
extension_pre_shared_key = 41

abbrev pub extension_early_data : ℕ
extension_early_data = 42

abbrev pub extension_supported_versions : ℕ
extension_supported_versions = 43

abbrev pub extension_cookie : ℕ
extension_cookie = 44

abbrev pub extension_psk_modes : ℕ
extension_psk_modes = 45

abbrev pub extension_certificate_authorities : ℕ
extension_certificate_authorities = 47

abbrev pub extension_signature_algorithms_cert : ℕ
extension_signature_algorithms_cert = 50

abbrev pub extension_key_share : ℕ
extension_key_share = 51

abbrev pub extension_renegotiation_info : ℕ
extension_renegotiation_info = 0xff01

abbrev pub scsv_renegotiation : ℕ
scsv_renegotiation = 0x00ff

abbrev pub status_type_ocsp : ℕ
status_type_ocsp = 1

pub record KeyShare : Type 0 where
  pub group : ℕ
  pub key_data : List ℕ

pub record PskIdentity : Type 0 where
  pub label : List ℕ
  pub obfuscated_ticket_age : ℕ

abbrev pub IsWords : List ℕ → Type 0
IsWords xs = All (λ x. x < 65536) xs

abbrev pub IsFilled : List (List ℕ) → Type 0
IsFilled xs = All (λ x. 0 < length x) xs

pub full {ℓ} : {A : Type ℓ} (xs : List A) → not (is_empty xs) ≡ true → 0 < length xs
full [] c = absurd (cc c)
full (x ∷ xs) c = omega arith

pub lacks {ℓ} : {A : Type ℓ} (xs : List A) → not (is_empty xs) ≡ false → xs ≡ []
lacks [] c = refl
lacks (x ∷ xs) c = absurd (cc c)
