-- ===== src/Messages/ServerHello/Canonical.antt =====
-- The serverHelloMsg values that can be read back.
use goktls.Base.{◌<◌, ◌==◌, ◌≡◌, true, false, []}
use goktls.Messages.{IsFilled}
use goktls.Messages.ServerHello.{ServerHelloMsg}

-- Numbers in their ranges, no empty timestamps, a share or a group but not both, and a field that
-- its flag leaves out is empty.
pub record IsCanonical (h : ServerHelloMsg) : Type 0 where
  pub vers : h.vers < 65536
  pub cipher_suite : h.cipher_suite < 65536
  pub compression_method : h.compression_method < 256
  pub renegotiation : h.secure_renegotiation_supported ≡ false → h.secure_renegotiation ≡ []
  pub scts : IsFilled h.scts
  pub version : h.supported_version < 65536
  pub group : h.server_share.group < 65536
  pub no_share : h.server_share.group ≡ 0 → h.server_share.key_data ≡ []
  pub identity : h.selected_identity < 65536
  pub no_identity : h.selected_identity_present ≡ false → h.selected_identity ≡ 0
  pub selected : h.selected_group < 65536
  pub one_of : (h.server_share.group == 0) ≡ false → (h.selected_group == 0) ≡ true
