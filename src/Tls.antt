-- ===== src/Tls.antt =====
-- `TlsConfig` of src/tls/mod.rs. A `PathBuf` is its text; `load`, which reads files, is not modelled.
use for_mqtt_client.Base.{Bool, false}
use for_mqtt_client.Properties.{Text}

pub data CertificateFile : Type 0 where
  pem : Text → CertificateFile

pub data PrivateKeyFile : Type 0 where
  rsa pkcs8 : Text → PrivateKeyFile

pub data VerifyServer : Type 0 where
  ca : Bool → VerifyServer
  self_signed : Bool → CertificateFile → VerifyServer
  insecurity : VerifyServer

pub data VerifyClient : Type 0 where
  no_client : VerifyClient
  verify : CertificateFile → PrivateKeyFile → VerifyClient

pub record TlsConfig : Type 0 where
  pub verify_server : VerifyServer
  pub verify_client : VerifyClient

abbrev pub default : TlsConfig
default = record { verify_server = ca false; verify_client = no_client }

unfoldable pub verify_dns_name : VerifyServer → Bool
verify_dns_name (ca v) = v
verify_dns_name (self_signed v file) = v
verify_dns_name insecurity = false

abbrev pub with_dns_name : VerifyServer → Bool → VerifyServer
with_dns_name (ca _) v = ca v
with_dns_name (self_signed _ file) v = self_signed v file
with_dns_name insecurity v = insecurity

unfoldable pub set_verify_dns_name : TlsConfig → Bool → TlsConfig
set_verify_dns_name c v = record c { verify_server = with_dns_name c.verify_server v }

unfoldable pub set_server_ca_pem_file : TlsConfig → Text → TlsConfig
unfolding verify_dns_name
set_server_ca_pem_file c file = record c {
  verify_server = self_signed (verify_dns_name c.verify_server) (pem file);
}

unfoldable pub set_insecurity : TlsConfig → TlsConfig
set_insecurity c = record c { verify_server = insecurity }

unfoldable pub set_verify_client : TlsConfig → CertificateFile → PrivateKeyFile → TlsConfig
set_verify_client c certificate_file key_file = record c {
  verify_client = verify certificate_file key_file;
}
