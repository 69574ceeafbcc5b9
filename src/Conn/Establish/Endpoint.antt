-- ===== src/Conn/Establish/Endpoint.antt =====
-- src/conn.rs: the token of the end point of a channel and the certificate of the peer, with the
-- `tls-rustls` feature.
use ldap.Common.{
  ◌≡◌, refl, Option, none, some, List, [], ◌∷◌, Bytes, All, bytes_eq, if◌then◌else◌, ok, panic,
  codes,
}
use ldap.Conn.Establish.{ConnType, tcp, tls, unix}
use ldap.Result.Types.{Run}

pub data Algorithm : Type 0 where
  sha256 sha384 sha512 : Algorithm

-- The algorithm for each signature algorithm.
abbrev pub endpoint_algs : List (Bytes × Algorithm)
endpoint_algs =
    (codes "1.2.840.113549.1.1.4", sha256)
    ∷ (codes "1.2.840.113549.1.1.5", sha256)
    ∷ (codes "1.2.840.113549.1.1.11", sha256)
    ∷ (codes "1.2.840.113549.1.1.12", sha384)
    ∷ (codes "1.2.840.113549.1.1.13", sha512)
    ∷ (codes "1.2.840.10045.4.3.2", sha256)
    ∷ (codes "1.2.840.10045.4.3.3", sha384)
    ∷ (codes "1.2.840.10045.4.3.4", sha512)
    ∷ []

abbrev pub algorithm_of : Bytes → List (Bytes × Algorithm) → Option Algorithm
algorithm_of oid [] = none
algorithm_of oid ((known, alg) ∷ algs) =
    let rest = algorithm_of oid algs in if bytes_eq oid known then some alg else rest

-- The signature algorithm of a certificate by the crate x509_parser, `none` where it does not parse,
-- and the digest by the crate ring.
pub record Crypto : Type 0 where
  pub signature_algorithm : Bytes → Option Bytes
  pub digest : Algorithm → Bytes → Bytes

module _ (crypto : Crypto) where
  abbrev pub digested : Bytes → Option Algorithm → Option Bytes
  digested cert none = none
  digested cert (some alg) = some (crypto.digest alg cert)

  abbrev pub with_sigalg : Bytes → Option Bytes → Option Bytes
  with_sigalg cert none = none
  with_sigalg cert (some oid) = digested cert (algorithm_of oid endpoint_algs)

  -- Of the certificates of the peer, which has sent one or none at all.
  unfoldable pub get_tls_endpoint_token : Option (List Bytes) → Run (Option Bytes)
  get_tls_endpoint_token none = ok none
  get_tls_endpoint_token (some []) = panic
  get_tls_endpoint_token (some (cert ∷ certs)) =
      ok (with_sigalg cert (crypto.signature_algorithm cert))

abbrev pub first_certificate : Option (List Bytes) → Option Bytes
first_certificate none = none
first_certificate (some []) = none
first_certificate (some (cert ∷ certs)) = some cert

abbrev pub get_peer_certificate : ConnType → Option (List Bytes) → Run (Option Bytes)
get_peer_certificate tcp certs = ok none
get_peer_certificate unix certs = ok none
get_peer_certificate tls certs = ok (first_certificate certs)

-- The hash function of a signature.
data Hash : Type 0 where
  md5 sha1 with_sha256 with_sha384 with_sha512 : Hash

-- RFC 5929, 4.1: SHA-256 in the place of MD5 and SHA-1, and the hash function itself otherwise.
abbrev binding : Hash → Algorithm
binding md5 = sha256
binding sha1 = sha256
binding with_sha256 = sha256
binding with_sha384 = sha384
binding with_sha512 = sha512

-- RFC 8017 and RFC 5758: the signatures by RSA and by ECDSA.
abbrev signatures : List (Bytes × Hash)
signatures =
    (codes "1.2.840.113549.1.1.4", md5)
    ∷ (codes "1.2.840.113549.1.1.5", sha1)
    ∷ (codes "1.2.840.113549.1.1.11", with_sha256)
    ∷ (codes "1.2.840.113549.1.1.12", with_sha384)
    ∷ (codes "1.2.840.113549.1.1.13", with_sha512)
    ∷ (codes "1.2.840.10045.4.3.2", with_sha256)
    ∷ (codes "1.2.840.10045.4.3.3", with_sha384)
    ∷ (codes "1.2.840.10045.4.3.4", with_sha512)
    ∷ []

-- For the signatures of the two RFCs the digest is the one that RFC 5929 asks for.
algorithm_of-binding :
    All (λ (oid, hash). algorithm_of oid endpoint_algs ≡ some (binding hash)) signatures
algorithm_of-binding = (refl, (refl, (refl, (refl, (refl, (refl, (refl, (refl, tt))))))))
