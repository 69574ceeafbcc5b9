-- ===== src/Ber.antt =====
-- lber, the BER library (lber/src): the encoder, the parser and the ASN.1 types.
pub mod Universal
pub mod Structure
pub mod Write
pub mod Parse
pub mod Octets
pub mod Lengths
pub mod Header
pub mod RoundTrip
pub mod Total
pub mod Asn
pub mod Generic
pub mod Integers
pub mod HighTag
