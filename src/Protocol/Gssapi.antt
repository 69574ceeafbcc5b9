-- ===== src/Protocol/Gssapi.antt =====
-- The security contexts of the `cross_krb5` crate, which the repository only calls: src/ldap.rs makes
-- one in a GSSAPI bind, and src/protocol.rs protects messages with it. They are a parameter, a record
-- of functions; a second record states what the crate documents of them.
use ldap.Common.{ℕ, ◌≡◌, Bool, true, Option, some, Bytes, length, ◌++◌}

-- `cross_krb5::Step`.
pub data Step (Pending Ctx : Type 0) : Type 0 where
  finished : Ctx → Option Bytes → Step Pending Ctx
  proceed : Pending → Bytes → Step Pending Ctx

-- `none` in the place of a result is an error. A `&mut self` and a `&mut BytesMut` are given and
-- returned. `unwrap_iov` takes a length and the buffer.
pub record Gssapi : Type 1 where
  pub Cred : Type 0
  pub PendingClientCtx : Type 0
  pub ClientCtx : Type 0
  pub new : Bytes → Option Bytes → Option (PendingClientCtx × Bytes)
  pub new_with_cred : Cred → Bytes → Option Bytes → Option (PendingClientCtx × Bytes)
  pub step : PendingClientCtx → Bytes → Option (Step PendingClientCtx ClientCtx)
  pub wrap : ClientCtx → Bool → Bytes → ClientCtx × Option Bytes
  pub unwrap : ClientCtx → Bytes → ClientCtx × Option Bytes
  pub unwrap_iov : ClientCtx → ℕ → Bytes → ClientCtx × Bytes × Option Bytes

pub record IsGssapi (gssapi : Gssapi) : Type 1 where
  -- The two ends of one established context, of which the second has received what the first has sent.
  pub Peers : gssapi.ClientCtx → gssapi.ClientCtx → Type 0
  -- What one end has wrapped the other unwraps, and it leaves what follows in the buffer.
  pub unwrap_iov-wrap :
      (a a' b : gssapi.ClientCtx) (message sealed rest : Bytes)
      → Peers a b
      → gssapi.wrap a true message ≡ (a', some sealed)
      → (b' : gssapi.ClientCtx) × (gssapi.unwrap_iov b (length sealed) (sealed ++ rest)
          ≡ (b', rest, some message))
        × Peers a' b'
