-- ===== src/Requests/Binds/Layer.antt =====
-- The security layer that a GSSAPI bind leaves on the connection (src/ldap.rs).
use ldap.Common.{
  ℕ, suc, ◌+◌, ◌≡◌, ◌≢◌, ◌⊎◌, inl, inr, refl, ap, subst, Bool, true, false, Option, none, some,
  List, [], ◌∷◌, ◌++◌, Bytes, length, ok, err, panic, arith, ◌==◌, ==_iff, bit_or, if◌then◌else◌,
  codes, not,
}
use ldap.Ber.Asn.{Tag}
use ldap.Protocol.Gssapi.{Gssapi, Step, finished, proceed}
use ldap.Protocol.Sasl.{LdapCodec}
use ldap.Result.Types.{Run, LdapResult}
use ldap.Result.Convert.{LdapResultExt}
use ldap.Requests.Binds
use ldap.Requests.Binds.{Exchange, returns, calls}
use ldap.Requests.Binds.Gssapi

-- What holds of a value that is returned after so many requests.
abbrev Ends : {A : Type 0} → (ℕ → A → Type 0) → ℕ → Exchange A → Type 0
Ends Q n (returns (ok a)) = Q n a
Ends Q n (returns (err e)) = Unit {0}
Ends Q n (returns panic) = Unit {0}
Ends Q n (calls req next) = (ans : LdapResultExt) → Ends Q (suc n) (next ans)

run-Ends :
    {A : Type 0} (Q : ℕ → A → Type 0) (n : ℕ) (exchange : Exchange A)
    (answers : List (Run LdapResultExt)) (reqs : List Tag) (a : A)
    → Ends Q n exchange
    → Binds.run exchange answers ≡ (reqs, some (ok a))
    → Q (n + length reqs) a
unfolding Binds.run
run-Ends Q n (returns (ok a')) answers reqs a ends h =
    let e : [] ≡ reqs = ap (λ p. p.0) h in
    let same : a' ≡ a = cc in
    subst (λ k. Q k a) (omega (arith, ap length e)) (subst (Q n) same ends)
run-Ends Q n (returns (err e)) answers reqs a ends h = cc
run-Ends Q n (returns panic) answers reqs a ends h = cc
run-Ends Q n (calls req next) [] reqs a ends h = cc
run-Ends Q n (calls req next) (err e ∷ answers) reqs a ends h = cc
run-Ends Q n (calls req next) (panic ∷ answers) reqs a ends h = cc
run-Ends Q n (calls req next) (ok ans ∷ answers) reqs a ends h =
    let (reqs', outcome) = Binds.run (next ans) answers in
    let e : req ∷ reqs' ≡ reqs = ap (λ p. p.0) h in
    subst (λ k. Q k a) (omega (arith, ap length e))
      (run-Ends Q (suc n) (next ans) answers reqs' a (ends ans) (ap (λ p. (reqs', p.1)) h))

if-Ends :
    {A : Type 0} (Q : ℕ → A → Type 0) (n : ℕ) (b : Bool) (x y : Exchange A)
    → ((b ≡ true) → Ends Q n x)
    → ((b ≡ false) → Ends Q n y)
    → Ends Q n (if b then x else y)
if-Ends Q n true x y hx hy = hx refl
if-Ends Q n false x y hx hy = hy refl

-- With a layer in place the codec wraps what it sends and unwraps what it receives.
abbrev pub with_layer :
    (gssapi : Gssapi) → ℕ → gssapi.ClientCtx → LdapCodec gssapi → LdapCodec gssapi
with_layer gssapi max ctx c = record c { sasl_param = (true, max); client_ctx = some ctx }

-- After so many requests, the last was the third and was answered with success and the layer is in
-- place, or it was not and the codec is as before.
abbrev pub IsSettled :
    (gssapi : Gssapi) → LdapCodec gssapi → ℕ → LdapCodec gssapi × LdapResult → Type 0
IsSettled gssapi c n (c', res) =
    ((n ≡ 3)
      × (res.rc ≡ 0)
      × ((max : ℕ) × (ctx : gssapi.ClientCtx) × (c' ≡ with_layer gssapi max ctx c)))
    ⊎ (((n ≢ 3) ⊎ (res.rc ≢ 0)) × (c' ≡ c))

module _ (gssapi : Gssapi) (c : LdapCodec gssapi) where
  abbrev Settles : ℕ → Exchange (LdapCodec gssapi × LdapResult) → Type 0
  Settles n exchange = Ends (IsSettled gssapi c) n exchange

  selected-Settles :
      (size : Bytes) (r : gssapi.ClientCtx × Option Bytes)
      → Settles 2 (Gssapi.selected gssapi false c size r)
  selected-Settles size (ctx, none) = tt
  selected-Settles size (ctx, some size_msg) = λ ans.
      if-Ends (IsSettled gssapi c) 3 (ans.base.rc == 0) _ _
        (λ zero_.
          if-Ends (IsSettled gssapi c) 3 (length (0 ∷ size) == 4) _ _
            (λ four. inl (refl, (==_iff ans.base.rc 0).0 zero_, (_, ctx, refl))) (λ other. tt))
        (λ other. inr (inr (ground arith), refl))

  offered-Settles :
      (r : gssapi.ClientCtx × Option Bytes) → Settles 2 (Gssapi.offered gssapi false c r)
  offered-Settles (ctx, none) = tt
  offered-Settles (ctx, some []) = tt
  offered-Settles (ctx, some (mask ∷ size)) =
      if-Ends (IsSettled gssapi c) 2 (bit_or mask 4 == 0) _ _ (λ none_. tt)
        (λ some_. selected-Settles size _)

  with_offer-Settles :
      (ctx : gssapi.ClientCtx) (token : Option Bytes)
      → Settles 2 (Gssapi.with_offer gssapi false c ctx token)
  with_offer-Settles ctx none = tt
  with_offer-Settles ctx (some token) = offered-Settles (gssapi.unwrap ctx token)

  established-Settles :
      (r : Option (Step gssapi.PendingClientCtx gssapi.ClientCtx))
      → Settles 1 (Gssapi.established gssapi false c r)
  established-Settles none = tt
  established-Settles (some (proceed pending token)) = tt
  established-Settles (some (finished ctx (some token))) = tt
  established-Settles (some (finished ctx none)) = λ ans.
      if-Ends (IsSettled gssapi c) 2 (not (ans.base.rc == 14)) _ _
        (λ done. inr (inl (omega arith), refl)) (λ more. with_offer-Settles ctx ans.sasl_creds)

  with_token-Settles :
      (pending : gssapi.PendingClientCtx) (token : Option Bytes)
      → Settles 1 (Gssapi.with_token gssapi false c pending token)
  with_token-Settles pending none = tt
  with_token-Settles pending (some token) = established-Settles (gssapi.step pending token)

  initiated-Settles :
      (r : Option (gssapi.PendingClientCtx × Bytes)) → Settles 0 (Gssapi.initiated gssapi false c r)
  initiated-Settles none = tt
  initiated-Settles (some (pending, token)) = λ ans.
      if-Ends (IsSettled gssapi c) 1 (not (ans.base.rc == 14)) _ _
        (λ done. inr (inl (omega arith), refl)) (λ more. with_token-Settles pending ans.sasl_creds)

  -- When a GSSAPI bind on a connection without TLS returns a result, whatever the answers of
  -- the server, either three requests were sent, the result is success, and the codec has the
  -- security layer; or fewer or more requests were sent or the result is no success, and the
  -- codec is as it was.
  pub gssapi_bind-IsSettled :
      (endpoint : Option Bytes) (server_fqdn : Bytes) (cred : Gssapi.GssapiCred gssapi)
      (answers : List (Run LdapResultExt)) (reqs : List Tag) (c' : LdapCodec gssapi)
      (res : LdapResult)
      → Binds.run (Gssapi.gssapi_bind gssapi false c endpoint server_fqdn cred) answers
        ≡ (reqs, some (ok (c', res)))
      → IsSettled gssapi c (length reqs) (c', res)
  unfolding Gssapi.gssapi_bind
  gssapi_bind-IsSettled endpoint server_fqdn cred answers reqs c' res h =
      subst (λ n. IsSettled gssapi c n (c', res)) (omega arith)
        (run-Ends (IsSettled gssapi c) 0 _ answers reqs (c', res)
          (initiated-Settles (
            Gssapi.new_ctx gssapi cred (codes "ldap/" ++ server_fqdn)
              (Gssapi.channel_binding false endpoint)))
          h)
