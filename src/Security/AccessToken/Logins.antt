-- ===== src/Security/AccessToken/Logins.antt =====
-- The access token of a login.
use family_tree_identity_mic.Shared.{◌+◌, ◌%◌, ◌≤◌, ◌<◌, ◌≡◌, ◌≢◌, refl, arith, Text}
use family_tree_identity_mic.Domain.Errors.{ok}
use family_tree_identity_mic.Domain.User.{Uuid, Time}
use family_tree_identity_mic.Ports.{SessionRecord}
use family_tree_identity_mic.Application.Service.{Service, World}
use family_tree_identity_mic.Application.Metadata.{
  SessionMetadata, LoginCommand, SessionResult, normalize_session_metadata,
}
use family_tree_identity_mic.Application.Login.{login}
use family_tree_identity_mic.Application.Admission.{session_for, login-Opens}
use family_tree_identity_mic.Security.AccessToken.{
  Jwt, Signer, Claims, sign, signed_of, claims_of, token_type,
}

-- A second, in the unit of the times.
abbrev pub second : Time
second = 1_000_000

-- What is relied on of `NewNumericDate`: it truncates a time to a whole second.
pub record IsJwt (jwt : Jwt) : Type 0 where
  pub whole : (t : Time) → jwt.numeric_date t % second ≡ 0
  pub before : (t : Time) → jwt.numeric_date t ≤ t
  pub close : (t : Time) → t < jwt.numeric_date t + second

module _ (jwt : Jwt) (signer : Signer) where
  -- The token is the signature of these claims.
  abbrev pub IsTokenOf : Text → Claims → Type 0
  IsTokenOf value claims =
      jwt.signed_string signer.private_key (record { key_id = signer.key_id; type = token_type })
        claims
      ≡ ok value

  sign_lem :
      (user_id session_id : Uuid) (now expires_at : Time) (value : Text)
      → sign jwt signer user_id session_id now ≡ ok (value, expires_at)
      → (user_id ≢ 0)
        × (session_id ≢ 0)
        × IsTokenOf value (claims_of jwt signer user_id session_id now)
        × (expires_at ≡ now + signer.ttl)
  unfolding sign signed_of
  sign_lem user_id session_id now expires_at value e =
      (ground arith, ground arith, ground arith, ground arith)

  -- A login that succeeds on accepted metadata, on a service that signs with this signer, answers as
  -- its access token the signature of claims whose subject is the account that was found and whose
  -- session is the one that was stored. They hold from the whole second in which the login is made
  -- until the whole second of the expiry that is answered, which is never past that expiry and less
  -- than a second before it. `NewNumericDate` is relied on to truncate to whole seconds.
  pub login-IsTokenOf :
      {S : Type 0} (base : Service S) (command : LoginCommand) (w : World S)
      (metadata : SessionMetadata) (result : SessionResult)
      → IsJwt jwt
      → normalize_session_metadata base.parse_addr command.metadata ≡ ok metadata
      → (login (record base { sign = sign jwt signer }) command w).0 ≡ ok result
      → (claims : Claims) × (session : SessionRecord) × (s : S) × IsTokenOf result.access_token
          claims
        × (claims.subject ≡ jwt.print result.user.id)
        × (claims.session_id ≡ jwt.print session.id)
        × (session.user_id ≡ result.user.id)
        × ((login (record base { sign = sign jwt signer }) command w).1.store
            ≡ (base.repository.create_session session s).1)
        × (claims.issued_at ≡ jwt.numeric_date base.now)
        × (claims.not_before ≡ claims.issued_at)
        × (claims.issued_at ≤ base.now)
        × (claims.expires_at % second ≡ 0)
        × (claims.expires_at ≤ result.access_token_expires_at)
        × (result.access_token_expires_at < claims.expires_at + second)
        × (result.access_token_expires_at ≡ base.now + signer.ttl)
  unfolding claims_of
  login-IsTokenOf base command w metadata result truncates accepted success =
      let svc = record base { sign = sign jwt signer } in
      let (email, identity, s, parsed, found, opens) =
        login-Opens svc command w metadata result accepted success in
      let (real_user, real_session, token, expiry) =
        sign_lem identity.user.id (base.new_id 0) base.now result.access_token_expires_at
          result.access_token opens.signed in
      (
        claims_of jwt signer identity.user.id (base.new_id 0) base.now,
        session_for svc metadata identity opens.token_hash,
        s,
        token,
        ground (arith, opens.user),
        refl,
        ground (arith, opens.user),
        ground (arith, opens.stored),
        refl,
        refl,
        truncates.before base.now,
        truncates.whole (base.now + signer.ttl),
        rw expiry (truncates.before (base.now + signer.ttl)),
        rw expiry (truncates.close (base.now + signer.ttl)),
        expiry,
      )
