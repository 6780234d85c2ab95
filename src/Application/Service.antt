-- ===== src/Application/Service.antt =====
-- The struct `Service` of service.go with the interfaces of ports.go that it is built from, and how
-- a use case runs: it changes the repository's state, sends mail and checks passwords, and ends with
-- a result or an error.
use family_tree_identity_mic.Shared.{
  ℕ, String, Bool, Option, List, ◌∷◌, Text, ltb, ◌||◌, is_empty, byte_length, if◌then◌else◌,
}
use family_tree_identity_mic.Domain.Errors.{
  DomainError, Error, sentinel, wrap, is_policy, Result, ok, err,
}
use family_tree_identity_mic.Domain.Email.{TextLibrary, Email}
use family_tree_identity_mic.Domain.User.{Uuid, Time}
use family_tree_identity_mic.Ports.{Repository, Done}

-- `PasswordHasher`. What the random source gives during a request is part of the functions.
pub record PasswordHasher : Type 0 where
  pub hash : Text → Result Text
  pub verify : Text → Text → Result Bool
  pub dummy_hash : Text

-- `TokenGenerator`: the pair of the raw token and its hash that a request draws, and the hash of a
-- raw token.
pub record TokenGenerator : Type 0 where
  pub generate : Result (Text × Text)
  pub hash : Text → Text

-- A letter of `IdentityMailer`.
pub data Mail : Type 0 where
  verification password_reset : Email → Text → Mail

-- `netip.Addr`, by the answers of `Zone` and `String`.
pub record Address : Type 0 where
  pub zone : Text
  pub text : Text

pub record Service (S : Type 0) : Type 0 where
  pub repository : Repository S
  pub password_hasher : PasswordHasher
  pub token_generator : TokenGenerator
  -- `AccessTokenSigner`: the user, the session and the time of issue.
  pub sign : Uuid → Uuid → Time → Result (Text × Time)
  -- `IdentityMailer`: whether a letter is accepted.
  pub deliver : Mail → Result Done
  pub refresh_ttl : Time
  -- The successive values of `newID` in one request, and the time that `now` tells in it.
  pub new_id : ℕ → Uuid
  pub now : Time
  pub text_library : TextLibrary
  -- `netip.ParseAddr`.
  pub parse_addr : Text → Option Address

-- The repository's state, the letters that were handed over, newest first, and the calls of
-- `passwordHasher.Verify`, each with its candidate and its hash, newest first.
pub record World (S : Type 0) : Type 0 where
  pub store : S
  pub outbox : List Mail
  pub checks : List (Text × Text)

abbrev pub Action : Type 0 → Type 0 → Type 0
Action S A = World S → Result A × World S

module _ {S A : Type 0} where
  abbrev pub pure : A → Action S A
  pure a w = (ok a, w)

  abbrev pub raise : Error → Action S A
  raise e w = (err e, w)

  abbrev pub raise_domain : DomainError → Action S A
  raise_domain e = raise (sentinel e)

  -- A result of code without effect.
  abbrev pub lift : Result A → Action S A
  lift r w = (r, w)

  abbrev pub wrapping : String → Action S A → Action S A
  wrapping s m w = let (r, w') = m w in elim r [ ok a ↦ (ok a, w') | err e ↦ (err (wrap s e), w') ]

  abbrev pub try : Action S A → Action S (Result A)
  try m w = let (r, w') = m w in (ok r, w')

  -- A method of the repository.
  abbrev pub stored : (S → Result A × S) → Action S A
  stored method w = let (r, s) = method w.store in (r, record w { store = s })

infixl 5 ◌>>=◌ ◌>>◌
abbrev pub ◌>>=◌ : {S A B : Type 0} → Action S A → (A → Action S B) → Action S B
◌>>=◌ m f w = let (r, w') = m w in elim r [ ok a ↦ f a w' | err e ↦ (err e, w') ]

abbrev pub ◌>>◌ : {S A B : Type 0} → Action S A → Action S B → Action S B
m >> k = m >>= λ _. k

abbrev pub raise_if : {S : Type 0} → Bool → DomainError → Action S Done
raise_if test e w = (if test then err (sentinel e) else ok tt, w)

-- `passwordHasher.Verify`.
abbrev pub verify_password : {S : Type 0} → Service S → Text → Text → Action S Bool
verify_password svc candidate hash w =
    (svc.password_hasher.verify candidate hash, record w { checks = (candidate, hash) ∷ w.checks })

-- `mailer.SendVerification` and `mailer.SendPasswordReset`; what is refused is not sent.
abbrev pub send : {S : Type 0} → Service S → Mail → Action S Done
send svc mail w = elim (svc.deliver mail) [
  | ok x ↦ (ok tt, record w { outbox = mail ∷ w.outbox })
  | err e ↦ (err e, w)
]

-- The constants of lines 17 to 24; durations in microseconds.
abbrev pub verification_token_ttl : Time
verification_token_ttl = 86_400_000_000

abbrev pub password_reset_token_ttl : Time
password_reset_token_ttl = 3_600_000_000

abbrev pub max_display_name_length : ℕ
max_display_name_length = 100

abbrev pub max_raw_token_length : ℕ
max_raw_token_length = 256

abbrev pub max_password_bytes : ℕ
max_password_bytes = 1024

abbrev pub max_user_agent_bytes : ℕ
max_user_agent_bytes = 512

-- `rawToken == "" || len(rawToken) > maxRawTokenLength`.
unfoldable pub is_bad_token : Text → Bool
is_bad_token raw = is_empty raw || ltb max_raw_token_length (byte_length raw)

-- Lines 441 and 442: a failure of the policy becomes `ErrWeakPassword`.
unfoldable pub hash_failure : Error → Error
hash_failure e =
    if is_policy e
    then wrap "password does not satisfy policy" (sentinel DomainError.weak_password)
    else wrap "hash password" e

unfoldable pub hashed : Result Text → Result Text
hashed (ok hash) = ok hash
hashed (err e) = err (hash_failure e)

-- `hashPassword`, which `Register` repeats in lines 114 to 120.
unfoldable pub hash_password : {S : Type 0} → Service S → Text → Action S Text
hash_password svc candidate = lift (hashed (svc.password_hasher.hash candidate))
