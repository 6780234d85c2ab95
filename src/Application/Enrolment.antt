-- ===== src/Application/Enrolment.antt =====
-- What a registration leaves behind, whatever becomes of it.
use family_tree_identity_mic.Shared.{
  ◌+◌, ◌≤◌, ◌≡◌, inl, inr, Bool-cases, false, ◌∷◌, arith, Text, length, ltb, trim_space,
}
use family_tree_identity_mic.Domain.Errors.{
  DomainError, Error, sentinel, wrap, Result, Result-cases, ok, err,
}
use family_tree_identity_mic.Domain.Email.{Email, new_email}
use family_tree_identity_mic.Domain.Email.Laws.{new_email-value}
use family_tree_identity_mic.Domain.User.{User, new_user}
use family_tree_identity_mic.Ports.{RegistrationRecord}
use family_tree_identity_mic.Application.Service.{
  Service, World, Mail, hash_password, hashed, hash_failure, max_display_name_length,
  verification_token_ttl,
}
use family_tree_identity_mic.Application.Accounts.{RegisterCommand, register}

module _ {S : Type 0} (svc : Service S) (command : RegisterCommand) where
  -- What `Register` asks the repository to store.
  abbrev pub request : Email → Text → Text → RegistrationRecord
  request email password_hash token_hash = record {
    user = new_user (svc.new_id 0) email (trim_space command.display_name) svc.now;
    password_hash = password_hash;
    verification_token_id = svc.new_id 1;
    verification_token_hash = token_hash;
    verification_expires_at = svc.now + verification_token_ttl;
  }

  -- A request whose parts were all accepted.
  pub record IsAccepted (email : Email) (password_hash raw token_hash : Text) : Type 0 where
    pub parsed : new_email svc.text_library command.email ≡ ok email
    pub readable : new_email svc.text_library email.value ≡ ok email
    pub short : length (trim_space command.display_name) ≤ max_display_name_length
    pub secured : svc.password_hasher.hash command.password ≡ ok password_hash
    pub drawn : svc.token_generator.generate ≡ ok (raw, token_hash)

  -- The ends of a registration: it is refused and nothing is done; the repository fails; the account
  -- is stored and its letter is refused; or the account is stored and the letter is sent.
  pub data Ends (w : World S) (x : Result User × World S) : Type 0 where
    refused : (e : Error) → x ≡ (err e, w) → Ends w x
    unstored :
        {email : Email} {password_hash raw token_hash : Text} (e : Error) {s : S}
        → IsAccepted email password_hash raw token_hash
        → svc.repository.create_registration (request email password_hash token_hash) w.store
          ≡ (err e, s)
        → x ≡ (err e, record w { store = s })
        → Ends w x
    unsent :
        {email : Email} {password_hash raw token_hash : Text} (e : Error) {s : S}
        → IsAccepted email password_hash raw token_hash
        → svc.repository.create_registration (request email password_hash token_hash) w.store
          ≡ (ok tt, s)
        → svc.deliver (Mail.verification email raw) ≡ err e
        → x ≡ (err (wrap "send verification email" e), record w { store = s })
        → Ends w x
    enrolled :
        {email : Email} {password_hash raw token_hash : Text} {s : S}
        → IsAccepted email password_hash raw token_hash
        → svc.repository.create_registration (request email password_hash token_hash) w.store
          ≡ (ok tt, s)
        → x ≡ (
          ok (request email password_hash token_hash).user,
          record w { store = s; outbox = Mail.verification email raw ∷ w.outbox },
        )
        → Ends w x

  module _ (w : World S) where
    abbrev registration : Result User × World S
    registration = register svc command w

    -- The store and the letter, for a request that was accepted.
    register-stored :
        {email : Email} {password_hash raw token_hash : Text}
        → IsAccepted email password_hash raw token_hash
        → Ends w registration
    unfolding register hash_password hashed
    register-stored {email} {password_hash} {raw} {token_hash} accepted =
        let s =
          (svc.repository.create_registration (request email password_hash token_hash) w.store).1 in
        let long : ltb max_display_name_length (length (trim_space command.display_name)) ≡ false =
          ground (arith, accepted.short) in
        elim (Result-cases
          (svc.repository.create_registration (request email password_hash token_hash) w.store).0) [
            | inl (e, h) ↦
                unstored e {s = s} accepted (λ i. (h i, s))
                  (ground (arith, accepted.parsed, long, accepted.secured, accepted.drawn, h))
            | inr (x, h) ↦ elim (Result-cases (svc.deliver (Mail.verification email raw))) [
              | inl (e, h') ↦
                  unsent e {s = s} accepted (λ i. (h i, s)) h'
                    (ground (arith, accepted.parsed, long, accepted.secured, accepted.drawn, h, h'))
              | inr (y, h') ↦
                  enrolled {s = s} accepted (λ i. (h i, s))
                    (ground (arith, accepted.parsed, long, accepted.secured, accepted.drawn, h, h'))
            ]
          ]

    -- A registration has one of four ends. No letter is sent and the store is not called unless the
    -- address, the name, the password and the token were accepted; a letter goes only to an account
    -- that was stored, and carries the raw token whose hash was stored.
    pub register-Ends : Ends w registration
    unfolding register hash_password hashed
    register-Ends = elim (Result-cases (new_email svc.text_library command.email)) [
      | inl (e, h) ↦ refused e (ground arith)
      | inr (email, parsed) ↦
          elim (Bool-cases
            (ltb max_display_name_length (length (trim_space command.display_name)))) [
              | inl h ↦ refused (sentinel DomainError.invalid_display_name) (ground arith)
              | inr short ↦ elim (Result-cases (svc.password_hasher.hash command.password)) [
                | inl (e, h) ↦ refused (hash_failure e) (ground arith)
                | inr (hash, secured) ↦ elim (Result-cases svc.token_generator.generate) [
                  | inl (e, h) ↦ refused (wrap "generate verification token" e) (ground arith)
                  | inr ((raw, token_hash), drawn) ↦ register-stored (record {
                    parsed = parsed;
                    readable = new_email-value svc.text_library command.email parsed;
                    short = ground arith;
                    secured = secured;
                    drawn = drawn;
                  })
                ]
              ]
            ]
    ]
