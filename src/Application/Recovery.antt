-- ===== src/Application/Recovery.antt =====
-- What a request for a password reset leaves behind, whatever becomes of it.
use family_tree_identity_mic.Shared.{
  ◌+◌, ◌≡◌, inl, inr, Bool-cases, true, false, ◌||◌, ◌∷◌, arith, Text,
}
use family_tree_identity_mic.Domain.Errors.{
  DomainError, Error, wrap, Result, Result-cases, ok, err, errors_is,
}
use family_tree_identity_mic.Domain.Email.{Email, new_email}
use family_tree_identity_mic.Domain.User.{User}
use family_tree_identity_mic.Ports.{PasswordResetRecord, Done}
use family_tree_identity_mic.Application.Service.{Service, World, Mail, password_reset_token_ttl}
use family_tree_identity_mic.Application.Accounts.{
  forgot_password, forgot_password_of, reset_requested, request_reset,
}

module _ {S : Type 0} (svc : Service S) (address : Text) (w : World S) where
  -- What `ForgotPassword` asks the repository to store.
  abbrev pub reset_record : User → Text → PasswordResetRecord
  reset_record user token_hash = record {
    token_id = svc.new_id 0;
    user_id = user.id;
    token_hash = token_hash;
    expires_at = svc.now + password_reset_token_ttl;
    created_at = svc.now;
  }

  -- The ends of a request: the text is no address; no active account has it; the store fails
  -- otherwise; or there is an account, and the token cannot be drawn, cannot be stored, is stored but
  -- its letter is refused, or is stored and its letter is sent to the account.
  pub data Concludes (x : Result Done × World S) : Type 0 where
    unparsed :
        (e : Error) → new_email svc.text_library address ≡ err e → x ≡ (ok tt, w) → Concludes x
    absent :
        {email : Email} (e : Error) {s : S}
        → new_email svc.text_library address ≡ ok email
        → svc.repository.find_password_reset_user email.normalized w.store ≡ (err e, s)
        → (errors_is e DomainError.user_not_found || errors_is e DomainError.account_unavailable)
          ≡ true
        → x ≡ (ok tt, record w { store = s })
        → Concludes x
    not_searched :
        {email : Email} (e : Error) {s : S}
        → new_email svc.text_library address ≡ ok email
        → svc.repository.find_password_reset_user email.normalized w.store ≡ (err e, s)
        → (errors_is e DomainError.user_not_found || errors_is e DomainError.account_unavailable)
          ≡ false
        → x ≡ (err e, record w { store = s })
        → Concludes x
    not_drawn :
        {email : Email} {user : User} (e : Error) {s : S}
        → new_email svc.text_library address ≡ ok email
        → svc.repository.find_password_reset_user email.normalized w.store ≡ (ok user, s)
        → svc.token_generator.generate ≡ err e
        → x ≡ (err (wrap "generate password reset token" e), record w { store = s })
        → Concludes x
    not_stored :
        {email : Email} {user : User} {raw token_hash : Text} (e : Error) {s s' : S}
        → new_email svc.text_library address ≡ ok email
        → svc.repository.find_password_reset_user email.normalized w.store ≡ (ok user, s)
        → svc.token_generator.generate ≡ ok (raw, token_hash)
        → svc.repository.create_password_reset (reset_record user token_hash) s ≡ (err e, s')
        → x ≡ (err e, record w { store = s' })
        → Concludes x
    not_sent :
        {email : Email} {user : User} {raw token_hash : Text} (e : Error) {s s' : S}
        → new_email svc.text_library address ≡ ok email
        → svc.repository.find_password_reset_user email.normalized w.store ≡ (ok user, s)
        → svc.token_generator.generate ≡ ok (raw, token_hash)
        → svc.repository.create_password_reset (reset_record user token_hash) s ≡ (ok tt, s')
        → svc.deliver (Mail.password_reset user.email raw) ≡ err e
        → x ≡ (err (wrap "send password reset email" e), record w { store = s' })
        → Concludes x
    mailed :
        {email : Email} {user : User} {raw token_hash : Text} {s s' : S}
        → new_email svc.text_library address ≡ ok email
        → svc.repository.find_password_reset_user email.normalized w.store ≡ (ok user, s)
        → svc.token_generator.generate ≡ ok (raw, token_hash)
        → svc.repository.create_password_reset (reset_record user token_hash) s ≡ (ok tt, s')
        → svc.deliver (Mail.password_reset user.email raw) ≡ ok tt
        → x
          ≡ (ok tt, record w { store = s'; outbox = Mail.password_reset user.email raw ∷ w.outbox })
        → Concludes x

  request_reset-Concludes :
      {email : Email} {user : User} {s : S}
      → new_email svc.text_library address ≡ ok email
      → svc.repository.find_password_reset_user email.normalized w.store ≡ (ok user, s)
      → Concludes (request_reset svc user (record w { store = s }))
  unfolding request_reset
  request_reset-Concludes {email} {user} {s} parsed found =
      elim (Result-cases svc.token_generator.generate) [
        | inl (e, h) ↦ not_drawn e parsed found h (ground arith)
        | inr ((raw, token_hash), drawn) ↦
            let s' = (svc.repository.create_password_reset (reset_record user token_hash) s).1 in
            elim (Result-cases
              (svc.repository.create_password_reset (reset_record user token_hash) s).0) [
                | inl (e, h) ↦
                    not_stored e {s' = s'} parsed found drawn (λ i. (h i, s')) (ground arith)
                | inr (x, h) ↦
                    elim (Result-cases (svc.deliver (Mail.password_reset user.email raw))) [
                      | inl (e, h') ↦
                          not_sent e {s' = s'} parsed found drawn (λ i. (h i, s')) h' (ground arith)
                      | inr (y, h') ↦
                          mailed {s' = s'} parsed found drawn (λ i. (h i, s')) h' (ground arith)
                    ]
              ]
      ]

  -- A request for a reset succeeds alike, stores nothing and sends no letter, for a text that is no
  -- address and for an address without an active account. It fails only when the store fails otherwise
  -- than by finding no such account, or when the token of an account that was found cannot be drawn or
  -- stored or its letter is refused. A letter goes only to an account that was found, at the account's
  -- own address, with the raw token whose hash was stored.
  pub forgot_password-Concludes : Concludes (forgot_password svc address w)
  unfolding forgot_password forgot_password_of reset_requested
  forgot_password-Concludes = elim (Result-cases (new_email svc.text_library address)) [
    | inl (e, h) ↦ unparsed e h (ground arith)
    | inr (email, parsed) ↦
        let s = (svc.repository.find_password_reset_user email.normalized w.store).1 in
        elim (Result-cases (svc.repository.find_password_reset_user email.normalized w.store).0) [
          | inl (e, h) ↦
              elim (Bool-cases (
                errors_is e DomainError.user_not_found
                || errors_is e DomainError.account_unavailable)) [
                  | inl hidden ↦ absent e {s = s} parsed (λ i. (h i, s)) hidden (ground arith)
                  | inr other ↦ not_searched e {s = s} parsed (λ i. (h i, s)) other (ground arith)
                ]
          | inr (user, h) ↦ rw (parsed, h) (request_reset-Concludes {s = s} parsed (λ i. (h i, s)))
        ]
  ]
