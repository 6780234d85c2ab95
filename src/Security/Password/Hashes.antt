-- ===== src/Security/Password/Hashes.antt =====
-- A password hash is read back, and verifies exactly the passwords that Argon2 maps to its key.
use family_tree_identity_mic.Shared.{
  ◌>>=◌, ℕ, zero, suc, ◌+◌, ◌/◌, ◌%◌, ◌^◌, ◌≤◌, ◌<◌, ◌≡◌, refl, ◌∙◌, ap, inl, inr, Bool-cases, true,
  some, List, [], ◌∷◌, ◌++◌, map, arith, Text, codes, length, ltb, same,
}
use family_tree_identity_mic.Domain.Errors.{ok}
use family_tree_identity_mic.Domain.Email.{split}
use family_tree_identity_mic.Domain.Email.Laws.{Lacks}
use family_tree_identity_mic.Security.Base64.{Bytes, standard, character, sextets, encode}
use family_tree_identity_mic.Security.Base64.RoundTrip.{
  AreBytes, standard-IsAlphabet, decode-encode,
}
use family_tree_identity_mic.Security.Scan.{
  digits, print_number, is_digit, scan_signed, scan_literal,
}
use family_tree_identity_mic.Security.Scan.RoundTrip.{
  scan_unsigned-print_number, scan_signed-print_number, scan_literal-append,
}
use family_tree_identity_mic.Security.Password.{
  Params, Argon2, print_costs, scan_costs, derive, encode_hash, is_version, are_costs, parsed_of,
  parse_costs, parse_parts, parse_hash,
}

-- A text is split behind a part without the separator.
split-append :
    (sep : ℕ) (part s : Text) → Lacks sep part → split sep (part ++ sep ∷ s) ≡ part ∷ split sep s
unfolding split
split-append sep [] s h = ground arith
split-append sep (c ∷ part) s h = ground (arith, split-append sep part s h.1)

split-Lacks : (sep : ℕ) (s : Text) → Lacks sep s → split sep s ≡ s ∷ []
unfolding split
split-Lacks sep [] h = refl
split-Lacks sep (c ∷ s) h = ground (arith, split-Lacks sep s h.1)

Lacks-digits : (fuel n : ℕ) (out : Text) → Lacks b'$' out → Lacks b'$' (digits fuel n out)
unfolding digits
Lacks-digits zero n out h = h
Lacks-digits (suc fuel) n out h = elim (Bool-cases (ltb n 10)) [
  | inl small ↦ rw small (ground arith, h)
  | inr large ↦ rw large (Lacks-digits fuel (n / 10) ((b'0' + n % 10) ∷ out) (ground arith, h))
]

Lacks-print_number : (n : ℕ) (out : Text) → Lacks b'$' out → Lacks b'$' (print_number n out)
unfolding print_number
Lacks-print_number n out h = Lacks-digits (suc n) n out h

Lacks-map : (vs : List ℕ) → Lacks b'$' (map (character standard) vs)
unfolding character
Lacks-map [] = tt
Lacks-map (v ∷ vs) = (ground arith, Lacks-map vs)

Lacks-encode : (bytes : Bytes) → Lacks b'$' (encode standard bytes)
unfolding encode
Lacks-encode bytes = Lacks-map (sextets bytes)

Lacks-print_costs : (params : Params) → Lacks b'$' (print_costs params)
unfolding print_costs
Lacks-print_costs params = (
  ground arith,
  (
    ground arith,
    Lacks-print_number params.memory _ (
      ground arith,
      (
        ground arith,
        (
          ground arith,
          Lacks-print_number params.iterations _ (
            ground arith,
            (ground arith, (ground arith, Lacks-print_number params.parallelism [] tt)),
          ),
        ),
      ),
    ),
  ),
)

-- The five parts behind the first separator.
split_parts :
    (a b c d e : Text)
    → Lacks b'$' a
    → Lacks b'$' b
    → Lacks b'$' c
    → Lacks b'$' d
    → Lacks b'$' e
    → split b'$' (b'$' ∷ (a ++ (b'$' ∷ (b ++ (b'$' ∷ (c ++ (b'$' ∷ (d ++ (b'$' ∷ e)))))))))
      ≡ [] ∷ a ∷ b ∷ c ∷ d ∷ e ∷ []
split_parts a b c d e ha hb hc hd he =
    let after_c = d ++ (b'$' ∷ e) in
    let after_b = c ++ (b'$' ∷ after_c) in
    let after_a = b ++ (b'$' ∷ after_b) in
    split-append b'$' [] (a ++ (b'$' ∷ after_a)) tt
    ∙ ap (λ parts. [] ∷ parts)
        (split-append b'$' a after_a ha
          ∙ ap (λ parts. a ∷ parts)
              (split-append b'$' b after_b hb
                ∙ ap (λ parts. b ∷ parts)
                    (split-append b'$' c after_c hc
                      ∙ ap (λ parts. c ∷ parts)
                          (split-append b'$' d e hd
                            ∙ ap (λ parts. d ∷ parts) (split-Lacks b'$' e he)))))

-- Costs within the limits of `parseHash`.
pub record AreCosts (params : Params) : Type 0 where
  pub memory : (0 < params.memory) × (params.memory ≤ 1048576)
  pub iterations : (0 < params.iterations) × (params.iterations ≤ 10)
  pub parallelism : (0 < params.parallelism) × (params.parallelism ≤ 16)

scan_costs-print_costs :
    (params : Params)
    → AreCosts params
    → scan_costs (print_costs params) ≡ some (params.memory, params.iterations, params.parallelism)
unfolding scan_costs print_costs is_digit
scan_costs-print_costs params h =
    let last = print_number params.parallelism [] in
    let middle = print_number params.iterations (codes ",p=" ++ last) in
    let first = print_number params.memory (codes ",t=" ++ middle) in
    rw
      (
        scan_literal-append (codes "m=") first,
        scan_unsigned-print_number 32 params.memory (codes ",t=" ++ middle) (ground arith) refl,
        scan_literal-append (codes ",t=") middle,
        scan_unsigned-print_number 32 params.iterations (codes ",p=" ++ last) (ground arith) refl,
        scan_literal-append (codes ",p=") last,
        scan_unsigned-print_number 8 params.parallelism [] (ground arith) tt,
      )
      refl

-- What is relied on of Argon2: its version is a small number, and it derives as many bytes as it is
-- asked for.
pub record IsArgon2 (argon : Argon2) : Type 0 where
  pub version : argon.version < 2 ^ 63
  pub derived :
      (candidate salt : Bytes) (iterations memory parallelism key_length : ℕ)
      → AreBytes (argon.id_key candidate salt iterations memory parallelism key_length)
  pub derived_length :
      (candidate salt : Bytes) (iterations memory parallelism key_length : ℕ)
      → length (argon.id_key candidate salt iterations memory parallelism key_length) ≡ key_length

-- Parameters and a salt that `parseHash` admits.
pub record AreParams (params : Params) (salt : Bytes) : Type 0 where
  pub costs : AreCosts params
  pub bytes : AreBytes salt
  pub salt_length : length salt ≡ params.salt_length
  pub salt_bounds : (0 < params.salt_length) × (params.salt_length ≤ 64)
  pub key_bounds : (0 < params.key_length) × (params.key_length ≤ 64)

module _ (argon : Argon2) (good : IsArgon2 argon) where
  version-read :
      is_version argon
        (scan_literal (codes "v=") (codes "v=" ++ print_number argon.version []) >>= scan_signed)
      ≡ true
  unfolding is_version
  version-read =
      rw
        (
          scan_literal-append (codes "v=") (print_number argon.version []),
          scan_signed-print_number argon.version [] good.version tt,
        )
        (ground arith)

  parsed_of-read :
      (candidate salt : Bytes) (params : Params)
      → AreParams params salt
      → parsed_of argon
          (params.memory, params.iterations, params.parallelism)
          (some salt)
          (some (derive argon candidate salt params))
        ≡ ok (record { params = params; salt = salt; key = derive argon candidate salt params })
  unfolding parsed_of
  parsed_of-read candidate salt params h =
      let key_length =
        good.derived_length candidate salt params.iterations params.memory params.parallelism
          params.key_length in
      rw (key_length, h.salt_length) (ground (arith, h.salt_bounds, h.key_bounds))

  -- With an Argon2 that derives as many bytes as it is asked for, a hash that was encoded with
  -- parameters and a salt within the limits of the parser is parsed as those parameters, that salt
  -- and the derived key.
  pub parse_hash-encode_hash :
      (candidate salt : Bytes) (params : Params)
      → AreParams params salt
      → parse_hash argon (encode_hash argon candidate salt params)
        ≡ ok (record { params = params; salt = salt; key = derive argon candidate salt params })
  unfolding parse_hash encode_hash parse_parts parse_costs are_costs same
  parse_hash-encode_hash candidate salt params h =
      let key = derive argon candidate salt params in
      let key_bytes =
        good.derived candidate salt params.iterations params.memory params.parallelism
          params.key_length in
      rw
        (
          split_parts (codes "argon2id") (codes "v=" ++ print_number argon.version [])
              (print_costs params) (encode standard salt) (encode standard key) (ground arith)
              (ground arith, (ground arith, Lacks-print_number argon.version [] tt))
              (Lacks-print_costs params) (Lacks-encode salt) (Lacks-encode key),
          version-read,
          scan_costs-print_costs params h.costs,
          decode-encode standard standard-IsAlphabet salt h.bytes,
          decode-encode standard standard-IsAlphabet key key_bytes,
          parsed_of-read candidate salt params h,
        )
        (ground (arith, h.costs.memory, h.costs.iterations, h.costs.parallelism))
