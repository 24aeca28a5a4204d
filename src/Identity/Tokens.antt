-- ===== src/Identity/Tokens.antt =====
-- What a guest token that the server takes looks like.
use gall_pr.Common.{
  ℕ, ◌≤◌, ◌≡◌, refl, subst, ◌∙◌, inl, inr, String, Bool, true, false, Option, none, some, List, [],
  ◌∷◌, arith, length, All, Bool-cases, Result, ok, err, is_some, codes, non_empty, trim,
  utf16_length, utf16_length-codes, ok-injective,
}
use gall_pr.Identity.{
  Identity, user, guest, is_hex, is_code, is_variant, guest_token_pattern, matches,
  is_valid_guest_token, resolve_identity,
}

-- A character of ASCII.
abbrev pub IsAscii : ℕ → Type 0
IsAscii c = c ≤ 127

abbrev OfAscii : (ℕ → Bool) → Type 0
OfAscii p = (c : ℕ) → p c ≡ true → IsAscii c

matches-length : (ps : List (ℕ → Bool)) (cs : List ℕ) → matches ps cs ≡ true → length cs ≡ length ps
unfolding matches
matches-length [] [] h = refl
matches-length [] (c ∷ cs) h = cc
matches-length (p ∷ ps) [] h = cc
matches-length (p ∷ ps) (c ∷ cs) h = elim (Bool-cases (p c)) [
  | inl hit ↦ let h' : matches ps cs ≡ true = rw hit at h in omega (arith, matches-length ps cs h')
  | inr miss ↦ let h' : false ≡ true = rw miss at h in absurd (cc h')
]

matches-IsAscii :
    (ps : List (ℕ → Bool)) (cs : List ℕ) → All OfAscii ps → matches ps cs ≡ true → All IsAscii cs
unfolding matches
matches-IsAscii [] [] all h = tt
matches-IsAscii [] (c ∷ cs) all h = cc
matches-IsAscii (p ∷ ps) [] all h = cc
matches-IsAscii (p ∷ ps) (c ∷ cs) (ascii, all) h = elim (Bool-cases (p c)) [
  | inl hit ↦
      let h' : matches ps cs ≡ true = rw hit at h in (ascii c hit, matches-IsAscii ps cs all h')
  | inr miss ↦ let h' : false ≡ true = rw miss at h in absurd (cc h')
]

guest_token_pattern-OfAscii : All OfAscii guest_token_pattern
guest_token_pattern-OfAscii =
    let h : OfAscii is_hex = λ c e. ground (arith, e) in
    let d : OfAscii (is_code 0x2d) = λ c e. ground (arith, e) in
    let f : OfAscii (is_code 0x34) = λ c e. ground (arith, e) in
    let v : OfAscii is_variant = λ c e. ground (arith, e) in
    (
      h,
      (
        h,
        (
          h,
          (
            h,
            (
              h,
              (
                h,
                (
                  h,
                  (
                    h,
                    (
                      d,
                      (
                        h,
                        (
                          h,
                          (
                            h,
                            (
                              h,
                              (
                                d,
                                (
                                  f,
                                  (
                                    h,
                                    (
                                      h,
                                      (
                                        h,
                                        (
                                          d,
                                          (
                                            v,
                                            (
                                              h,
                                              (
                                                h,
                                                (
                                                  h,
                                                  (
                                                    d,
                                                    (
                                                      h,
                                                      (
                                                        h,
                                                        (
                                                          h,
                                                          (
                                                            h,
                                                            (
                                                            h,
                                                            (h, (h, (h, (h, (h, (h, (h, tt))))))),
                                                            ),
                                                          ),
                                                        ),
                                                      ),
                                                    ),
                                                  ),
                                                ),
                                              ),
                                            ),
                                          ),
                                        ),
                                      ),
                                    ),
                                  ),
                                ),
                              ),
                            ),
                          ),
                        ),
                      ),
                    ),
                  ),
                ),
              ),
            ),
          ),
        ),
      ),
    )

is_valid_guest_token-utf16_length :
    (token : String) → is_valid_guest_token (some token) ≡ true → utf16_length token ≡ 36
unfolding is_valid_guest_token
is_valid_guest_token-utf16_length token h =
    let cs = codes token in
    utf16_length-codes token (matches-IsAscii guest_token_pattern cs guest_token_pattern-OfAscii h)
    ∙ matches-length guest_token_pattern cs h

-- Where a request comes from: the account that is signed in, whatever the header says, or a
-- browser whose token has the issued shape.
pub data Origin : Option ℕ → Option String → Identity → Type 0 where
  signed_in : (account : ℕ) (header : Option String) → Origin (some account) header (user account)
  browser :
      (token : String)
      → is_valid_guest_token (some token) ≡ true
      → utf16_length token ≡ 36
      → Origin none (some token) (guest token)

-- An identity that is resolved is that of the account that is signed in, or without one the token
-- of the header, which then has the issued shape and exactly 36 code units.
pub resolve_identity-Origin :
    (account : Option ℕ) (header : Option String) (i : Identity)
    → resolve_identity account header ≡ ok i
    → Origin account header i
unfolding resolve_identity
resolve_identity-Origin (some n) header i h =
    subst (Origin (some n) header) (ok-injective h) (signed_in n header)
resolve_identity-Origin none none i h = cc
resolve_identity-Origin none (some token) i h =
    elim (Bool-cases (is_some (non_empty (trim token)))) [
      | inr blank ↦
          let h' : ◌≡◌ {A = Result Identity} (err _) (ok i) = rw (resolve_identity, blank) at h in
          absurd (cc h')
      | inl filled ↦ elim (Bool-cases (is_valid_guest_token (some token))) [
        | inr malformed ↦
            let h' : ◌≡◌ {A = Result Identity} (err _) (ok i) =
              rw (resolve_identity, filled, malformed) at h in
            absurd (cc h')
        | inl valid ↦
            let h' : ok (guest token) ≡ ok i = rw (resolve_identity, filled, valid) at h in
            subst (Origin none (some token)) (ok-injective h')
              (browser token valid (is_valid_guest_token-utf16_length token valid))
      ]
    ]
