-- ===== src/Identity/Tokens/Issued.antt =====
-- The codes and tokens of internal/identity/token.go pass the tests that service.go makes of them.
use openremotecode_api.Prelude.{
  ℕ, zero, suc, ◌+◌, ◌/◌, ◌%◌, ◌≡◌, ◌<◌, ◌≤◌, drop, drop-drop, refl, true, [], ◌∷◌, ◌++◌, arith,
  All, All-take, length, length-take, length-append, take, ltb, Bool-cases, inl, inr, ltb→lt,
}
use openremotecode_api.Bytes.{Bytes, IsByte, has_prefix-append, drop-append}
use openremotecode_api.Database.Transaction.{ok}
use openremotecode_api.Identity.Tokens.{
  issue_token, issue_random_value, valid_token, draw_code, decimal, four_bytes, limit,
  verification_code_space, issue_verification_code, read_full,
}
use openremotecode_api.Identity.Tokens
use openremotecode_api.Base64.{encode}
use openremotecode_api.Base64.RoundTrip.{decode_strict-encode, length-encode}
use openremotecode_api.Identity.Validation.{all_digits, valid_verification_code}

all_digits-decimal :
    (places value : ℕ) (printed : Bytes)
    → all_digits printed ≡ true
    → (all_digits (decimal places value printed) ≡ true)
      × (length (decimal places value printed) ≡ places + length printed)
unfolding decimal all_digits
all_digits-decimal zero value printed h = (h, omega arith)
all_digits-decimal (suc places) value printed h =
    let digit : all_digits ((b'0' + value % 10) ∷ printed) ≡ true = ground arith in
    let (a, b) = all_digits-decimal places (value / 10) ((b'0' + value % 10) ∷ printed) digit in
    (a, omega (arith, b))

six_digits : (value : ℕ) → valid_verification_code (decimal 6 value []) ≡ true
unfolding valid_verification_code all_digits
six_digits value = let (a, b) = all_digits-decimal 6 value [] (ground arith) in rw b a

-- The code of four random bytes, the number of which is below the limit, after a number of rounds, in
-- each of which the four bytes were not below it; and what is then left.
abbrev pub IsDrawn : ℕ → Bytes → Bytes → Bytes → Type 0
IsDrawn zero random code rest =
    (4 ≤ length random)
    × (four_bytes (take 4 random) < limit)
    × (code ≡ decimal 6 (four_bytes (take 4 random) % verification_code_space) [])
    × (rest ≡ drop 4 random)
IsDrawn (suc rounds) random code rest =
    (4 ≤ length random)
    × (limit ≤ four_bytes (take 4 random))
    × IsDrawn rounds (drop 4 random) code rest

IsDrawn-valid :
    (rounds : ℕ) (random code rest : Bytes)
    → IsDrawn rounds random code rest
    → valid_verification_code code ≡ true
IsDrawn-valid zero random code rest h =
    rw h.2 (six_digits (four_bytes (take 4 random) % verification_code_space))
IsDrawn-valid (suc rounds) random code rest h = IsDrawn-valid rounds (drop 4 random) code rest h.2

draw_code_lem :
    (rounds : ℕ) (random code rest : Bytes)
    → draw_code rounds random ≡ ok (code, rest)
    → (n : ℕ) × (n < rounds) × IsDrawn n random code rest
unfolding draw_code read_full
draw_code_lem zero random code rest h = absurd (ground arith)
draw_code_lem (suc rounds) random code rest h = elim (Bool-cases (ltb (length random) 4)) [
  | inl short ↦ absurd (ground (arith, rw (draw_code, read_full, short) at h))
  | inr long ↦
      let h' = rw (draw_code, read_full, long) at h in
      elim (Bool-cases (ltb (four_bytes (take 4 random)) limit)) [
        | inl small ↦
            let h'' = rw small at h' in
            (
              0,
              omega arith,
              (ground (arith, long), ltb→lt _ _ small, ground (arith, h''), ground (arith, h'')),
            )
        | inr large ↦
            let (n, few, drawn) = draw_code_lem rounds (drop 4 random) code rest (rw large at h') in
            (suc n, omega (arith, few), (ground (arith, long), ground (arith, large), drawn))
      ]
]

-- A verification code that is issued has six digits, so that `VerifyEmail` looks it up. It is drawn by
-- rejection sampling from the random bytes in their order: in fewer than 64 rounds four bytes each
-- were refused because their number is at least the limit, the largest multiple of the code space; the
-- next four have a number below it, and the code is its remainder by the code space in decimal. What
-- is left of the random bytes is what follows these four.
pub issued_code_is_valid :
    (random code rest : Bytes)
    → issue_verification_code random ≡ ok (code, rest)
    → (valid_verification_code code ≡ true)
      × ((refused : ℕ) × (refused < 64) × IsDrawn refused random code rest)
unfolding issue_verification_code
issued_code_is_valid random code rest h =
    let (n, few, drawn) = draw_code_lem 64 random code rest h in
    (IsDrawn-valid n random code rest drawn, (n, few, drawn))

-- What an issue leaves of the random bytes is their end.
abbrev pub IsEnd : Bytes → Bytes → Type 0
IsEnd rest random = (k : ℕ) × (rest ≡ drop k random)

pub IsEnd-trans : (a b c : Bytes) → IsEnd a b → IsEnd b c → IsEnd a c
IsEnd-trans a b c (k, e) (n, q) = (n + k, rw (e, q) (drop-drop k n c))

pub issue_random_value-IsEnd :
    (random prefix : Bytes) (size : ℕ) (value rest : Bytes)
    → issue_random_value random prefix size ≡ ok (value, rest)
    → IsEnd rest random
unfolding issue_random_value read_full Tokens.◌>>=◌
issue_random_value-IsEnd random prefix size value rest e =
    elim (Bool-cases (ltb (length random) size)) [
      | inl short ↦ absurd (ground (arith, rw short at e))
      | inr long ↦ (size, ground (arith, rw long at e))
    ]

IsDrawn-IsEnd : (n : ℕ) (random code rest : Bytes) → IsDrawn n random code rest → IsEnd rest random
IsDrawn-IsEnd zero random code rest h = (4, h.3)
IsDrawn-IsEnd (suc n) random code rest h =
    IsEnd-trans rest (drop 4 random) random (IsDrawn-IsEnd n (drop 4 random) code rest h.2)
      (4, refl)

pub issue_verification_code-IsEnd :
    (random code rest : Bytes)
    → issue_verification_code random ≡ ok (code, rest)
    → IsEnd rest random
issue_verification_code-IsEnd random code rest h =
    let (_, (n, _, drawn)) = issued_code_is_valid random code rest h in
    IsDrawn-IsEnd n random code rest drawn

-- A token that is issued from random bytes is one that `validToken` accepts for the same prefix.
pub issued_token_is_valid :
    (random prefix token rest : Bytes)
    → All IsByte random
    → issue_token random prefix ≡ ok (token, rest)
    → valid_token token prefix ≡ true
unfolding issue_token issue_random_value read_full Tokens.◌>>=◌ valid_token
issued_token_is_valid random prefix token rest h e = elim (Bool-cases (ltb (length random) 32)) [
  | inl short ↦ absurd (ground (arith, rw short at e))
  | inr long ↦
      let body = take 32 random in
      let made : prefix ++ encode body ≡ token = ground (arith, rw long at e) in
      let size : length body ≡ 32 = length-take 32 random (ground arith) in
      let digits : length (encode body) ≡ 43 = omega (arith, length-encode body, size) in
      let whole : length (prefix ++ encode body) ≡ length prefix + 43 =
        omega (arith, length-append prefix (encode body), digits) in
      rw
        (
          ← made,
          has_prefix-append prefix (encode body),
          whole,
          drop-append prefix (encode body),
          decode_strict-encode body (All-take IsByte 32 random h),
          size,
        )
        (ground arith)
]
