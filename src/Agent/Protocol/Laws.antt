-- ===== src/Agent/Protocol/Laws.antt =====
-- The agent reads back the responses that varnishd prints.
use cloud_vinyl.Prelude.{
  pos, ℕ, zero, suc, ◌≤◌, ◌<◌, ◌≡◌, refl, ap, ◌∙◌, ◌≢◌, false, some, [], ◌∷◌, ◌++◌, append-nil,
  append_assoc, arith, leb, ◌==◌, ◌>>=◌, length, All, All-append, Text, is_space, fields_by, fields,
  is_digit, ℤ, i64_max, IsToken, fields_by-token, decimal, IsDigits, decimal-IsDigits,
  decimal-ne-nil, atoi-decimal,
}
use cloud_vinyl.Agent.Protocol.{
  read_buffer, pos, response, read_line, read_full, read_body, read_numbers, read_header,
  read_response, blanks, print_response,
}

abbrev HasNoNewline : Text → Type 0
HasNoNewline = All (λ c. (c == 10) ≡ false)

read_line-append : (s t : Text) → HasNoNewline s → read_line (s ++ (10 ∷ t)) ≡ some (s, t)
unfolding read_line
read_line-append [] t h = refl
read_line-append (c ∷ s) t h = rw (h.0, read_line-append s t h.1) refl

read_full-append : (s t : Text) → read_full (length s) (s ++ t) ≡ some (s, t)
unfolding read_full
read_full-append [] t = refl
read_full-append (c ∷ s) t = rw (read_full-append s t) refl

read_full-more :
    (s : Text) (c : ℕ) (t : Text)
    → read_full (suc (length s)) (s ++ (c ∷ t)) ≡ some (s ++ (c ∷ []), t)
unfolding read_full
read_full-more [] c t = refl
read_full-more (a ∷ s) c t = rw (read_full-more s c t, ◌>>=◌) refl

digits-IsToken : (t : Text) → IsDigits t → IsToken is_space t
unfolding is_digit is_space
digits-IsToken [] h = tt
digits-IsToken (c ∷ t) h = (ground (arith, h), digits-IsToken t h.1)

digits-HasNoNewline : (t : Text) → IsDigits t → HasNoNewline t
unfolding is_digit
digits-HasNoNewline [] h = tt
digits-HasNoNewline (c ∷ t) h = (ground (arith, h), digits-HasNoNewline t h.1)

blanks-HasNoNewline : (n : ℕ) → HasNoNewline (blanks n)
blanks-HasNoNewline zero = tt
blanks-HasNoNewline (suc n) = (refl, blanks-HasNoNewline n)

-- A token that is not empty is the first field.
fields-token :
    (t rest : Text) → t ≢ [] → IsToken is_space t → fields (t ++ (b' ' ∷ rest)) ≡ t ∷ fields rest
unfolding fields is_space
fields-token [] rest ne h = absurd (ne refl)
fields-token (d ∷ t) rest ne h = (fields_by-token is_space d t b' ' rest h refl).0

fields-blanks : (n : ℕ) → fields (blanks n) ≡ []
unfolding fields fields_by is_space
fields-blanks zero = refl
fields-blanks (suc n) = fields-blanks n

-- A token is the only field, whatever blanks follow it.
fields-padded : (t : Text) (n : ℕ) → t ≢ [] → IsToken is_space t → fields (t ++ blanks n) ≡ t ∷ []
unfolding fields is_space
fields-padded [] n ne h = absurd (ne refl)
fields-padded (d ∷ t) zero ne h =
    ap fields (append-nil (d ∷ t)) ∙ (fields_by-token is_space d t b' ' [] h refl).1
fields-padded (d ∷ t) (suc n) ne h =
    fields-token (d ∷ t) (blanks n) ne h ∙ ap (λ fs. (d ∷ t) ∷ fs) (fields-blanks n)

-- The header of a printed response.
header : ℕ → ℕ → Text → Text
header padding code body = decimal code ++ (b' ' ∷ (decimal (length body) ++ blanks padding))

header-HasNoNewline : (padding code : ℕ) (body : Text) → HasNoNewline (header padding code body)
unfolding header
header-HasNoNewline padding code body =
    let d = λ (n : ℕ). digits-HasNoNewline (decimal n) (decimal-IsDigits n) in
    All-append (λ c. (c == 10) ≡ false) (decimal code)
      (b' ' ∷ (decimal (length body) ++ blanks padding)) (d code)
      (
        refl,
        All-append (λ c. (c == 10) ≡ false) (decimal (length body)) (blanks padding)
            (d (length body)) (blanks-HasNoNewline padding),
      )

fields-header :
    (padding code : ℕ) (body : Text)
    → fields (header padding code body) ≡ decimal code ∷ decimal (length body) ∷ []
unfolding header
fields-header padding code body =
    let token = λ (n : ℕ). digits-IsToken (decimal n) (decimal-IsDigits n) in
    fields-token (decimal code) (decimal (length body) ++ blanks padding) (decimal-ne-nil code)
      (token code)
    ∙ ap (λ fs. decimal code ∷ fs)
        (fields-padded (decimal (length body)) padding (decimal-ne-nil (length body))
          (token (length body)))

gt→leb : (n : ℕ) → n < i64_max → leb i64_max n ≡ false
gt→leb n h = ground (arith, h)

read_body-append :
    (code : ℤ) (body rest : Text)
    → length body < i64_max
    → read_body code (pos (length body)) (body ++ (10 ∷ rest)) ≡ response code body rest
unfolding read_body read_buffer
read_body-append code body rest h =
    rw
      (
        gt→leb (length body) h,
        read_full-more body 10 rest,
        read_full-append body (10 ∷ rest),
        read_body,
        read_buffer,
      )
      refl

print_response-split :
    (padding code : ℕ) (body rest : Text)
    → print_response padding code body ++ rest
      ≡ header padding code body ++ (10 ∷ (body ++ (10 ∷ rest)))
unfolding print_response header
print_response-split padding code body rest = simp (append_assoc)

-- A response that varnishd prints is read back: its code, its body whatever bytes that holds, and
-- the bytes that follow; whether the header is padded with blanks or not. The code fits an int and
-- the length is less than the greatest one.
pub read_response-print_response :
    (padding code : ℕ) (body rest : Text)
    → code ≤ i64_max
    → length body < i64_max
    → read_response (print_response padding code body ++ rest) ≡ response (pos code) body rest
unfolding read_response read_header
read_response-print_response padding code body rest hc hb =
    ap read_response (print_response-split padding code body rest)
    ∙ rw
        (
          read_line-append (header padding code body) (body ++ (10 ∷ rest))
              (header-HasNoNewline padding code body),
          fields-header padding code body,
          atoi-decimal code hc,
          atoi-decimal (length body) (omega (arith, hb)),
          read_numbers,
          read_header,
          read_response,
        )
        (read_body-append (pos code) body rest hb)
