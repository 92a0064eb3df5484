-- ===== src/Ctl/RoundTrip.antt =====
-- supervisorctl.h and rpc_connection.cpp: what the client sends is what the daemon parses, and back.
use supervisorcpp.Prelude.{
  ℕ, ◌-◌, ◌^◌, ◌≤◌, ◌<◌, true, false, List, [], ◌∷◌, ◌++◌, some, length, take, take_all,
  append_assoc, append-nil, lower, length-append, Bytes, codes, begins, bytes_eq, apart,
  apart-append, leading_digits, stoull, decimal, all_digits, decimal-all_digits, stoull-decimal,
  ◌≡◌, refl, sym, ap, subst, ◌∙◌, arith, ltb, take_exact, Bool-cases, inl, inr,
}
use supervisorcpp.Rpc.Connection.{
  blank_line, max_request_size, read_all, request_body, processes, response_headers,
  generate_http_response,
}
use supervisorcpp.Rpc.Connection.Numbers.{apart-digits, content_length-announced}
use supervisorcpp.Rpc.Connection.Framing.{
  IsHeaders, message, joined, read_all-message, request_body-message, split_prefix,
}
use supervisorcpp.Ctl.Http.{
  request_headers, build_http_request, header_line, read_headers, read_body, read_response,
}

-- A text of two fixed parts and a number between them has no occurrence of `x ∷ p`.
apart-number :
    (x : ℕ) (p a b : Bytes) (n : ℕ)
    → apart (x ∷ p) a ≡ true
    → apart (x ∷ p) b ≡ true
    → apart (x ∷ p) (decimal n) ≡ true
    → apart (x ∷ p) (a ++ (decimal n ++ b)) ≡ true
apart-number x p a b n h k d =
    apart-append (x ∷ p) a (decimal n ++ b) h (apart-append (x ∷ p) (decimal n) b d k)

abbrev before_length : Bytes
before_length = codes "POST /RPC2 HTTP/1.1\r\nContent-Type: text/xml\r\nContent-Length: "

abbrev after_length : Bytes
after_length = codes "\r\nConnection: close"

request_headers-IsHeaders : (n : ℕ) → n < 2 ^ 64 → IsHeaders (request_headers n) n
unfolding request_headers apart lower
request_headers-IsHeaders n small = record {
  one_blank =
      apart-number 13 (10 ∷ 13 ∷ 10 ∷ []) before_length after_length n refl refl
        (apart-digits 13 (10 ∷ 13 ∷ 10 ∷ []) (decimal n) refl (decimal-all_digits n));
  no_bare =
      apart-number 10 (10 ∷ []) before_length after_length n refl refl
        (apart-digits 10 (10 ∷ []) (decimal n) refl (decimal-all_digits n));
  number =
      content_length-announced (codes "POST /RPC2 HTTP/1.1\r\nContent-Type: text/xml\r\n")
        (codes "Content-Length:") n (codes "\nConnection: close") refl refl refl small;
}

fits-small :
    (body : Bytes) → length (build_http_request body) ≤ max_request_size → length body < 2 ^ 64
unfolding build_http_request
fits-small body fits = omega (
  arith,
  length-append (request_headers (length body)) (blank_line ++ body),
  length-append blank_line body,
)

-- A request that the control program builds, of at most 1 MB: however its bytes are split over the
-- reads of the daemon, exactly the request is processed, and the XML that is parsed is its body.
pub build_http_request-framed :
    (body : Bytes) (chunks : List Bytes)
    → joined chunks ≡ build_http_request body
    → length (build_http_request body) ≤ max_request_size
    → (read_all chunks [] ≡ processes (build_http_request body))
      × (request_body (build_http_request body) ≡ some body)
unfolding build_http_request
build_http_request-framed body chunks e fits =
    let h = request_headers (length body) in
    let i = request_headers-IsHeaders (length body) (fits-small body fits) in
    let whole : message h (body ++ []) ≡ message h body = ap (message h) (append-nil body) in
    (
      read_all-message h body [] chunks i (e ∙ sym whole)
          (subst (λ m. length m ≤ max_request_size) (sym whole) fits),
      request_body-message h body i,
    )

read_headers-digits :
    (line ds r : Bytes) (n : ℕ)
    → all_digits ds ≡ true
    → read_headers line (ds ++ r) n ≡ read_headers (line ++ ds) r n
unfolding read_headers all_digits
read_headers-digits line [] r n h = ap (λ l. read_headers l r n) (sym (append-nil line))
read_headers-digits line (c ∷ ds) r n h =
    ground (arith, read_headers-digits (line ++ c ∷ []) ds r n, append_assoc line (c ∷ []) ds)

header_line-decimal :
    (n m : ℕ)
    → n < 2 ^ 64
    → header_line (codes "Content-Length: " ++ (decimal n ++ 13 ∷ [])) m ≡ some n
unfolding header_line stoull leading_digits
header_line-decimal n m small = stoull-decimal n (13 ∷ []) small refl

-- The lines before, up to the number.
read_headers-before :
    (r : Bytes)
    → read_headers [] (codes "HTTP/1.1 200 OK\r\nContent-Type: text/xml\r\nContent-Length: " ++ r) 0
      ≡ read_headers (codes "Content-Length: ") r 0
unfolding read_headers header_line begins bytes_eq
read_headers-before r = refl

-- The end of the line with the number.
read_headers-line :
    (n : ℕ) (r : Bytes)
    → n < 2 ^ 64
    → read_headers (codes "Content-Length: " ++ decimal n) (13 ∷ 10 ∷ r) 0 ≡ read_headers [] r n
unfolding read_headers bytes_eq
read_headers-line n r small = rw (header_line-decimal n 0 small)

-- What follows the number.
read_headers-after :
    (n : ℕ) (b : Bytes) → read_headers [] (codes "Connection: close\r\n\r\n" ++ b) n ≡ some (n, b)
unfolding read_headers header_line begins bytes_eq
read_headers-after n b = refl

-- The client reads the length and stands at the body.
read_headers-response :
    (n : ℕ) (b : Bytes)
    → n < 2 ^ 64
    → read_headers [] (response_headers n ++ (blank_line ++ b)) 0 ≡ some (n, b)
unfolding response_headers
read_headers-response n b small =
    let r : Bytes = codes "Connection: close\r\n\r\n" ++ b in
    ap (λ t. read_headers [] t 0)
      (ap (λ t. codes "HTTP/1.1 200 OK\r\nContent-Type: text/xml\r\nContent-Length: " ++ t)
        (append_assoc (decimal n) after_length (blank_line ++ b)))
    ∙ read_headers-before (decimal n ++ 13 ∷ 10 ∷ r)
    ∙ read_headers-digits (codes "Content-Length: ") (decimal n) (13 ∷ 10 ∷ r) 0
        (decimal-all_digits n)
    ∙ read_headers-line n r small
    ∙ read_headers-after n b

read_body-split : (b₁ b₂ : Bytes) → read_body (length (b₁ ++ b₂)) b₁ b₂ ≡ some (b₁ ++ b₂)
unfolding read_body
read_body-split b₁ b₂ =
    let taken : take (length (b₁ ++ b₂)) b₁ ≡ b₁ =
      take_all (length (b₁ ++ b₂)) b₁ (omega (arith, length-append b₁ b₂)) in
    let rest : take (length (b₁ ++ b₂) - length b₁) b₂ ≡ b₂ =
      take_all (length (b₁ ++ b₂) - length b₁) b₂ (omega (arith, length-append b₁ b₂)) in
    elim (Bool-cases (ltb (length b₁) (length (b₁ ++ b₂)))) [
      | inl more ↦
          let there : ltb (length b₂) (length (b₁ ++ b₂) - length b₁) ≡ false =
            ground (arith, length-append b₁ b₂) in
          rw (taken, more, there, rest)
      | inr all ↦
          rw (taken, all)
            (ap some (sym (take_exact b₁ b₂) ∙ take_all (length b₁) (b₁ ++ b₂) (ground arith)))
    ]

read_response-at :
    (stream socket b : Bytes) (n : ℕ)
    → read_headers [] stream 0 ≡ some (n, b)
    → read_response stream socket ≡ read_body n b socket
unfolding read_response
read_response-at stream socket b n e = rw (e, read_response)

-- The response of the daemon, once its headers have come in, is read as its body, wherever the
-- first reads of the client end.
pub read_response-generate_http_response :
    (body stream socket : Bytes)
    → stream ++ socket ≡ generate_http_response body
    → length (response_headers (length body) ++ blank_line) ≤ length stream
    → length body < 2 ^ 64
    → read_response stream socket ≡ some body
unfolding generate_http_response
read_response-generate_http_response body stream socket e headers small =
    let h = response_headers (length body) in
    let (b₁, f, g) =
      split_prefix (h ++ blank_line) stream socket body (e ∙ sym (append_assoc h blank_line body))
        headers in
    let at =
      ap (λ t. read_headers [] t 0) (f ∙ append_assoc h blank_line b₁)
      ∙ read_headers-response (length body) b₁ small in
    read_response-at stream socket b₁ (length body) at
    ∙ subst (λ t. read_body (length t) b₁ socket ≡ some t) (sym g) (read_body-split b₁ socket)
