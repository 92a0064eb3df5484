-- ===== src/Rpc/Connection/Framing.antt =====
-- rpc_connection.cpp, `handle_read_`: how a request is cut out of what comes in.
use supervisorcpp.Prelude.{
  ℕ, ◌+◌, ◌-◌, ◌≤◌, ◌<◌, Bool, true, false, List, [], ◌∷◌, ◌++◌, none, some, ltb, leb, length,
  length-append, take, take_exact, drop_exact, append_assoc, Bytes, find_from, find_from-apart,
  find_from-early, find_from-absent, apart, apart-find_from, ◌≡◌, ◌⊎◌, refl, sym, ap, ◌∙◌, arith,
  inl, inr, Bool-cases,
}
use supervisorcpp.Rpc.Connection.{
  blank_line, bare_blank_line, max_request_size, find_headers, content_length, handle_headers,
  handle_request, handle_read, no_error, read_all, request_body, reads_on, processes,
}

-- Headers that announce `n` bytes: up to the blank line there is no other, of either kind.
pub record IsHeaders (h : Bytes) (n : ℕ) : Type 0 where
  pub one_blank : apart blank_line h ≡ true
  pub no_bare : apart bare_blank_line h ≡ true
  pub number : content_length h ≡ some n

-- The whole message.
abbrev pub message : Bytes → Bytes → Bytes
message h body = h ++ (blank_line ++ body)

message-length : (h body : Bytes) → length (message h body) ≡ length h + 4 + length body
message-length h body = omega (arith, length-append h (blank_line ++ body))

message-append : (h body r : Bytes) → message h body ++ r ≡ message h (body ++ r)
message-append h body r = append_assoc h (blank_line ++ body) r

blank_at :
    (h body : Bytes)
    → apart blank_line h ≡ true
    → find_from blank_line (message h body) ≡ some (length h)
blank_at h body one = find_from-apart blank_line h body one

bare_absent :
    (h : Bytes)
    → apart bare_blank_line h ≡ true
    → find_from bare_blank_line (h ++ blank_line) ≡ none
unfolding find_from
bare_absent h one = apart-find_from bare_blank_line h blank_line one

pub find_headers-message :
    (h body : Bytes)
    → apart blank_line h ≡ true
    → find_headers (message h body) ≡ some (length h, length h + 4)
unfolding find_headers
find_headers-message h body one = rw (blank_at h body one, find_headers)

-- A text that ends within the blank line has no headers yet.
find_headers-early :
    (h got r : Bytes) {n : ℕ}
    → IsHeaders h n
    → got ++ r ≡ h ++ blank_line
    → 0 < length r
    → find_headers got ≡ none
unfolding find_headers
find_headers-early h got r i e more =
    let whole : find_from blank_line (got ++ r) ≡ some (length h) =
      ap (find_from blank_line) e ∙ find_from-apart blank_line h [] i.one_blank in
    let short : length got < length h + 4 =
      ground (arith, ap length e, length-append got r, length-append h blank_line) in
    let early = find_from-early blank_line got r (length h) whole short in
    let absent =
      find_from-absent bare_blank_line got r
        (ap (find_from bare_blank_line) e ∙ bare_absent h i.no_bare) in
    rw (early, absent, find_headers)

-- With the headers there and part of the body missing, the connection reads on.
handle_request-part :
    (h part : Bytes) (n : ℕ)
    → IsHeaders h n
    → length part < n
    → handle_request false (message h part) ≡ reads_on (message h part)
unfolding handle_request handle_headers
handle_request-part h part n i short =
    let size = message-length h part in
    let missing : ltb (length (message h part) - (length h + 4)) n ≡ true = ground arith in
    rw (find_headers-message h part i.one_blank, handle_request)
      (rw (take_exact h (blank_line ++ part), i.number, missing, handle_headers))

-- With all of it there, the request is processed without what follows.
handle_request-whole :
    (h body extra : Bytes) (eof : Bool)
    → IsHeaders h (length body)
    → handle_request eof (message h (body ++ extra)) ≡ processes (message h body)
unfolding handle_request handle_headers
handle_request-whole h body extra eof i =
    let size = message-length h (body ++ extra) in
    let there : ltb (length (message h (body ++ extra)) - (length h + 4)) (length body) ≡ false =
      ground (arith, length-append body extra) in
    let cut : take (length h + 4 + length body) (message h (body ++ extra)) ≡ message h body =
      rw (← message-length h body, ← message-append h body extra)
        (take_exact (message h body) extra) in
    rw (find_headers-message h (body ++ extra) i.one_blank, handle_request)
      (rw (take_exact h (blank_line ++ (body ++ extra)), i.number, there, handle_headers)
        (ap processes cut))

-- What is left of a text behind one of its beginnings.
pub split_prefix :
    (zs xs ys ws : Bytes)
    → xs ++ ys ≡ zs ++ ws
    → length zs ≤ length xs
    → (r : Bytes) × (xs ≡ zs ++ r) × (ws ≡ r ++ ys)
split_prefix [] xs ys ws e le = (xs, refl, sym e)
split_prefix (z ∷ zs) [] ys ws e le = absurd (omega arith)
split_prefix (z ∷ zs) (x ∷ xs) ys ws e le =
    let (r, f, g) = split_prefix zs xs ys ws (ground arith) (omega arith) in
    (r, ground (arith, f), g)

-- What came in, and what is still to come, of a message and more behind it.
got_cases :
    (h body extra got r : Bytes)
    → got ++ r ≡ message h (body ++ extra)
    → (((s : Bytes) × (got ++ s ≡ h ++ blank_line) × (0 < length s))
        ⊎ (((part : Bytes) × (got ≡ message h part) × (length part < length body))
            ⊎ ((e : Bytes) × (got ≡ message h (body ++ e)))))
got_cases h body extra got r e =
    let e₁ : got ++ r ≡ (h ++ blank_line) ++ (body ++ extra) =
      e ∙ sym (append_assoc h blank_line (body ++ extra)) in
    elim (Bool-cases (leb (length (h ++ blank_line)) (length got))) [
      | inr early ↦
          let (s, f, g) =
            split_prefix got (h ++ blank_line) (body ++ extra) r (sym e₁) (ground arith) in
          inl (s, sym f, ground (arith, ap length f, length-append got s))
      | inl late ↦
          let (part, f, g) =
            split_prefix (h ++ blank_line) got r (body ++ extra) e₁ (ground arith) in
          let f' : got ≡ message h part = f ∙ append_assoc h blank_line part in
          elim (Bool-cases (leb (length body) (length part))) [
            | inr short ↦ inr (inl (part, f', ground arith))
            | inl enough ↦
                let (x, y, z) = split_prefix body part r extra (sym g) (ground arith) in
                inr (inr (x, f' ∙ ap (message h) y))
          ]
    ]

handle_request-early :
    (h got s : Bytes) {n : ℕ}
    → IsHeaders h n
    → got ++ s ≡ h ++ blank_line
    → 0 < length s
    → handle_request false got ≡ reads_on got
unfolding handle_request
handle_request-early h got s i e more = rw (find_headers-early h got s i e more, handle_request)

-- A message is not cut before it is there, and is cut at its end, however its bytes come in.
handle_request-got :
    (h body extra got r : Bytes)
    → IsHeaders h (length body)
    → got ++ r ≡ message h (body ++ extra)
    → ((handle_request false got ≡ reads_on got) × (length got < length (message h body)))
      ⊎ (handle_request false got ≡ processes (message h body))
handle_request-got h body extra got r i e = elim (got_cases h body extra got r e) [
  | inl (s, f, more) ↦ inl (
    handle_request-early h got s i f more,
    omega (
      arith,
      ap length f,
      length-append got s,
      length-append h blank_line,
      length-append h (blank_line ++ body),
    ),
  )
  | inr (inl (part, f, short)) ↦ inl (
    rw f (handle_request-part h part (length body) i short),
    omega (arith, ap length f, message-length h part, message-length h body),
  )
  | inr (inr (x, f)) ↦ inr (rw f (handle_request-whole h body x false i))
]

pub handle_read-fits :
    (received request : Bytes)
    → length request + length received ≤ max_request_size
    → handle_read no_error received request ≡ handle_request false (request ++ received)
unfolding handle_read
handle_read-fits received request fits =
    let small : ltb max_request_size (length request + length received) ≡ false = ground arith in
    rw (small, handle_read)

-- The bytes of all the reads.
unfoldable pub joined : List Bytes → Bytes
joined [] = []
joined (c ∷ r) = c ++ joined r

read_all-got :
    (h body extra : Bytes) (chunks : List Bytes) (got : Bytes)
    → IsHeaders h (length body)
    → got ++ joined chunks ≡ message h (body ++ extra)
    → length (message h (body ++ extra)) ≤ max_request_size
    → length got < length (message h body)
    → read_all chunks got ≡ processes (message h body)
unfolding read_all joined
read_all-got h body extra [] got i e fits short = absurd (
    omega (
      arith,
      ap length e,
      length-append got [],
      message-length h (body ++ extra),
      message-length h body,
      length-append body extra,
    ))
read_all-got h body extra (c ∷ r) got i e fits short =
    let e₁ : (got ++ c) ++ joined r ≡ message h (body ++ extra) =
      append_assoc got c (joined r) ∙ e in
    let read =
      handle_read-fits c got
        (omega (arith, ap length e₁, length-append (got ++ c) (joined r), length-append got c)) in
    elim (handle_request-got h body extra (got ++ c) (joined r) i e₁) [
      | inl (on, short₁) ↦
          rw (read ∙ on, read_all) (read_all-got h body extra r (got ++ c) i e₁ fits short₁)
      | inr whole ↦ rw (read ∙ whole, read_all)
    ]

-- However the bytes of a message with a body of the announced length are split over the reads, and
-- whatever bytes follow it, up to 1 MB in all: exactly the message is processed.
pub read_all-message :
    (h body extra : Bytes) (chunks : List Bytes)
    → IsHeaders h (length body)
    → joined chunks ≡ message h (body ++ extra)
    → length (message h (body ++ extra)) ≤ max_request_size
    → read_all chunks [] ≡ processes (message h body)
read_all-message h body extra chunks i e fits =
    read_all-got h body extra chunks [] i e fits (omega (arith, message-length h body))

-- And the XML that is parsed then is the body.
pub request_body-message :
    (h body : Bytes) {n : ℕ} → IsHeaders h n → request_body (message h body) ≡ some body
unfolding request_body
request_body-message h body i =
    rw (find_headers-message h body i.one_blank, request_body)
      (ap some (
        rw (← length_blank)
          (rw (← append_assoc h blank_line body) (drop_exact (h ++ blank_line) body))))
  where
    length_blank : length (h ++ blank_line) ≡ length h + 4
    length_blank = omega (arith, length-append h blank_line)
