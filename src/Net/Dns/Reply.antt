-- ===== src/Net/Dns/Reply.antt =====
-- A reply to a query is understood (kernel/src/net/dns.rs).
use mathlib.Core.List.{append_assoc}
use elitra_os.Base.{
  ℕ, suc, ◌%◌, ◌<◌, ◌≡◌, ◌∙◌, refl, ap, Bool, true, false, ◌&&◌, List, [], ◌∷◌, ◌++◌, length, drop,
  ltb, leb, ◌==◌, if◌then◌else◌, arith, inl, inr, Bool-cases, length-append,
}
use elitra_os.Net.Wire.{Ip, octets, be16, be32, parsed}
use elitra_os.Net.Dns.{
  encode_labels, question, skip_labels, after_name, read_answers, drop_zero, parse_dns_response,
  query_bytes,
}

-- Labels of 1 to 191 bytes, `n` the bytes of the first one so far.
unfoldable pub is_domain : ℕ → List ℕ → Bool
is_domain n [] = ltb 0 n && ltb n 192
is_domain n (c ∷ cs) =
    let next = is_domain 0 cs in
    let longer = is_domain (suc n) cs in if c == 46 then ltb 0 n && (ltb n 192 && next) else longer

skip_labels-append : (xs ys : List ℕ) → skip_labels (length xs) (xs ++ ys) ≡ skip_labels 0 ys
unfolding skip_labels
skip_labels-append [] ys = refl
skip_labels-append (x ∷ xs) ys = skip_labels-append xs ys

-- One label is left out.
skip_label :
    (label ys : List ℕ)
    → 0 < length label
    → length label < 192
    → skip_labels 0 ((length label % 256) ∷ (label ++ ys)) ≡ skip_labels 0 ys
unfolding skip_labels
skip_label label ys h l =
    let e : length label % 256 ≡ length label = omega (arith, l) in
    let some_bytes : (length label == 0) ≡ false = ground (arith, h) in
    let short : leb 192 (length label) ≡ false = ground (arith, l) in
    rw (e, some_bytes, short) (skip_labels-append label ys)

-- What the query says of a domain is left out, up to the zero.
skip_labels-encode_labels :
    (domain label rest : List ℕ)
    → is_domain (length label) domain ≡ true
    → skip_labels 0 (encode_labels label domain ++ 0 ∷ rest) ≡ 0 ∷ rest
unfolding encode_labels is_domain skip_labels
skip_labels-encode_labels [] label rest h =
    skip_label label (0 ∷ rest) (ground (arith, h)) (ground (arith, h))
skip_labels-encode_labels (c ∷ cs) label rest h = elim (Bool-cases (c == 46)) [
  | inl t ↦ rw t (
      ap (λ bs. skip_labels 0 ((length label % 256) ∷ bs))
        (append_assoc label (encode_labels [] cs) (0 ∷ rest))
      ∙ skip_label label (encode_labels [] cs ++ 0 ∷ rest) (ground (arith, h, t))
          (ground (arith, h, t))
      ∙ skip_labels-encode_labels cs [] rest (ground (arith, h, t)))
  | inr f ↦ rw f (
      skip_labels-encode_labels cs (label ++ c ∷ []) rest (
        ap (λ n. is_domain n cs) (length-append label (c ∷ []) ∙ omega arith)
        ∙ (rw (is_domain, f) at h)))
]

abbrev pub answer_bytes : ℕ → Ip → List ℕ
answer_bytes ttl ip = 192 ∷ 12 ∷ 0 ∷ 1 ∷ 0 ∷ 1 ∷ be32 ttl ++ (0 ∷ 4 ∷ []) ++ octets ip

-- A reply: the query with other flags and one answer, whose name is a pointer to the question.
abbrev pub reply_bytes : ℕ → ℕ → List ℕ → ℕ → Ip → List ℕ
reply_bytes txid flags domain ttl ip =
    be16 txid
    ++ be16 flags
    ++ (0 ∷ 1 ∷ 0 ∷ 1 ∷ 0 ∷ 0 ∷ 0 ∷ 0 ∷ [])
    ++ (drop 12 (query_bytes txid domain) ++ answer_bytes ttl ip)

read_pointed : (ttl : ℕ) (ip : Ip) → read_answers 1 (answer_bytes ttl ip) ≡ parsed ip
unfolding read_answers after_name
read_pointed ttl ip = refl

-- For a domain whose labels have 1 to 191 bytes, a reply with the question of its query and one
-- answer, an address of four bytes under a pointer to the name, is read as that address.
pub parse_dns_response-reply_bytes :
    (txid flags : ℕ) (domain : List ℕ) (ttl : ℕ) (ip : Ip)
    → is_domain 0 domain ≡ true
    → parse_dns_response (reply_bytes txid flags domain ttl ip) ≡ parsed ip
unfolding parse_dns_response drop_zero
parse_dns_response-reply_bytes txid flags domain ttl ip h =
    let tail : List ℕ = 0 ∷ 1 ∷ 0 ∷ 1 ∷ answer_bytes ttl ip in
    let body : List ℕ = question domain ++ answer_bytes ttl ip in
    let long : ltb (length (reply_bytes txid flags domain ttl ip)) 12 ≡ false = ground arith in
    let skipped : skip_labels 0 body ≡ 0 ∷ tail =
      ap (skip_labels 0)
        (append_assoc (encode_labels [] domain) (0 ∷ 0 ∷ 1 ∷ 0 ∷ 1 ∷ []) (answer_bytes ttl ip))
      ∙ skip_labels-encode_labels domain [] tail h in
    rw (parse_dns_response, long, skipped) (read_pointed ttl ip)
