-- ===== src/Net/Dns.antt =====
-- kernel/src/net/dns.rs: the query for a domain and what is read from a response. A position in the
-- buffer is the list of the bytes from there on, empty where the position is past the end.
pub mod Reply
use elitra_os.Base.{
  ℕ, zero, suc, ◌+◌, ◌*◌, ◌/◌, ◌%◌, Bool, true, false, ◌&&◌, List, [], ◌∷◌, ◌++◌, length, drop, ltb,
  leb, ◌==◌, if◌then◌else◌,
}
use elitra_os.Net.Wire.{Ip, be16, byte, read_be16, u16_mod, Parse, parsed, refused, panics}

-- The loop over the domain, with the bytes of the label so far: a length that is cut to a byte, and
-- the label.
unfoldable pub encode_labels : List ℕ → List ℕ → List ℕ
encode_labels label [] = (length label % 256) ∷ label
encode_labels label (c ∷ cs) =
    let next = encode_labels [] cs in
    let longer = encode_labels (label ++ c ∷ []) cs in
    if c == 46 then (length label % 256) ∷ label ++ next else longer

abbrev pub question : List ℕ → List ℕ
question domain = encode_labels [] domain ++ 0 ∷ 0 ∷ 1 ∷ 0 ∷ 1 ∷ []

abbrev pub query_bytes : ℕ → List ℕ → List ℕ
query_bytes txid domain = be16 txid ++ 1 ∷ 0 ∷ 0 ∷ 1 ∷ 0 ∷ 0 ∷ 0 ∷ 0 ∷ 0 ∷ 0 ∷ question domain

-- The bytes that are written to a buffer of `size` bytes, and the next value of DNS_TXID. A small
-- buffer is refused; a domain that does not fit is an index out of range.
unfoldable pub build_dns_query : ℕ → List ℕ → ℕ → Parse (List ℕ) × ℕ
build_dns_query txid domain size =
    if ltb size 512
    then (refused, txid)
    else if ltb size (length (query_bytes txid domain))
    then (panics, (txid + 1) % u16_mod)
    else (parsed (query_bytes txid domain), (txid + 1) % u16_mod)

-- The name of the question: labels with their lengths, `left` the bytes of one that are to be left
-- out, up to a zero or past a pointer.
unfoldable pub skip_labels : ℕ → List ℕ → List ℕ
skip_labels left [] = []
skip_labels (suc left) (b ∷ bs) = skip_labels left bs
skip_labels zero (b ∷ bs) =
    let rest = skip_labels b bs in if b == 0 then b ∷ bs else if leb 192 b then drop 1 bs else rest

-- The name of an answer that does not start with a pointer; a pointer inside is taken for a length.
unfoldable pub skip_plain : ℕ → List ℕ → List ℕ
skip_plain left [] = []
skip_plain (suc left) (b ∷ bs) = skip_plain left bs
skip_plain zero (b ∷ bs) = let rest = skip_plain b bs in if b == 0 then b ∷ bs else rest

-- `buf[pos] & 0xC0 == 0xC0` of a byte
unfoldable pub after_name : List ℕ → List ℕ
after_name bs = if leb 192 (byte bs 0) then drop 2 bs else drop 1 (skip_plain 0 bs)

abbrev pub address_at : List ℕ → Ip
address_at bs = record { a = byte bs 0; b = byte bs 1; c = byte bs 2; d = byte bs 3 }

-- The loop over the answers. That 10 bytes are left is asked before the name and not after it.
unfoldable pub read_answers : ℕ → List ℕ → Parse Ip
read_answers zero bs = refused
read_answers (suc answers) bs =
    let fields = after_name bs in
    let rtype = read_be16 fields 0 in
    let rdlen = read_be16 fields 8 in
    let rest = read_answers answers (drop rdlen (drop 10 fields)) in
    if ltb (length bs) 10
    then refused
    else if ltb (length fields) 10
    then panics
    else if rtype == 1 && (rdlen == 4 && leb 4 (length (drop 10 fields)))
    then parsed (address_at (drop 10 fields))
    else rest

-- a zero at the front is taken
unfoldable pub drop_zero : List ℕ → List ℕ
drop_zero [] = []
drop_zero (b ∷ bs) = if b == 0 then bs else b ∷ bs

unfoldable pub parse_dns_response : List ℕ → Parse Ip
parse_dns_response buf =
    let answers = read_be16 buf 6 in
    let records = drop 4 (drop_zero (skip_labels 0 (drop 12 buf))) in
    if ltb (length buf) 12
    then refused
    else if answers == 0
    then refused
    else read_answers answers records
