-- ===== src/Upstream/Wrapped.antt =====
-- What internal/upstream reads of texts in base64: a subscription, and the credentials of an ss link.
use conduitvpn.Upstream.Encoding.{path_unescape, b64_decode}
use conduitvpn.Upstream.Subscription.{
  uris_of, some_uris, Map, looks_like_uris, parse_text, parse_subscription,
}
use conduitvpn.Base.{
  ℕ, ◌≡◌, refl, sym, ap, ◌∙◌, true, false, Option, some, List, [], ◌∷◌, ◌++◌, arith, ◌==◌, Str,
  codes, trim_space, has_prefix, trim_prefix, contains, ℤ, atoi, has_byte, split_host_port,
  cut_first-append, cut_last-append,
}
use conduitvpn.State.Base64.{AreBytes}
use conduitvpn.State.Base64.Padded.{
  encode_std, decode_std-encode_std, trim_space-encode_std, length-encode_std, encode_std-head,
}
use conduitvpn.Upstream.Links.{
  shadowsocks, credentials, ss_parts, split_addr_port_tag, parse_ss, ok,
}

append_nil : (s : Str) → s ++ [] ≡ s
append_nil [] = refl
append_nil (c ∷ s) = ap (λ t. c ∷ t) (append_nil s)

b64_decode-encode_std :
    (bytes : List ℕ) → AreBytes bytes → b64_decode (encode_std bytes) ≡ some bytes
unfolding b64_decode
b64_decode-encode_std bytes h =
    rw
      (
        trim_space-encode_std bytes h,
        length-encode_std bytes,
        append_nil (encode_std bytes),
        decode_std-encode_std bytes h,
      )
      refl

module _ (maps outbounds_of : Str → Option (List Map)) where
  parse_plain :
      (raw : Str) (c : ℕ) (s : Str)
      → trim_space raw ≡ c ∷ s
      → (c == b'[') ≡ false
      → (c == b'{') ≡ false
      → parse_subscription maps outbounds_of raw ≡ parse_text (c ∷ s)
  unfolding parse_subscription has_prefix
  parse_plain raw c s e p q = rw (e, p, q) refl

  parse_text-encode_std :
      (payload : Str)
      → AreBytes payload
      → looks_like_uris payload ≡ true
      → parse_text (encode_std payload) ≡ some_uris (uris_of payload)
  unfolding parse_text
  parse_text-encode_std payload h e = rw (b64_decode-encode_std payload h, e) refl

-- A text of bytes that has a link and is wrapped in base64 is read as a subscription as its own lines
-- are, trimmed, without the empty ones and the comments; with none left there are no nodes.
pub parse_subscription-encode_std :
    (maps outbounds_of : Str → Option (List Map)) (payload : Str)
    → AreBytes payload
    → contains payload (codes "://") ≡ true
    → parse_subscription maps outbounds_of (encode_std payload) ≡ some_uris (uris_of payload)
unfolding looks_like_uris contains has_prefix
parse_subscription-encode_std maps outbounds_of [] h = λ e. absurd cc
parse_subscription-encode_std maps outbounds_of (a ∷ payload) h = λ e.
    let (c, s, f, p, q) = encode_std-head a payload h.0 in
    parse_plain maps outbounds_of (encode_std (a ∷ payload)) c s
      (trim_space-encode_std (a ∷ payload) h ∙ f) p q
    ∙ ap parse_text (sym f)
    ∙ parse_text-encode_std maps outbounds_of (a ∷ payload) h e

-- The share link of a shadowsocks node.
abbrev pub ss_link : Str → Str → Str → Str → Str
ss_link method escaped address tag =
    codes "ss://"
    ++ (encode_std (method ++ (codes ":" ++ escaped))
        ++ (codes "@" ++ (address ++ (codes "#" ++ tag))))

has_byte_append :
    (sep : ℕ) (s t : Str)
    → has_byte sep s ≡ false
    → has_byte sep t ≡ false
    → has_byte sep (s ++ t) ≡ false
has_byte_append sep [] t g h = h
has_byte_append sep (c ∷ s) t g h = ground (arith, g, has_byte_append sep s t)

split-address :
    (address tag host port : Str) (n : ℤ)
    → has_byte b'#' tag ≡ false
    → split_host_port address ≡ some (host, port)
    → atoi port ≡ some n
    → split_addr_port_tag (address ++ (codes "#" ++ tag)) ≡ ok (host, n, tag)
unfolding split_addr_port_tag
split-address address tag host port n t e p = rw (cut_last-append b'#' address tag t, e, p) refl

-- A share link of a shadowsocks node, its credentials in padded base64, an address with a port and a
-- tag, is parsed as the node of these: with the method without a colon, the password unescaped, and
-- "ss" for an empty tag.
pub parse_ss-ss_link :
    (method escaped password address tag host port : Str) (n : ℤ)
    → AreBytes (method ++ (codes ":" ++ escaped))
    → has_byte b':' method ≡ false
    → path_unescape escaped ≡ some password
    → has_byte b'@' address ≡ false
    → has_byte b'@' tag ≡ false
    → has_byte b'#' tag ≡ false
    → split_host_port address ≡ some (host, port)
    → atoi port ≡ some n
    → parse_ss (ss_link method escaped address tag) ≡ ok (shadowsocks host n tag method password)
unfolding parse_ss trim_prefix has_prefix ss_parts credentials
parse_ss-ss_link method escaped password address tag host port n b m u a t g e p =
    let raw = method ++ (codes ":" ++ escaped) in
    rw
      (
        cut_last-append b'@' (encode_std raw) (address ++ (codes "#" ++ tag))
            (has_byte_append b'@' address (codes "#" ++ tag) a t),
        split-address address tag host port n g e p,
        b64_decode-encode_std raw b,
        cut_first-append b':' method escaped m,
        u,
      )
      refl
