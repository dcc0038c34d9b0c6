-- ===== src/Topic/Bounds.antt =====
-- The topics fit the buffer: `snprintf` never cuts one off.
use mathlib.Core.Path.{subst}
use vyatta_route_broker.Base.{
  ℕ, ◌+◌, ◌^◌, ◌≤◌, ◌<◌, ◌≡◌, refl, sym, ◌∙◌, inl, inr, true, false, ◌&&◌, ◌||◌, [], ◌∷◌, ◌++◌,
  Option, none, some, ◌⊎◌, arith, ◌==◌, length, length-append, All, Bool-cases, Option-cases,
}
use vyatta_route_broker.Topic.Decimal.{
  Bytes, codes, unsigned, signed, length-unsigned, length-unsigned_byte, length-signed,
}
use vyatta_route_broker.Topic.{
  TopicMsg, Platform, Topic, refused, written, undefined, RouteKey, route_text, mroute_text, spaced,
  network, domain, attr_table, mroute_ntop, mroute_topic, mplsroute_topic, unicast_topic,
  topic_of_family, route_topic, anyaddr, payload_or, mpls_ls_get_label, is_cloned,
}

-- ROUTE_TOPIC_LEN
abbrev pub route_topic_len : ℕ
route_topic_len = 204

-- What the code relies on: an address is printed with less than INET6_ADDRSTRLEN (46) bytes, none of
-- which is a slash, and an attribute is read as 32 bits.
pub record Documented (P : Platform) : Type 0 where
  pub ntop_short : (af : ℕ) (b t : Bytes) → P.inet_ntop af b ≡ some t → length t ≤ 45
  pub ntop_no_slash :
      (af : ℕ) (b t : Bytes) → P.inet_ntop af b ≡ some t → All (λ c. (c == b'/') ≡ false) t
  pub u32_bound : (b : Bytes) → P.mnl_attr_get_u32 b < 2 ^ 32

-- The fields of `struct rtmsg` are bytes.
pub record IsRtmsg (m : TopicMsg) : Type 0 where
  pub dst_len_byte : m.rtm_dst_len < 2 ^ 8
  pub src_len_byte : m.rtm_src_len < 2 ^ 8
  pub table_byte : m.rtm_table < 2 ^ 8
  pub scope_byte : m.rtm_scope < 2 ^ 8

length-spaced : (n : ℕ) (rest : Bytes) → length (spaced n rest) ≤ 11 + length rest
length-spaced n rest = ground (arith, length-append (unsigned n) rest, length-unsigned n)

length-network :
    (addr : Bytes) (len : ℕ) (rest : Bytes)
    → length addr ≤ 45
    → len < 2 ^ 8
    → length (network addr len rest) ≤ 49 + length rest
length-network addr len rest h b = ground (
  arith,
  length-append addr (b'/' ∷ (unsigned len ++ rest)),
  length-append (unsigned len) rest,
  length-unsigned_byte len,
)

length-domain : (rd : Option ℕ) (rest : Bytes) → length (domain rd rest) ≤ 11 + length rest
length-domain none rest = omega arith
length-domain (some n) rest = length-spaced n rest

-- A topic of a route fits, whatever its numbers are.
length-route_text :
    (k : RouteKey)
    → length k.dest ≤ 45
    → k.dst_len < 2 ^ 8
    → length (route_text k) < route_topic_len
unfolding route_text
length-route_text k h b =
    let last = domain k.rd_id [] in
    omega (
      arith,
      length-network k.dest k.dst_len (spaced k.scope (spaced k.tableid last)) h b,
      length-spaced k.scope (spaced k.tableid last),
      length-spaced k.tableid last,
      length-domain k.rd_id [],
    )

length-mroute_text :
    (i o : ℕ) (g : Bytes) (d : ℕ) (s : Bytes) (l : ℕ) (rd : Option ℕ) (t : ℕ)
    → length g ≤ 45
    → d < 2 ^ 8
    → length s ≤ 45
    → l < 2 ^ 8
    → length (mroute_text i o g d s l rd t) < route_topic_len
unfolding mroute_text
length-mroute_text i o g d s l rd t hg hd hs hl =
    let last = spaced t [] in
    let origin = network s l (domain rd last) in
    let group = network g d (b' ' ∷ origin) in
    omega (
      arith,
      length-append (codes "route ") (signed i ++ (b' ' ∷ (signed o ++ (b' ' ∷ group)))),
      length-append (signed i) (b' ' ∷ (signed o ++ (b' ' ∷ group))),
      length-append (signed o) (b' ' ∷ group),
      length-signed i,
      length-signed o,
      length-network g d (b' ' ∷ origin) hg hd,
      length-network s l (domain rd last) hs hl,
      length-domain rd last,
      length-spaced t [],
    )

-- What is written fits the buffer, with the byte that ends it.
abbrev Fits : Topic → Type 0
Fits refused = Unit {0}
Fits undefined = Unit {0}
Fits (written s) = length s < route_topic_len

module _ (P : Platform) (doc : Documented P) where
  unicast_topic-Fits : (m : TopicMsg) → IsRtmsg m → Fits (unicast_topic P m)
  unfolding unicast_topic
  unicast_topic-Fits m v = elim (Option-cases m.attrs) [
    | inl e ↦ rw (e, unicast_topic, Fits) tt
    | inr (l, e) ↦
        let tb = attr_table P l (λ _. none) in
        elim (Option-cases (P.inet_ntop m.rtm_family (payload_or anyaddr (tb 1)))) [
          | inl n ↦ rw (e, n, unicast_topic, Fits) tt
          | inr (a, n) ↦
              rw (e, n, unicast_topic, Fits)
                (length-route_text _ (doc.ntop_short m.rtm_family (payload_or anyaddr (tb 1)) a n)
                  v.dst_len_byte)
        ]
  ]

  mroute_ntop_short : (af : ℕ) (b t : Bytes) → mroute_ntop P af b ≡ some t → length t ≤ 45
  unfolding mroute_ntop
  mroute_ntop_short af b t e = elim (Bool-cases (af == 128)) [
    | inl v4 ↦ doc.ntop_short 2 b t (sym (rw v4 refl) ∙ e)
    | inr other ↦ elim (Bool-cases (af == 129)) [
      | inl v6 ↦ doc.ntop_short 10 b t (ground arith)
      | inr neither ↦ absurd (ground arith)
    ]
  ]

  mroute_topic-Fits : (m : TopicMsg) → IsRtmsg m → Fits (mroute_topic P m)
  unfolding mroute_topic
  mroute_topic-Fits m v = elim (Bool-cases (m.rtm_table == 255)) [
    | inl x ↦ rw (x, mroute_topic, Fits) tt
    | inr x ↦ elim (Option-cases m.attrs) [
      | inl e ↦ rw (x, e, mroute_topic, Fits) tt
      | inr (l, e) ↦
          let tb = attr_table P l (λ _. none) in
          let dst = payload_or anyaddr (tb 1) in
          let src = payload_or anyaddr (tb 2) in
          elim (Option-cases (mroute_ntop P m.rtm_family dst)) [
            | inl n ↦ rw (x, e, n, mroute_topic, Fits) tt
            | inr (g, n) ↦ elim (Option-cases (mroute_ntop P m.rtm_family src)) [
              | inl k ↦ rw (x, e, n, k, mroute_topic, Fits) tt
              | inr (o, k) ↦
                  rw (x, e, n, k, mroute_topic, Fits)
                    (length-mroute_text _ _ g m.rtm_dst_len o m.rtm_src_len _ _
                      (mroute_ntop_short m.rtm_family dst g n) v.dst_len_byte
                      (mroute_ntop_short m.rtm_family src o k) v.src_len_byte)
            ]
          ]
    ]
  ]

  mplsroute_topic-Fits : (m : TopicMsg) → Fits (mplsroute_topic P m)
  unfolding mplsroute_topic
  mplsroute_topic-Fits m = elim (Option-cases m.attrs) [
    | inl e ↦ rw (e, mplsroute_topic, Fits) tt
    | inr (l, e) ↦ elim (Option-cases (attr_table P l (λ _. none) 1)) [
      | inl n ↦ rw (e, n, mplsroute_topic, Fits) tt
      | inr (b, n) ↦
          let label = unsigned (mpls_ls_get_label P (P.mnl_attr_get_u32 b)) in
          rw (e, n, mplsroute_topic, Fits)
            (omega (
              arith,
              length-append (codes "route-mpls ") label,
              length-unsigned (mpls_ls_get_label P (P.mnl_attr_get_u32 b)),
            ))
    ]
  ]

  topic_of_family-Fits : (m : TopicMsg) → IsRtmsg m → Fits (topic_of_family P m)
  unfolding topic_of_family
  topic_of_family-Fits m v = elim (Bool-cases (P.mpls_route && m.rtm_family == 28)) [
    | inl x ↦ rw x (mplsroute_topic-Fits m)
    | inr x ↦ elim (Bool-cases (m.rtm_type == 5)) [
      | inl y ↦ rw (x, y) (mroute_topic-Fits m v)
      | inr y ↦ elim (Bool-cases (m.rtm_type == 3 || is_cloned m)) [
        | inl z ↦ rw (x, y, z) tt
        | inr z ↦ rw (x, y, z) (unicast_topic-Fits m v)
      ]
    ]
  ]

  -- On a platform that behaves as documented, the topic that is written for a message, whose fields
  -- of one byte are bytes, is shorter than the buffer of ROUTE_TOPIC_LEN bytes: `snprintf` cuts no
  -- topic off, so that two topics are not confused for their length.
  pub route_topic-length :
      (m : TopicMsg) (s : Bytes)
      → IsRtmsg m
      → (route_topic P m).0 ≡ written s
      → length s < route_topic_len
  unfolding route_topic
  route_topic-length m s v e =
      subst Fits e (fits (Bool-cases (m.nlmsg_type == 24)) (Bool-cases (m.nlmsg_type == 25)))
    where
      fits :
          ((m.nlmsg_type == 24) ≡ true) ⊎ ((m.nlmsg_type == 24) ≡ false)
          → ((m.nlmsg_type == 25) ≡ true) ⊎ ((m.nlmsg_type == 25) ≡ false)
          → Fits (route_topic P m).0
      fits (inl a) b = rw a (topic_of_family-Fits m v)
      fits (inr a) (inl b) = rw (a, b) (topic_of_family-Fits m v)
      fits (inr a) (inr b) = rw (a, b) tt
