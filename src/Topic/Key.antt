-- ===== src/Topic/Key.antt =====
-- The topic of a route tells apart what the message tells apart: it is read back.
use mathlib.Core.Option.{map}
use mathlib.Core.Path.{subst}
use vyatta_route_broker.Base.{
  ℕ, List, leb, ◌^◌, ◌<◌, ◌≡◌, refl, ap, sym, ◌∙◌, inl, inr, true, false, ◌&&◌, ◌||◌, [], ◌∷◌, ◌++◌,
  Option, none, some, ◌⊎◌, arith, ◌==◌, if◌then◌else◌, All, Bool-cases, Option-cases, drop,
}
use vyatta_route_broker.Topic.Decimal.{Bytes, unsigned, read_number, read-unsigned, EndsNumber}
use vyatta_route_broker.Topic.{
  Attr, TopicMsg, Platform, route_attr, Topic, refused, written, undefined, RouteKey, route_text,
  spaced, domain, attr_table, unicast_topic, topic_of_family, route_topic, anyaddr, payload_or,
  table_id, u32_or, rd_id_of, is_cloned,
}
use vyatta_route_broker.Topic.Bounds.{Documented, IsRtmsg}

-- The bytes in front of the first slash, and those behind it.
read_addr : Bytes → Bytes × Bytes
read_addr [] = ([], [])
read_addr (c ∷ s) = let rest = read_addr s in if c == b'/' then ([], s) else (c ∷ rest.0, rest.1)

read_domain : Bytes → Option ℕ
read_domain [] = none
read_domain (c ∷ s) = some (read_number s 0).0

-- The text of a topic, `r dest/dst_len scope tableid` with or without a routing domain.
pub read_key : Bytes → RouteKey
unfolding read_addr read_domain
read_key s =
    let a = read_addr (drop 2 s) in
    let len = read_number a.1 0 in
    let scope = read_number (drop 1 len.1) 0 in
    let table = read_number (drop 1 scope.1) 0 in
    record {
      dest = a.0;
      dst_len = len.0;
      scope = scope.0;
      tableid = table.0;
      rd_id = read_domain table.1;
    }

read-addr : (a s : Bytes) → All (λ c. (c == b'/') ≡ false) a → read_addr (a ++ (b'/' ∷ s)) ≡ (a, s)
unfolding read_addr
read-addr [] s h = refl
read-addr (c ∷ a) s h = rw (h.0, read-addr a s h.1) refl

domain-EndsNumber : (rd : Option ℕ) → EndsNumber (domain rd [])
domain-EndsNumber none = tt
domain-EndsNumber (some n) = refl

abbrev InRange : Option ℕ → Type 0
InRange none = Unit {0}
InRange (some n) = n < 2 ^ 32

read-domain : (rd : Option ℕ) → InRange rd → read_domain (domain rd []) ≡ rd
unfolding read_domain
read-domain none h = refl
read-domain (some n) h = ap (λ p. some p.0) (read-unsigned n [] h tt)

-- Numbers of 32 bits, and an address that is printed without a slash.
pub record IsKey (k : RouteKey) : Type 0 where
  pub dest_plain : All (λ c. (c == b'/') ≡ false) k.dest
  pub len_fits : k.dst_len < 2 ^ 32
  pub scope_fits : k.scope < 2 ^ 32
  pub table_fits : k.tableid < 2 ^ 32
  pub domain_fits : InRange k.rd_id

pub read-route_text : (k : RouteKey) → IsKey k → read_key (route_text k) ≡ k
unfolding read_key route_text
read-route_text k v =
    let last = domain k.rd_id [] in
    let behind_scope = spaced k.tableid last in
    let behind_len = spaced k.scope behind_scope in
    rw
      (
        read-addr k.dest (unsigned k.dst_len ++ behind_len) v.dest_plain,
        read-unsigned k.dst_len behind_len v.len_fits refl,
        read-unsigned k.scope behind_scope v.scope_fits refl,
        read-unsigned k.tableid last v.table_fits (domain-EndsNumber k.rd_id),
        read-domain k.rd_id v.domain_fits,
      )
      refl

-- The payload of the last attribute of a type.
abbrev pub last_of : ℕ → List Attr → Option Bytes
last_of t [] = none
last_of t (a ∷ l) = elim (last_of t l) [
  | some p ↦ some p
  | none ↦ if a.nla_type == t then some a.payload else none
]

module _ (P : Platform) where
  -- What a message says by the attribute of a type, if the kernel's types go as far.
  abbrev pub said : List Attr → ℕ → Option Bytes
  said l t = if leb t P.rta_max then last_of t l else none

  -- The number in an attribute, or another if there is none.
  abbrev pub number_said : List Attr → ℕ → ℕ → ℕ
  number_said l t other = elim (said l t) [ none ↦ other | some p ↦ P.mnl_attr_get_u32 p ]

  abbrev pub domain_said : List Attr → Option ℕ
  domain_said l = elim P.rtg_domain [
    | none ↦ none
    | some (type, vrf_id_main) ↦ some (number_said l type vrf_id_main)
  ]

  -- What a message says of a route that is neither of MPLS nor of multicast: the text of the
  -- destination (RTA_DST, or that of the address of zeros), the table (RTA_TABLE, or the field of
  -- the message), the routing domain (its attribute, or the main one), if there are domains, and the
  -- length of the prefix and the scope.
  abbrev pub route_key : TopicMsg → Option RouteKey
  route_key m = elim m.attrs [
    | none ↦ none
    | some l ↦
        map
          (λ dest. record {
            dest = dest;
            dst_len = m.rtm_dst_len;
            scope = m.rtm_scope;
            tableid = number_said l 15 m.rtm_table;
            rd_id = domain_said l;
          })
          (P.inet_ntop m.rtm_family (elim (said l 1) [ none ↦ anyaddr | some p ↦ p ]))
  ]

  route_attr-at :
      (tb : ℕ → Option Bytes) (a : Attr) (t : ℕ)
      → route_attr P tb a t ≡ (if leb t P.rta_max && a.nla_type == t then some a.payload else tb t)
  unfolding route_attr
  route_attr-at tb a t = ground arith

  attr_table-last :
      (l : List Attr) (tb : ℕ → Option Bytes) (t : ℕ)
      → attr_table P l tb t ≡ (elim (said l t) [ none ↦ tb t | some p ↦ some p ])
  unfolding attr_table route_attr
  attr_table-last [] tb t = elim (Bool-cases (leb t P.rta_max)) [
    | inl e ↦ rw e refl
    | inr e ↦ rw e refl
  ]
  attr_table-last (a ∷ l) tb t =
      attr_table-last l (route_attr P tb a) t ∙ elim (Bool-cases (leb t P.rta_max)) [
        | inr e ↦ rw e (route_attr-at tb a t ∙ rw e refl)
        | inl e ↦ elim (Option-cases (last_of t l)) [
          | inr (p, f) ↦ rw (e, f) refl
          | inl f ↦ elim (Bool-cases (a.nla_type == t)) [
            | inl g ↦ rw (e, f, g) (route_attr-at tb a t ∙ rw (e, g) refl)
            | inr g ↦ rw (e, f, g) (route_attr-at tb a t ∙ rw (e, g) refl)
          ]
        ]
      ]

  table_said : (l : List Attr) (t : ℕ) → attr_table P l (λ _. none) t ≡ said l t
  table_said l t = attr_table-last l (λ _. none) t ∙ go (said l t)
    where
      go :
          (o : Option Bytes) → (elim o as (λ x. Option Bytes) [ none ↦ none | some p ↦ some p ]) ≡ o
      go none = refl
      go (some p) = refl

  id_said :
      (m : TopicMsg) (l : List Attr)
      → table_id P m (attr_table P l (λ _. none)) ≡ number_said l 15 m.rtm_table
  id_said m l = ap (u32_or P m.rtm_table) (table_said l 15)

  rd_said : (l : List Attr) → rd_id_of P (attr_table P l (λ _. none)) ≡ domain_said l
  rd_said l = go P.rtg_domain
    where
      go :
          (o : Option (ℕ × ℕ))
          → (elim o as (λ x. Option ℕ) [
            | none ↦ none
            | some (type, n) ↦ some (u32_or P n (attr_table P l (λ _. none) type))
          ])
            ≡ (elim o as (λ x. Option ℕ) [
              | none ↦ none
              | some (type, n) ↦ some (number_said l type n)
            ])
      go none = refl
      go (some (type, n)) = ap (λ o. some (u32_or P n o)) (table_said l type)

  -- Neither of MPLS nor of multicast.
  abbrev pub IsUnicast : TopicMsg → Type 0
  IsUnicast m = ((P.mpls_route && m.rtm_family == 28) ≡ false) × ((m.rtm_type == 5) ≡ false)

  abbrev pub MainFits : Type 0
  MainFits = (type main : ℕ) → P.rtg_domain ≡ some (type, main) → main < 2 ^ 32

module _ (P : Platform) (doc : Documented P) (main : MainFits P) where
  u32_or-fits : (other : ℕ) (b : Option Bytes) → other < 2 ^ 32 → u32_or P other b < 2 ^ 32
  u32_or-fits other none h = h
  u32_or-fits other (some b) h = doc.u32_bound b

  rd_id_of-fits : (tb : ℕ → Option Bytes) → InRange (rd_id_of P tb)
  rd_id_of-fits tb = elim (Option-cases P.rtg_domain) [
    | inl e ↦ rw (e, InRange) tt
    | inr ((type, n), e) ↦ rw (e, InRange) (u32_or-fits n (tb type) (main type n e))
  ]

  -- A message and the key it has, when its topic is written.
  Read : TopicMsg → Topic → Type 0
  Read m refused = Unit {0}
  Read m undefined = Unit {0}
  Read m (written s) = route_key P m ≡ some (read_key s)

  unicast_topic-Read : (m : TopicMsg) → IsRtmsg m → Read m (unicast_topic P m)
  unfolding unicast_topic Read
  unicast_topic-Read m v = elim (Option-cases m.attrs) [
    | inl e ↦ rw (e, unicast_topic, Read) tt
    | inr (l, e) ↦
        let tb = attr_table P l (λ _. none) in
        let dst = payload_or anyaddr (tb 1) in
        elim (Option-cases (P.inet_ntop m.rtm_family dst)) [
          | inl n ↦ rw (e, n, unicast_topic, Read) tt
          | inr (a, n) ↦
              let k : RouteKey = record {
                dest = a;
                dst_len = m.rtm_dst_len;
                scope = m.rtm_scope;
                tableid = table_id P m tb;
                rd_id = rd_id_of P tb;
              } in
              let there =
                ap (λ o. P.inet_ntop m.rtm_family (payload_or anyaddr o)) (sym (table_said P l 1))
                ∙ n in
              let key : route_key P m ≡ some k =
                rw (e, route_key) (rw (there, id_said P m l, rd_said P l) refl) in
              rw (e, n, unicast_topic, Read)
                (key
                  ∙ ap some (
                      sym (
                        read-route_text k (record {
                          dest_plain = doc.ntop_no_slash m.rtm_family dst a n;
                          len_fits = omega (arith, v.dst_len_byte);
                          scope_fits = omega (arith, v.scope_byte);
                          table_fits =
                              u32_or-fits m.rtm_table (tb 15) (omega (arith, v.table_byte));
                          domain_fits = rd_id_of-fits tb;
                        }))))
        ]
  ]

  topic_of_family-Read : (m : TopicMsg) → IsRtmsg m → IsUnicast P m → Read m (topic_of_family P m)
  unfolding topic_of_family Read
  topic_of_family-Read m v u = elim (Bool-cases (m.rtm_type == 3 || is_cloned m)) [
    | inl z ↦ rw (u.0, u.1, z) tt
    | inr z ↦ rw (u.0, u.1, z) (unicast_topic-Read m v)
  ]

  written_key :
      (m : TopicMsg) (s : Bytes)
      → IsRtmsg m
      → IsUnicast P m
      → (route_topic P m).0 ≡ written s
      → route_key P m ≡ some (read_key s)
  unfolding route_topic Read
  written_key m s v u e =
      subst (Read m) e (go (Bool-cases (m.nlmsg_type == 24)) (Bool-cases (m.nlmsg_type == 25)))
    where
      go :
          ((m.nlmsg_type == 24) ≡ true) ⊎ ((m.nlmsg_type == 24) ≡ false)
          → ((m.nlmsg_type == 25) ≡ true) ⊎ ((m.nlmsg_type == 25) ≡ false)
          → Read m (route_topic P m).0
      go (inl a) b = rw a (topic_of_family-Read m v u)
      go (inr a) (inl b) = rw (a, b) (topic_of_family-Read m v u)
      go (inr a) (inr b) = rw (a, b) tt

  -- On a platform that behaves as documented, two messages of routes that are neither of MPLS nor of
  -- multicast, whose fields of one byte are bytes, are given the same topic only if they agree in the
  -- text of the destination, the length of its prefix, the scope, the table and the routing domain.
  pub route_topic-route_key :
      (m n : TopicMsg) (s : Bytes)
      → IsRtmsg m
      → IsRtmsg n
      → IsUnicast P m
      → IsUnicast P n
      → (route_topic P m).0 ≡ written s
      → (route_topic P n).0 ≡ written s
      → route_key P m ≡ route_key P n
  route_topic-route_key m n s vm vn um un em en =
      written_key m s vm um em ∙ sym (written_key n s vn un en)
