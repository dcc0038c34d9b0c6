-- ===== src/Topic/Tests.antt =====
-- Topics of concrete messages, on which the theorems are applied.
use mathlib.Core.Path.{subst}
use mathlib.Core.Option.{some-injective}
use vyatta_route_broker.Base.{
  ◌^◌, ◌≤◌, ◌∙◌, ℕ, ◌<◌, ◌≡◌, refl, ap, sym, inl, inr, true, false, [], ◌∷◌, Option, none, some,
  arith, ◌==◌, ltb, if◌then◌else◌, length, All, Bool-cases,
}
use vyatta_route_broker.Topic.Decimal.{Bytes, codes, unsigned, digits}
use vyatta_route_broker.Topic.{
  TopicMsg, Platform, written, attr_table, route_attr, unicast_topic, topic_of_family, route_topic,
  route_text,
}
use vyatta_route_broker.Topic.Bounds.{Documented, IsRtmsg, route_topic_len, route_topic-length}
use vyatta_route_broker.Topic.Key.{route_key, route_topic-route_key}

-- Every IPv4 address is printed as 10.0.0.0; a number is the first byte of an attribute.
abbrev ten : Bytes
ten = codes "10.0.0.0"

abbrev first_byte : Bytes → ℕ
first_byte [] = 0
first_byte (b ∷ s) = if ltb b 256 then b else 0

abbrev ntop : ℕ → Bytes → Option Bytes
ntop af b = if af == 2 then some ten else none

abbrev linux : Platform
linux = record {
  inet_ntop = ntop;
  ntohl = λ n. n;
  mnl_attr_get_u32 = first_byte;
  rta_max = 30;
  rtg_domain = some (28, 1);
  mpls_route = true;
}

ntop-ten : (af : ℕ) (b t : Bytes) → ntop af b ≡ some t → ten ≡ t
ntop-ten af b t e = elim (Bool-cases (af == 2)) [
  | inl v4 ↦ some-injective ten t (sym (rw v4 (refl {a = some ten})) ∙ e)
  | inr off ↦ absurd (ground arith)
]

byte_bound : (b : Bytes) → first_byte b < 2 ^ 32
byte_bound [] = omega arith
byte_bound (b ∷ s) = ground arith

linux-Documented : Documented linux
linux-Documented = record {
  ntop_short = λ af b t e. subst (λ a. length a ≤ 45) (ntop-ten af b t e) (omega arith);
  ntop_no_slash = λ af b t e.
      subst (All (λ c. (c == b'/') ≡ false)) (ntop-ten af b t e)
        (refl, (refl, (refl, (refl, (refl, (refl, (refl, (refl, tt))))))));
  u32_bound = byte_bound;
}

-- A route to 10.0.0.0/8 in the main table, new and of scope 0, and the same route deleted.
abbrev ten_eight : TopicMsg
ten_eight = record {
  nlmsg_type = 24;
  rtm_family = 2;
  rtm_dst_len = 8;
  rtm_src_len = 0;
  rtm_table = 254;
  rtm_scope = 0;
  rtm_type = 1;
  rtm_flags = 0;
  attrs = some (record { nla_type = 1; payload = 10 ∷ 0 ∷ 0 ∷ 0 ∷ [] } ∷ []);
}

ten_eight-topic : route_topic linux ten_eight ≡ (written (codes "r 10.0.0.0/8 0 254 1"), false)
unfolding route_topic topic_of_family unicast_topic attr_table route_attr route_text unsigned digits
ten_eight-topic = refl

ten_eight-IsRtmsg : IsRtmsg ten_eight
ten_eight-IsRtmsg = record {
  dst_len_byte = omega arith;
  src_len_byte = omega arith;
  table_byte = omega arith;
  scope_byte = omega arith;
}

route_topic-length_example : length (codes "r 10.0.0.0/8 0 254 1") < route_topic_len
route_topic-length_example =
    route_topic-length linux linux-Documented ten_eight (codes "r 10.0.0.0/8 0 254 1")
      ten_eight-IsRtmsg (ap (λ p. p.0) ten_eight-topic)

-- The same route, deleted.
abbrev ten_eight_gone : TopicMsg
ten_eight_gone = record ten_eight { nlmsg_type = 25 }

ten_eight_gone-topic :
    route_topic linux ten_eight_gone ≡ (written (codes "r 10.0.0.0/8 0 254 1"), true)
unfolding route_topic topic_of_family unicast_topic attr_table route_attr route_text unsigned digits
ten_eight_gone-topic = refl

main_domain : (type main : ℕ) → linux.rtg_domain ≡ some (type, main) → main < 2 ^ 32
main_domain type main e = ground arith

route_topic-route_key_example : route_key linux ten_eight ≡ route_key linux ten_eight_gone
route_topic-route_key_example =
    route_topic-route_key linux linux-Documented main_domain ten_eight ten_eight_gone
      (codes "r 10.0.0.0/8 0 254 1") ten_eight-IsRtmsg
      (record {
        dst_len_byte = omega arith;
        src_len_byte = omega arith;
        table_byte = omega arith;
        scope_byte = omega arith;
      })
      (refl, refl) (refl, refl) (ap (λ p. p.0) ten_eight-topic) (ap (λ p. p.0) ten_eight_gone-topic)
