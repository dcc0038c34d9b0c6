-- ===== src/Topic/Refused.antt =====
-- Which messages get a topic, and which are deletes.
use vyatta_route_broker.Base.{◌≡◌, refl, ◌⊎◌, inl, inr, true, false, arith, ◌==◌, Bool-cases}
use vyatta_route_broker.Topic.Decimal.{Bytes}
use vyatta_route_broker.Topic.{TopicMsg, Platform, refused, written, route_topic}

module _ (P : Platform) where
  -- A topic is written only for a new or a deleted route, and the flag tells which.
  route_topic-del :
      (m : TopicMsg) (s : Bytes)
      → (route_topic P m).0 ≡ written s
      → ((m.nlmsg_type ≡ 24) × ((route_topic P m).1 ≡ false))
        ⊎ ((m.nlmsg_type ≡ 25) × ((route_topic P m).1 ≡ true))
  unfolding route_topic
  route_topic-del m s e = elim (Bool-cases (m.nlmsg_type == 24)) [
    | inl a ↦ inl (ground arith, rw a refl)
    | inr a ↦ elim (Bool-cases (m.nlmsg_type == 25)) [
      | inl b ↦ inr (ground arith, rw (a, b) refl)
      | inr b ↦ (let no : (route_topic P m).0 ≡ refused = rw (a, b) refl in absurd (cc (no, e)))
    ]
  ]
