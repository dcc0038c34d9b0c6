-- ===== src/Dataplane/Message.antt =====
-- broker/route_broker_dp_ctrl.c: the messages on the control socket.
use text.Mathlib.Text.{◌==◌ as str_eq}
use text.Mathlib.TextEquality.{eq_iff}
use vyatta_route_broker.Base.{
  ℕ, ◌⊎◌, ◌∙◌, sym, inl, inr, Bool-cases, ◌≡◌, ◌≢◌, refl, not, List, [], ◌∷◌, Option, none, some,
  String, arith, ◌==◌, if◌then◌else◌,
}

-- A frame of a message of zeromq: what `zframe_strdup` makes of it, its size, and the number that
-- its first four bytes are in memory.
pub record Frame : Type 0 where
  pub text : String
  pub size : ℕ
  pub word : ℕ

-- `enum rib_broker_dp_request`
pub data Request : Type 0 where
  req_error req_connect req_keepalive : Request

-- The string of the first frame, `none` if there is no frame, and the frames that are left.
zmsg_popstr : List Frame → Option String × List Frame
zmsg_popstr [] = (none, [])
zmsg_popstr (f ∷ fs) = (some f.text, fs)

-- `none` is -1: there is no frame, or its size is not that of a `uint32_t`.
zmsg_popu32 : List Frame → Option ℕ × List Frame
zmsg_popu32 [] = (none, [])
zmsg_popu32 (f ∷ fs) = ((if f.size == 4 then some f.word else none), fs)

broker_dp_ctrl_msg_request : Option String → Request
broker_dp_ctrl_msg_request none = req_error
broker_dp_ctrl_msg_request (some msg_type) =
    if str_eq msg_type "CONNECT"
    then req_connect
    else if str_eq msg_type "KEEPALIVE"
    then req_keepalive
    else req_error

-- Behind the type of the request: the version has to be 0, and the uuid has to be there.
parse_uuid : Request → Option ℕ × List Frame → Request × Option String
unfolding zmsg_popstr
parse_uuid req (none, msg) = (req_error, none)
parse_uuid req (some proto_version, msg) =
    if not (proto_version == 0)
    then (req_error, none)
    else elim ((zmsg_popstr msg).0) [ none ↦ (req_error, none) | some uuid ↦ (req, some uuid) ]

pub parse_request : Request → List Frame → Request × Option String
unfolding parse_uuid zmsg_popu32
parse_request req_error msg = (req_error, none)
parse_request req_connect msg = parse_uuid req_connect (zmsg_popu32 msg)
parse_request req_keepalive msg = parse_uuid req_keepalive (zmsg_popu32 msg)

-- The request, and the uuid that it is for.
unfoldable pub broker_dp_ctrl_msg_parse : List Frame → Request × Option String
unfolding parse_request zmsg_popstr broker_dp_ctrl_msg_request
broker_dp_ctrl_msg_parse msg =
    parse_request (broker_dp_ctrl_msg_request (zmsg_popstr msg).0) (zmsg_popstr msg).1

-- The name by which a request is sent.
abbrev pub request_name : Request → String
request_name req_error = ""
request_name req_connect = "CONNECT"
request_name req_keepalive = "KEEPALIVE"

-- The frames of a request, as the comment of the source lists them, with the version 0, which it does
-- not; others may follow.
pub record IsRequest (req : Request) (uuid : String) (msg : List Frame) : Type 0 where
  pub named : Frame
  pub version : Frame
  pub id : Frame
  pub more : List Frame
  pub layout : msg ≡ named ∷ version ∷ id ∷ more
  pub name_is : named.text ≡ request_name req
  pub version_size : version.size ≡ 4
  pub version_zero : version.word ≡ 0
  pub uuid_is : id.text ≡ uuid

-- A message with the frames of a request is read as that request.
parse_of-IsRequest :
    (req : Request) (uuid : String) (msg : List Frame)
    → req ≢ req_error
    → IsRequest req uuid msg
    → broker_dp_ctrl_msg_parse msg ≡ (req, some uuid)
unfolding broker_dp_ctrl_msg_parse
parse_of-IsRequest req_error uuid msg ne r = absurd (ne refl)
parse_of-IsRequest req_connect uuid msg ne r =
    rw (r.layout, r.name_is, r.version_size, r.version_zero, r.uuid_is) refl
parse_of-IsRequest req_keepalive uuid msg ne r =
    rw (r.layout, r.name_is, r.version_size, r.version_zero, r.uuid_is) refl

named_of-request :
    (text : String) (req : Request)
    → req ≢ req_error
    → broker_dp_ctrl_msg_request (some text) ≡ req
    → text ≡ request_name req
unfolding broker_dp_ctrl_msg_request
named_of-request text req_error ne e = absurd (ne refl)
named_of-request text req_connect ne e = ground (arith, eq_iff text "CONNECT")
named_of-request text req_keepalive ne e =
    ground (arith, eq_iff text "CONNECT", eq_iff text "KEEPALIVE")

-- A message that is read as a request is one.
parse-IsRequest :
    (msg : List Frame) (req : Request) (uuid : String)
    → req ≢ req_error
    → broker_dp_ctrl_msg_parse msg ≡ (req, some uuid)
    → IsRequest req uuid msg
unfolding broker_dp_ctrl_msg_parse
parse-IsRequest [] req uuid ne e = absurd (ground arith)
parse-IsRequest (a ∷ []) req uuid ne e = absurd (ground arith)
parse-IsRequest (a ∷ b ∷ []) req uuid ne e = absurd (ground arith)
parse-IsRequest (a ∷ b ∷ c ∷ more) req uuid ne e = record {
  named = a;
  version = b;
  id = c;
  more = more;
  layout = refl;
  name_is = named_of-request a.text req ne (ground arith);
  version_size = ground arith;
  version_zero = ground arith;
  uuid_is = ground arith;
}

uuid_found :
    (req : Request) (v : Option ℕ × List Frame)
    → (parse_uuid req v ≡ (req_error, none))
      ⊎ ((uuid : String) × (parse_uuid req v ≡ (req, some uuid)))
unfolding parse_uuid zmsg_popstr
uuid_found req (none, msg) = inl refl
uuid_found req (some v, []) = elim (Bool-cases (v == 0)) [
  | inl e ↦ inl (rw e refl)
  | inr e ↦ inl (rw e refl)
]
uuid_found req (some v, f ∷ fs) = elim (Bool-cases (v == 0)) [
  | inl e ↦ inr (f.text, rw e refl)
  | inr e ↦ inl (rw e refl)
]

-- A request was found, with its uuid.
abbrev pub Found : Request × Option String → Type 0
Found r = (req : Request) × (uuid : String) × (req ≢ req_error) × (r ≡ (req, some uuid))

parse_request-Found :
    (req : Request) (msg : List Frame)
    → (parse_request req msg ≡ (req_error, none)) ⊎ Found (parse_request req msg)
unfolding parse_request
parse_request-Found req_error msg = inl refl
parse_request-Found req_connect msg = elim (uuid_found req_connect (zmsg_popu32 msg)) [
  | inl e ↦ inl e
  | inr (uuid, e) ↦ inr (req_connect, uuid, λ x. cc x, e)
]
parse_request-Found req_keepalive msg = elim (uuid_found req_keepalive (zmsg_popu32 msg)) [
  | inl e ↦ inl e
  | inr (uuid, e) ↦ inr (req_keepalive, uuid, λ x. cc x, e)
]

-- Every message on the control socket is either the frames of a CONNECT or of a KEEPALIVE of version
-- 0, with the uuid as the third, and is read as that request for that uuid; or it is neither, for no
-- uuid, and an error is returned.
pub broker_dp_ctrl_msg_parse-IsRequest :
    (msg : List Frame)
    → ((req : Request) × (uuid : String) × (req ≢ req_error)
        × IsRequest req uuid msg
        × (broker_dp_ctrl_msg_parse msg ≡ (req, some uuid)))
      ⊎ ((broker_dp_ctrl_msg_parse msg ≡ (req_error, none))
          × ((req : Request) (uuid : String) → req ≢ req_error → ¬ (IsRequest req uuid msg)))
unfolding broker_dp_ctrl_msg_parse
broker_dp_ctrl_msg_parse-IsRequest msg =
    elim (parse_request-Found (broker_dp_ctrl_msg_request (zmsg_popstr msg).0)
      (zmsg_popstr msg).1) [
        | inl e ↦ inr (e, λ req uuid ne r. cc (sym e ∙ parse_of-IsRequest req uuid msg ne r))
        | inr (req, uuid, ne, e) ↦ inl (req, uuid, ne, parse-IsRequest msg req uuid ne e, e)
      ]
