-- ===== src/Route/InitAll.antt =====
-- broker/route_broker.c: `object_broker_init_all`, and `route_broker_init_all`, which calls it for
-- routes in netlink messages.
use vyatta_route_broker.Base.{
  ℕ, ◌≡◌, inl, inr, Bool, true, false, ◌&&◌, ◌||◌, not, Option, none, some, arith, ◌==◌,
  if◌then◌else◌, Bool-cases,
}
use vyatta_route_broker.Route.Setup.{ClientInit, BrokerInit, object_broker_init_all_einval}

-- -EINVAL, a failed `assert`, or the results of both clients in one, which is 0 for `success true`.
pub data InitRc : Type 0 where
  einval aborted : InitRc
  success : Bool → InitRc

-- Whether the calls succeed: `route_broker_init`, `route_broker_dataplane_ctrl_init` and
-- `route_broker_kernel_init`.
pub record Starts : Type 0 where
  pub brokers : Bool
  pub dataplane : Bool
  pub kernel : Bool

unfoldable pub object_broker_init_all :
    Starts → Option BrokerInit → ℕ → ClientInit → ClientInit → InitRc
object_broker_init_all s init num_clients first second =
    if object_broker_init_all_einval init num_clients first second
    then einval
    else if not s.brokers
    then aborted
    else success (s.dataplane && (not (num_clients == 2) || s.kernel))

-- `struct route_broker_init`: whether kernel_publish is not NULL.
pub record RouteInit : Type 0 where
  pub kernel_publish : Bool

-- `{ 0 }`: the type of a cleared client is OB_CLIENT_CB.
abbrev blank_client : ClientInit
blank_client = record { is_dp_zsock = false; cfg_file = false; client_publish = false }

abbrev with_kernel : Option RouteInit → Bool
with_kernel none = false
with_kernel (some init) = init.kernel_publish

unfoldable pub route_broker_init_all : Starts → Option RouteInit → InitRc
unfolding object_broker_init_all
route_broker_init_all s init =
    let obj_init : BrokerInit = record { topic_gen = true; copy_obj = true; free_obj = true } in
    let first : ClientInit = record {
      is_dp_zsock = true;
      cfg_file = true;
      client_publish = true;
    } in
    if with_kernel init
    then object_broker_init_all s (some obj_init) 2 first
        (record blank_client { is_dp_zsock = false; client_publish = true })
    else object_broker_init_all s (some obj_init) 1 first blank_client

-- The arguments that route_broker_init_all builds are never refused, with and without the
-- client of the kernel. When the brokers start, it succeeds exactly if the control thread of the
-- dataplanes starts and, if there is a callback for the kernel, the thread of the kernel does.
route_broker_init_all-success :
    (s : Starts) (init : Option RouteInit)
    → s.brokers ≡ true
    → route_broker_init_all s init ≡ success (s.dataplane && (not (with_kernel init) || s.kernel))
unfolding route_broker_init_all object_broker_init_all_einval
route_broker_init_all-success s init b = elim (Bool-cases (with_kernel init)) [
  | inl e ↦ ground arith
  | inr e ↦ ground arith
]
