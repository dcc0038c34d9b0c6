-- ===== src/Daemon/Tests.antt =====
-- A run of the daemon: a message of the kernel, then the end of the stream of the routing daemon.
use vyatta_route_broker.Base.{◌≡◌, refl, true, false, some, [], ◌∷◌, List}
use vyatta_route_broker.Daemon.{
  Round, quiet, pollin, message, closed, process_nl, process_fpm, shutdown_all, exited, main_loop,
  serve_both, serve,
}
use vyatta_route_broker.Daemon.Startup.{
  Opt, group_is, user_is, Settings, read_options, no_settings, System, has_groups, has_uid,
  fpm_opened, fpm_reusable, fpm_bound, fpm_listens, fpm_connected, nl_opened, nl_bound, nl_filtered,
  library_started, routes_dumped, served, group_steps, user_steps, broker_fpm_socket,
  broker_netlink_socket, setup_steps, library_steps, run_steps, main, Lives, ActsAs, main-Lives,
  main-ActsAs,
}

abbrev two_rounds : List Round
two_rounds =
    record {
      polled = true;
      nl_revents = pollin;
      nl_got = message;
      fpm_revents = quiet;
      fpm_got = message;
    }
    ∷ record {
      polled = true;
      nl_revents = quiet;
      nl_got = message;
      fpm_revents = pollin;
      fpm_got = closed;
    }
    ∷ []

two_rounds-run : main_loop two_rounds ≡ (process_nl ∷ process_fpm ∷ shutdown_all ∷ [], exited 0)
unfolding main_loop serve_both serve
two_rounds-run = refl

-- A system on which every call succeeds, and knows one group and one user.
abbrev willing : System
willing = record {
  getgrnam = λ g. some 7;
  setgroups = λ i. true;
  getpwnam = λ u. some 5;
  setreuid = λ i. true;
  fpm_socket = true;
  fpm_reuseaddr = true;
  fpm_bind = true;
  fpm_listen = true;
  fpm_accept = true;
  nl_socket = true;
  nl_bind = true;
  nl_filter = true;
  dump_routes = true;
}

abbrev two_options : List Opt
two_options = user_is "routing" ∷ group_is "vyatta" ∷ []

abbrev two_settings : Settings
two_settings = record { broker_debug = false; group = some "vyatta"; user = some "routing" }

two_options-read : read_options two_options no_settings ≡ some two_settings
unfolding read_options
two_options-read = refl

main-run : main two_options willing two_rounds ≡ (
  has_groups 7
      ∷ has_uid 5
      ∷ fpm_opened
      ∷ fpm_reusable
      ∷ fpm_bound
      ∷ fpm_listens
      ∷ fpm_connected
      ∷ nl_opened
      ∷ nl_bound
      ∷ nl_filtered
      ∷ library_started
      ∷ routes_dumped
      ∷ served process_nl
      ∷ served process_fpm
      ∷ served shutdown_all
      ∷ [],
  exited 0,
)
unfolding main run_steps library_steps setup_steps read_options group_steps user_steps
    broker_fpm_socket broker_netlink_socket main_loop serve_both serve
main-run = refl

main-Lives_example : Lives (main_loop two_rounds) (main two_options willing two_rounds)
main-Lives_example = main-Lives two_options willing two_rounds

main-ActsAs_example : ActsAs willing "routing" (main two_options willing two_rounds).0
main-ActsAs_example =
    main-ActsAs two_options willing two_rounds two_settings "routing" two_options-read refl
