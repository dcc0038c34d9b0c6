-- ===== src/Daemon/Startup.antt =====
-- daemon/broker_main.c: `main` from its options to its poll loop. Each call of the system that may
-- end the daemon is a step; a step that fails prints a message and calls exit(1).
use mathlib.Core.List.{append_assoc}
use mathlib.Core.Path.{subst}
use vyatta_route_broker.Base.{
  ℕ, ◌≡◌, ◌⊎◌, ◌∙◌, refl, ap, sym, inl, inr, Bool, true, false, List, [], ◌∷◌, ◌++◌, map, Option,
  none, some, String, if◌then◌else◌, Bool-cases, Option-cases, All, All-append,
}
use vyatta_route_broker.Daemon.{
  Action, Round, Main, exited, main_loop, ShutAtEnd, main_loop-ShutAtEnd,
}

-- What `getopt_long` returns, with its argument.
pub data Opt : Type 0 where
  debug : Opt
  group_is : String → Opt
  user_is : String → Opt
  unknown : Opt

pub record Settings : Type 0 where
  pub broker_debug : Bool
  pub group : Option String
  pub user : Option String

-- The loop over the options; `none` is the usage and exit(1).
unfoldable pub read_options : List Opt → Settings → Option Settings
read_options [] s = some s
read_options (debug ∷ os) s = read_options os (record s { broker_debug = true })
read_options (group_is g ∷ os) s = read_options os (record s { group = some g })
read_options (user_is u ∷ os) s = read_options os (record s { user = some u })
read_options (unknown ∷ os) s = none

abbrev pub no_settings : Settings
no_settings = record { broker_debug = false; group = none; user = none }

-- What the system answers to each call: an id, or whether it succeeds; `dump_routes` is whether
-- `broker_dump_routes` comes back (Netlink/Dump.antt).
pub record System : Type 0 where
  pub getgrnam : String → Option ℕ
  pub setgroups : ℕ → Bool
  pub getpwnam : String → Option ℕ
  pub setreuid : ℕ → Bool
  pub fpm_socket : Bool
  pub fpm_reuseaddr : Bool
  pub fpm_bind : Bool
  pub fpm_listen : Bool
  pub fpm_accept : Bool
  pub nl_socket : Bool
  pub nl_bind : Bool
  pub nl_filter : Bool
  pub dump_routes : Bool

-- What the daemon has done that others see.
pub data Effect : Type 0 where
  has_groups : ℕ → Effect
  has_uid : ℕ → Effect
  fpm_opened : Effect
  fpm_reusable : Effect
  fpm_bound : Effect
  fpm_listens : Effect
  fpm_connected : Effect
  nl_opened : Effect
  nl_bound : Effect
  nl_filtered : Effect
  library_started : Effect
  routes_dumped : Effect
  served : Action → Effect

-- A call, and what is so behind it if it succeeds.
pub record Step : Type 0 where
  pub succeeds : Bool
  pub effect : List Effect

abbrev pub checked : Bool → Step
checked b = record { succeeds = b; effect = [] }

unfoldable pub group_steps : System → Option String → List Step
group_steps sys none = []
group_steps sys (some g) = elim (sys.getgrnam g) [
  | none ↦ checked false ∷ []
  | some gid ↦ record { succeeds = sys.setgroups gid; effect = has_groups gid ∷ [] } ∷ []
]

unfoldable pub user_steps : System → Option String → List Step
user_steps sys none = []
user_steps sys (some u) = elim (sys.getpwnam u) [
  | none ↦ checked false ∷ []
  | some uid ↦ record { succeeds = sys.setreuid uid; effect = has_uid uid ∷ [] } ∷ []
]

unfoldable pub broker_fpm_socket : System → List Step
broker_fpm_socket sys =
    record { succeeds = sys.fpm_socket; effect = fpm_opened ∷ [] }
    ∷ record { succeeds = sys.fpm_reuseaddr; effect = fpm_reusable ∷ [] }
    ∷ record { succeeds = sys.fpm_bind; effect = fpm_bound ∷ [] }
    ∷ record { succeeds = sys.fpm_listen; effect = fpm_listens ∷ [] }
    ∷ record { succeeds = sys.fpm_accept; effect = fpm_connected ∷ [] }
    ∷ []

unfoldable pub broker_netlink_socket : System → List Step
broker_netlink_socket sys =
    record { succeeds = sys.nl_socket; effect = nl_opened ∷ [] }
    ∷ record { succeeds = sys.nl_bind; effect = nl_bound ∷ [] }
    ∷ record { succeeds = sys.nl_filter; effect = nl_filtered ∷ [] }
    ∷ []

unfoldable pub setup_steps : System → Settings → List Step
unfolding group_steps user_steps broker_fpm_socket broker_netlink_socket
setup_steps sys s =
    group_steps sys s.group
    ++ (user_steps sys s.user ++ (broker_fpm_socket sys ++ broker_netlink_socket sys))

-- `main` ignores the result of `route_broker_init_all`.
unfoldable pub library_steps : System → List Step
library_steps sys =
    record { succeeds = true; effect = library_started ∷ [] }
    ∷ record { succeeds = sys.dump_routes; effect = routes_dumped ∷ [] }
    ∷ []

-- The steps one after the other, and what comes behind them; the first that fails ends the daemon.
unfoldable pub run_steps : List Step → List Effect × Main → List Effect × Main
run_steps [] rest = rest
run_steps (s ∷ ss) rest =
    let more = run_steps ss rest in
    if s.succeeds then (s.effect ++ more.0, more.1) else ([], exited 1)

unfoldable pub main : List Opt → System → List Round → List Effect × Main
unfolding read_options setup_steps library_steps run_steps
main opts sys rounds =
    let done = main_loop rounds in
    elim (read_options opts no_settings) [
      | none ↦ ([], exited 1)
      | some s ↦
          run_steps (setup_steps sys s) (run_steps (library_steps sys) (map served done.0, done.1))
    ]

-- Neither a start nor a use of the library.
abbrev pub early : Effect → Bool
early library_started = false
early routes_dumped = false
early (served a) = false
early (has_groups g) = true
early (has_uid u) = true
early fpm_opened = true
early fpm_reusable = true
early fpm_bound = true
early fpm_listens = true
early fpm_connected = true
early nl_opened = true
early nl_bound = true
early nl_filtered = true

abbrev pub Early : Effect → Type 0
Early e = early e ≡ true

-- No socket yet, and early.
abbrev pub sheltered : Effect → Bool
sheltered (has_groups g) = true
sheltered (has_uid u) = true
sheltered fpm_opened = false
sheltered fpm_reusable = false
sheltered fpm_bound = false
sheltered fpm_listens = false
sheltered fpm_connected = false
sheltered nl_opened = false
sheltered nl_bound = false
sheltered nl_filtered = false
sheltered library_started = false
sheltered routes_dumped = false
sheltered (served a) = false

abbrev pub Sheltered : Effect → Type 0
Sheltered e = sheltered e ≡ true

abbrev Each : (Effect → Type 0) → Step → Type 0
Each P s = All P s.effect

step_done :
    (s : Step) (ss : List Step) (rest : List Effect × Main)
    → s.succeeds ≡ true
    → run_steps (s ∷ ss) rest ≡ (s.effect ++ (run_steps ss rest).0, (run_steps ss rest).1)
unfolding run_steps
step_done s ss rest e = rw e refl

step_failed :
    (s : Step) (ss : List Step) (rest : List Effect × Main)
    → s.succeeds ≡ false
    → run_steps (s ∷ ss) rest ≡ ([], exited 1)
unfolding run_steps
step_failed s ss rest e = rw e refl

-- The steps ended the daemon, or what comes behind them was reached.
abbrev Reaches : (Effect → Type 0) → List Effect × Main → List Effect × Main → Type 0
Reaches P rest run =
    (es : List Effect) × All P es × ((run ≡ (es, exited 1)) ⊎ (run ≡ (es ++ rest.0, rest.1)))

run_steps-Reaches :
    (P : Effect → Type 0) (ss : List Step) (rest : List Effect × Main)
    → All (Each P) ss
    → Reaches P rest (run_steps ss rest)
unfolding run_steps
run_steps-Reaches P [] rest p = ([], tt, inr refl)
run_steps-Reaches P (s ∷ ss) rest (h, p) = elim (Bool-cases s.succeeds) [
  | inr e ↦ ([], tt, inl (step_failed s ss rest e))
  | inl e ↦
      let (es, q, r) = run_steps-Reaches P ss rest p in
      (
        s.effect ++ es,
        All-append P s.effect es h q,
        elim r [
          | inl r₁ ↦ inl (step_done s ss rest e ∙ ap (λ x. (s.effect ++ x.0, x.1)) r₁)
          | inr r₁ ↦ inr (
              step_done s ss rest e
              ∙ ap (λ x. (s.effect ++ x.0, x.1)) r₁
              ∙ ap (λ x. (x, rest.1)) (sym (append_assoc s.effect es rest.0)))
        ],
      )
]

group_steps-Each :
    (P : Effect → Type 0) (sys : System) (g : Option String)
    → ((i : ℕ) → P (has_groups i))
    → All (Each P) (group_steps sys g)
unfolding group_steps
group_steps-Each P sys none h = tt
group_steps-Each P sys (some g) h = elim (Option-cases (sys.getgrnam g)) [
  | inl e ↦ rw (All, e) (tt, tt)
  | inr (i, e) ↦ rw (All, e) ((h i, tt), tt)
]

user_steps-Early : (sys : System) (u : Option String) → All (Each Early) (user_steps sys u)
unfolding user_steps
user_steps-Early sys none = tt
user_steps-Early sys (some u) = elim (Option-cases (sys.getpwnam u)) [
  | inl e ↦ rw (All, e) (tt, tt)
  | inr (i, e) ↦ rw (All, e) ((refl, tt), tt)
]

setup_steps-Early : (sys : System) (s : Settings) → All (Each Early) (setup_steps sys s)
unfolding setup_steps broker_fpm_socket broker_netlink_socket
setup_steps-Early sys s =
    All-append (Each Early) (group_steps sys s.group) _
      (group_steps-Each Early sys s.group (λ i. refl))
      (All-append (Each Early) (user_steps sys s.user) _ (user_steps-Early sys s.user) (
        (refl, tt),
        (
          (refl, tt),
          ((refl, tt), ((refl, tt), ((refl, tt), ((refl, tt), ((refl, tt), ((refl, tt), tt)))))),
        ),
      ))

-- The library was neither started nor used; or it was started and the dump of the kernel's routes
-- ended the daemon; or it was started, the routes were dumped, and the loop ran.
abbrev pub Lives : List Action × Main → List Effect × Main → Type 0
Lives loop run =
    (es : List Effect) × (All Early es)
    × ((run ≡ (es, exited 1))
        ⊎ ((run ≡ (es ++ (library_started ∷ []), exited 1))
            ⊎ ((run ≡ (es ++ (library_started ∷ routes_dumped ∷ map served loop.0), loop.1))
                × ShutAtEnd loop)))

Reaches-Lives :
    (sys : System) (loop : List Action × Main) (run : List Effect × Main)
    → ShutAtEnd loop
    → Reaches Early (run_steps (library_steps sys) (map served loop.0, loop.1)) run
    → Lives loop run
unfolding library_steps run_steps
Reaches-Lives sys loop run d (es, q, inl r) = (es, q, inl r)
Reaches-Lives sys loop run d (es, q, inr r) = elim (Bool-cases sys.dump_routes) [
  | inl e ↦ (es, q, inr (inr (r ∙ rw e refl, d)))
  | inr e ↦ (es, q, inr (inl (r ∙ rw e refl)))
]

-- Whatever the options, the answers of the system and the rounds of the loop: the daemon fails before
-- the library is started or used; or the dump of the kernel's routes fails, and it ends with the
-- library started and never shut down; or what it does before is followed by the start, the dump and
-- what the poll loop does, the loop's end is the daemon's, and the library is then shut down exactly
-- once if the daemon ends, as its last action, and not at all while it waits.
pub main-Lives :
    (opts : List Opt) (sys : System) (rounds : List Round)
    → Lives (main_loop rounds) (main opts sys rounds)
unfolding main
main-Lives opts sys rounds = elim (Option-cases (read_options opts no_settings)) [
  | inl e ↦ ([], tt, inl (rw (main, e) refl))
  | inr (s, e) ↦
      rw (main, e)
        (Reaches-Lives sys (main_loop rounds) _ (main_loop-ShutAtEnd rounds) (
          run_steps-Reaches Early (setup_steps sys s)
            (run_steps (library_steps sys) (map served (main_loop rounds).0, (main_loop rounds).1))
            (setup_steps-Early sys s)))
]

run_steps-append :
    (xs ys : List Step) (rest : List Effect × Main)
    → run_steps (xs ++ ys) rest ≡ run_steps xs (run_steps ys rest)
unfolding run_steps
run_steps-append [] ys rest = refl
run_steps-append (x ∷ xs) ys rest = elim (Bool-cases x.succeeds) [
  | inr e ↦ step_failed x (xs ++ ys) rest e ∙ sym (step_failed x xs (run_steps ys rest) e)
  | inl e ↦
      step_done x (xs ++ ys) rest e
      ∙ ap (λ r. (x.effect ++ r.0, r.1)) (run_steps-append xs ys rest)
      ∙ sym (step_done x xs (run_steps ys rest) e)
]

-- The user is known to the system, the change to it succeeds, and it is what comes first.
abbrev Changes : System → String → List Effect → Type 0
Changes sys u es =
    (uid : ℕ) × (post : List Effect) × (sys.getpwnam u ≡ some uid)
    × (sys.setreuid uid ≡ true)
    × (es ≡ has_uid uid ∷ post)

user_unknown :
    (sys : System) (u : String)
    → sys.getpwnam u ≡ none
    → user_steps sys (some u) ≡ checked false ∷ []
unfolding user_steps
user_unknown sys u e = rw (user_steps, e) refl

user_known :
    (sys : System) (u : String) (uid : ℕ)
    → sys.getpwnam u ≡ some uid
    → user_steps sys (some u)
      ≡ record { succeeds = sys.setreuid uid; effect = has_uid uid ∷ [] } ∷ []
unfolding user_steps
user_known sys u uid e = rw (user_steps, e) refl

user_steps-Changes :
    (sys : System) (u : String) (more : List Step) (rest : List Effect × Main)
    → ((run_steps (user_steps sys (some u) ++ more) rest).0 ≡ [])
      ⊎ Changes sys u (run_steps (user_steps sys (some u) ++ more) rest).0
user_steps-Changes sys u more rest = elim (Option-cases (sys.getpwnam u)) [
  | inl e ↦
      rw (user_unknown sys u e) (inl (ap (λ x. x.0) (step_failed (checked false) more rest refl)))
  | inr (uid, e) ↦ rw (user_known sys u uid e) (
      let change : Step = record { succeeds = sys.setreuid uid; effect = has_uid uid ∷ [] } in
      elim (Bool-cases (sys.setreuid uid)) [
        | inr f ↦ inl (ap (λ x. x.0) (step_failed change more rest f))
        | inl f ↦
            inr (uid, (run_steps more rest).0, e, f, ap (λ x. x.0) (step_done change more rest f))
      ])
]

-- Nothing that needs shelter is done, or only behind the change of user.
abbrev pub ActsAs : System → String → List Effect → Type 0
ActsAs sys u es =
    All Sheltered es
    ⊎ ((pre : List Effect) × (uid : ℕ) × (post : List Effect) × All Sheltered pre
        × (sys.getpwnam u ≡ some uid)
        × (sys.setreuid uid ≡ true)
        × (es ≡ pre ++ (has_uid uid ∷ post)))

Reaches-ActsAs :
    (sys : System) (u : String) (rest run : List Effect × Main)
    → Reaches Sheltered rest run
    → (rest.0 ≡ []) ⊎ Changes sys u rest.0
    → ActsAs sys u run.0
Reaches-ActsAs sys u rest run (es, q, inl r) c =
    inl (subst (All Sheltered) (sym (ap (λ x. x.0) r)) q)
Reaches-ActsAs sys u rest run (es, q, inr r) (inl c) = inl (
    subst (All Sheltered) (sym (ap (λ x. x.0) r ∙ ap (◌++◌ es) c))
      (All-append Sheltered es [] q tt))
Reaches-ActsAs sys u rest run (es, q, inr r) (inr (uid, post, p, f, c)) =
    inr (es, uid, post, q, p, f, ap (λ x. x.0) r ∙ ap (◌++◌ es) c)

-- If the options are accepted and name a user, then the daemon either opens no socket and never
-- starts or uses the library, or it is known to the system as that user, has changed to it, and does
-- both only behind that change, whatever else the system answers and the loop's rounds bring.
pub main-ActsAs :
    (opts : List Opt) (sys : System) (rounds : List Round) (s : Settings) (u : String)
    → read_options opts no_settings ≡ some s
    → s.user ≡ some u
    → ActsAs sys u (main opts sys rounds).0
unfolding main setup_steps
main-ActsAs opts sys rounds s u e n =
    rw (main, e)
      (let rest =
          run_steps (library_steps sys) (map served (main_loop rounds).0, (main_loop rounds).1) in
        let more = broker_fpm_socket sys ++ broker_netlink_socket sys in
        rw (n, run_steps-append (group_steps sys s.group) (user_steps sys (some u) ++ more) rest)
          (Reaches-ActsAs sys u (run_steps (user_steps sys (some u) ++ more) rest) _
            (run_steps-Reaches Sheltered (group_steps sys s.group) _
              (group_steps-Each Sheltered sys s.group (λ i. refl)))
            (user_steps-Changes sys u more rest)))
