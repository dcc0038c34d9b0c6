-- ===== src/Daemon.antt =====
-- daemon/broker_main.c: the poll loop of `main`.
pub mod Startup
mod Tests
use mathlib.Core.List.{append_assoc}
use mathlib.Core.Path.{subst}
use vyatta_route_broker.Base.{
  ℕ, zero, suc, ◌+◌, ◌≡◌, ◌∙◌, refl, ap, sym, inl, inr, Bool, true, false, List, [], ◌∷◌, ◌++◌,
  Option, none, some, String, arith, if◌then◌else◌, ltb, Bool-cases,
}

-- What `poll` reports of a descriptor: nothing, POLLIN alone, or anything else.
pub data Revents : Type 0 where
  quiet pollin bad : Revents

-- The sign of what `broker_process_nl` or `broker_process_fpm` returns.
pub data Got : Type 0 where
  message closed failed : Got

-- One round: whether `poll` succeeds, what it reports of both descriptors, and what is read.
pub record Round : Type 0 where
  pub polled : Bool
  pub nl_revents : Revents
  pub nl_got : Got
  pub fpm_revents : Revents
  pub fpm_got : Got

pub data Action : Type 0 where
  process_nl process_fpm shutdown_all : Action

-- What the loop does next.
pub data Next : Type 0 where
  goes_on breaks fails : Next

-- How `main` stands: it waits in `poll`, or it has ended with an exit code.
pub data Main : Type 0 where
  waits : Main
  exited : ℕ → Main

-- The part of a round for one descriptor.
unfoldable pub serve : Action → Revents → Got → List Action × Next
serve job quiet g = ([], goes_on)
serve job bad g = ([], fails)
serve job pollin message = (job ∷ [], goes_on)
serve job pollin closed = (job ∷ [], breaks)
serve job pollin failed = (job ∷ [], fails)

-- The second descriptor is served only if the loop goes on behind the first.
abbrev and_then : List Action × Next → List Action × Next → List Action × Next
and_then (done, goes_on) second = (done ++ second.0, second.1)
and_then (done, breaks) second = (done, breaks)
and_then (done, fails) second = (done, fails)

-- The kernel first, then the routing daemon.
unfoldable pub serve_both : Round → List Action × Next
unfolding serve
serve_both r =
    and_then (serve process_nl r.nl_revents r.nl_got) (serve process_fpm r.fpm_revents r.fpm_got)

-- Behind a failure and behind the loop the library is shut down.
abbrev end_round : List Action × Next → List Action × Main → List Action × Main
end_round (done, goes_on) rest = (done ++ rest.0, rest.1)
end_round (done, breaks) rest = (done ++ (shutdown_all ∷ []), exited 0)
end_round (done, fails) rest = (done ++ (shutdown_all ∷ []), exited 1)

unfoldable pub main_loop : List Round → List Action × Main
unfolding serve_both
main_loop [] = ([], waits)
main_loop (r ∷ rs) =
    let rest = main_loop rs in
    if r.polled then end_round (serve_both r) rest else (shutdown_all ∷ [], exited 1)

abbrev pub shutdowns : List Action → ℕ
shutdowns [] = 0
shutdowns (process_nl ∷ as') = shutdowns as'
shutdowns (process_fpm ∷ as') = shutdowns as'
shutdowns (shutdown_all ∷ as') = 1 + shutdowns as'

shutdowns-append : (xs ys : List Action) → shutdowns (xs ++ ys) ≡ shutdowns xs + shutdowns ys
shutdowns-append [] ys = omega arith
shutdowns-append (process_nl ∷ xs) ys = shutdowns-append xs ys
shutdowns-append (process_fpm ∷ xs) ys = shutdowns-append xs ys
shutdowns-append (shutdown_all ∷ xs) ys = omega (arith, shutdowns-append xs ys)

serve-nl : (v : Revents) (g : Got) → shutdowns (serve process_nl v g).0 ≡ 0
unfolding serve
serve-nl quiet g = refl
serve-nl bad g = refl
serve-nl pollin message = refl
serve-nl pollin closed = refl
serve-nl pollin failed = refl

serve-fpm : (v : Revents) (g : Got) → shutdowns (serve process_fpm v g).0 ≡ 0
unfolding serve
serve-fpm quiet g = refl
serve-fpm bad g = refl
serve-fpm pollin message = refl
serve-fpm pollin closed = refl
serve-fpm pollin failed = refl

and_then-shutdowns :
    (a b : List Action × Next)
    → shutdowns a.0 ≡ 0
    → shutdowns b.0 ≡ 0
    → shutdowns (and_then a b).0 ≡ 0
and_then-shutdowns (xs, goes_on) b p q = shutdowns-append xs b.0 ∙ omega (arith, p, q)
and_then-shutdowns (xs, breaks) b p q = p
and_then-shutdowns (xs, fails) b p q = p

serve_both-shutdowns : (r : Round) → shutdowns (serve_both r).0 ≡ 0
unfolding serve_both
serve_both-shutdowns r =
    and_then-shutdowns (serve process_nl r.nl_revents r.nl_got)
      (serve process_fpm r.fpm_revents r.fpm_got) (serve-nl r.nl_revents r.nl_got)
      (serve-fpm r.fpm_revents r.fpm_got)

-- The library is shut down as the last action of a run that has ended, and at no other time.
abbrev pub ShutAtEnd : List Action × Main → Type 0
ShutAtEnd (done, waits) = shutdowns done ≡ 0
ShutAtEnd (done, exited code) =
    (work : List Action) × (done ≡ work ++ (shutdown_all ∷ [])) × (shutdowns work ≡ 0)

end_round-ShutAtEnd :
    (a : List Action × Next) (rest : List Action × Main)
    → shutdowns a.0 ≡ 0
    → ShutAtEnd rest
    → ShutAtEnd (end_round a rest)
end_round-ShutAtEnd (xs, goes_on) (ys, waits) p q = shutdowns-append xs ys ∙ omega (arith, p, q)
end_round-ShutAtEnd (xs, goes_on) (ys, exited code) p q = (
  xs ++ q.0,
  ap (◌++◌ xs) q.1 ∙ sym (append_assoc xs q.0 (shutdown_all ∷ [])),
  shutdowns-append xs q.0 ∙ omega (arith, p, q.2),
)
end_round-ShutAtEnd (xs, breaks) rest p q = (xs, refl, p)
end_round-ShutAtEnd (xs, fails) rest p q = (xs, refl, p)

polled_round :
    (r : Round) (rs : List Round)
    → r.polled ≡ true
    → main_loop (r ∷ rs) ≡ end_round (serve_both r) (main_loop rs)
unfolding main_loop
polled_round r rs e = rw e refl

unpolled_round :
    (r : Round) (rs : List Round)
    → r.polled ≡ false
    → main_loop (r ∷ rs) ≡ (shutdown_all ∷ [], exited 1)
unfolding main_loop
unpolled_round r rs e = rw e refl

pub main_loop-ShutAtEnd : (rs : List Round) → ShutAtEnd (main_loop rs)
unfolding main_loop
main_loop-ShutAtEnd [] = refl
main_loop-ShutAtEnd (r ∷ rs) = elim (Bool-cases r.polled) [
  | inl e ↦ subst ShutAtEnd (sym (polled_round r rs e)) (
      end_round-ShutAtEnd (serve_both r) (main_loop rs) (serve_both-shutdowns r)
        (main_loop-ShutAtEnd rs))
  | inr e ↦ subst ShutAtEnd (sym (unpolled_round r rs e)) ([], refl, refl)
]
