-- ===== src/Service/Program.antt =====
-- What the agent's program leaves open when it ends.
use phonekey.Prelude.{
  ℕ, ◌+◌, ◌≤◌, ◌≡◌, refl, ap, ap₂, ◌∙◌, arith, Bool, true, false, List, [], ◌∷◌, ◌++◌, append-nil,
  Option, if◌then◌else◌,
}
use phonekey.Prelude.Counting.{occurrences}
use phonekey.Tcp.{Effect, Race, none_accepted}
use phonekey.Tcp.Accounting.{opens, closes}
use phonekey.Tcp.Calm.{race_count, Ready, calm-lost_by_close}
use phonekey.Service.Accounts.{dropped}
use phonekey.Engine.{HandleEffect}
use phonekey.Engine.Releases.{opened_providers, closed_providers, made_hashes, destroyed_hashes}
use phonekey.Service.{
  Service, Lived, new_service, start, Happening, starts, stops, happen, live, destroy_service,
  main_program,
}
use phonekey.Service.Releases.{start_count, race_total, calm_life, service_releases}

-- Every provider is closed, every hash object destroyed, and every socket closed but for some.
abbrev pub AllReleased : List ℕ → List Effect → List HandleEffect → Type 0
AllReleased gone sockets handles =
    ((h : ℕ) → occurrences h (opened_providers handles) ≡ occurrences h (closed_providers handles))
    × (made_hashes handles ≡ destroyed_hashes handles)
    × ((s : ℕ) → opens s sockets ≡ closes s sockets + occurrences s gone)

released :
    (happenings : List Happening) (end : Service) (sockets : List Effect)
    (handles : List HandleEffect)
    → live happenings new_service ≡ (end, sockets, handles)
    → start_count happenings ≤ 1
    → AllReleased
        (dropped happenings new_service)
        (sockets ++ (destroy_service none_accepted end).0)
        (handles ++ (destroy_service none_accepted end).1)
released happenings end sockets handles e few =
    let (balance, none_lost, hashed, closed, quiet) =
      service_releases happenings end sockets handles none_accepted e in
    let gone = dropped happenings new_service in
    (
      λ h. omega (arith, balance h, ap (occurrences h) (none_lost few)),
      hashed,
      λ s.
          closed s
          ∙ ap
              (λ xs.
                closes s (sockets ++ (destroy_service none_accepted end).0)
                + occurrences s (gone ++ xs))
              (calm-lost_by_close end.transport)
          ∙ ap
              (λ xs. closes s (sockets ++ (destroy_service none_accepted end).0) + occurrences s xs)
              (append-nil gone),
    )

start_count-append :
    (xs ys : List Happening) → start_count (xs ++ ys) ≡ start_count xs + start_count ys
start_count-append [] ys = omega arith
start_count-append (x ∷ xs) ys = omega (arith, start_count-append xs ys)

either_end :
    (started : Bool) (gone gone' : List ℕ) (run failed : ℕ × List Effect × List HandleEffect)
    → AllReleased gone run.1 run.2
    → AllReleased gone' failed.1 failed.2
    → AllReleased
        (if started then gone else gone')
        (if started then run else failed).1
        (if started then run else failed).2
either_end true gone gone' run failed h k = h
either_end false gone gone' run failed h k = k

-- The calls from the constructor to the destructor.
abbrev whole_life :
    Option ℕ → Option ℕ → Option ℕ → Option ℕ → Bool → Bool → List Happening → List Happening
whole_life ecdsa rng sha socket bound listens later =
    starts none_accepted ecdsa rng sha socket bound listens ∷ later

module _ (ecdsa rng sha socket : Option ℕ) (bound listens : Bool) where
  abbrev begun : Lived
  begun = (start none_accepted ecdsa rng sha socket bound listens new_service).1

  failed_start :
      AllReleased
        (dropped (whole_life ecdsa rng sha socket bound listens []) new_service)
        (begun.1 ++ (destroy_service none_accepted begun.0).0)
        (begun.2 ++ (destroy_service none_accepted begun.0).1)
  failed_start =
      released (whole_life ecdsa rng sha socket bound listens []) begun.0 begun.1 begun.2
        (unfold live happen in
          ap₂ (λ xs ys. (begun.0, xs, ys)) (append-nil begun.1) (append-nil begun.2))
        (omega arith)

  module _ (waiting : List Happening) (race : Race) (quiet : start_count waiting ≡ 0) where
    abbrev rest : Lived
    rest = live (waiting ++ (stops race ∷ [])) begun.0

    whole_run :
        AllReleased
          (dropped
            (whole_life ecdsa rng sha socket bound listens (waiting ++ (stops race ∷ [])))
            new_service)
          ((begun.1 ++ rest.1) ++ (destroy_service none_accepted rest.0).0)
          ((begun.2 ++ rest.2) ++ (destroy_service none_accepted rest.0).1)
    whole_run =
        released (whole_life ecdsa rng sha socket bound listens (waiting ++ (stops race ∷ [])))
          rest.0 (begun.1 ++ rest.1) (begun.2 ++ rest.2) (unfold live happen in refl)
          (omega (arith, quiet, start_count-append waiting (stops race ∷ [])))

-- The sockets that the program drops.
abbrev pub dropped_by_program :
    Option ℕ → Option ℕ → Option ℕ → Option ℕ → Bool → Bool → List Happening → Race → List ℕ
dropped_by_program ecdsa rng sha socket bound listens waiting race =
    if (start none_accepted ecdsa rng sha socket bound listens new_service).0
    then dropped (whole_life ecdsa rng sha socket bound listens (waiting ++ (stops race ∷ [])))
        new_service
    else dropped (whole_life ecdsa rng sha socket bound listens []) new_service

program_calm :
    (started : Bool) (xs ys : List ℕ) → xs ≡ [] → ys ≡ [] → (if started then xs else ys) ≡ []
program_calm true xs ys e e' = e
program_calm false xs ys e e' = e'

race_total-append : (xs ys : List Happening) → race_total (xs ++ ys) ≡ race_total xs + race_total ys
race_total-append [] ys = omega arith
race_total-append (x ∷ xs) ys = omega (arith, race_total-append xs ys)

-- The program of the agent ends with every algorithm provider closed exactly as often as it was
-- opened, with every hash object destroyed, and with every socket closed exactly as often as it was
-- opened except for those that are dropped where a Close meets a returning accept, of which there are
-- none if no Close does: whether it could start or not, and whatever happens while it waits, where no
-- one calls Start again.
pub main_program-AllReleased :
    (ecdsa rng sha socket : Option ℕ) (bound listens : Bool) (waiting : List Happening)
    (race : Race)
    → start_count waiting ≡ 0
    → let (code, sockets, handles) = main_program ecdsa rng sha socket bound listens waiting race in
      let gone = dropped_by_program ecdsa rng sha socket bound listens waiting race in
      AllReleased gone sockets handles × (race_total waiting + race_count race ≡ 0 → gone ≡ [])
unfolding main_program
main_program-AllReleased ecdsa rng sha socket bound listens waiting race quiet = (
  either_end (start none_accepted ecdsa rng sha socket bound listens new_service).0 _ _ _ _
      (whole_run ecdsa rng sha socket bound listens waiting race quiet)
      (failed_start ecdsa rng sha socket bound listens),
  λ calm.
      program_calm (start none_accepted ecdsa rng sha socket bound listens new_service).0 _ _
        (calm_life (whole_life ecdsa rng sha socket bound listens (waiting ++ (stops race ∷ [])))
          new_service (omega (arith, calm, race_total-append waiting (stops race ∷ []))) new_Ready)
        (calm_life (whole_life ecdsa rng sha socket bound listens []) new_service (omega arith)
          new_Ready),
)
  where
    new_Ready : Ready new_service.transport
    new_Ready = record { no_client = λ e. cc; has_client = λ e. cc }
