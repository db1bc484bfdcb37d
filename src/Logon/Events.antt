-- ===== src/Logon/Events.antt =====
-- The references to the event objects, over the calls of the logon screen.
use phonekey.Prelude.{ℕ, ◌+◌, ◌≡◌, refl, ap, arith, List, [], ◌∷◌, ◌++◌, Option, none, some}
use phonekey.Prelude.Counting.{one, occurrences, occurrences-append}
use phonekey.Logon.Tile.{
  EventEffect, reference_added, reference_released, Provider, add_reference, release_reference,
  advise, un_advise, credential_advise, credential_un_advise,
}

-- A call of the logon screen: an object and the number that comes with it, or UnAdvise.
pub data EventCall : Type 0 where
  call_advise : Option ℕ → ℕ → EventCall
  call_un_advise : EventCall

unfoldable pub call_events : EventCall → Provider → Provider × List EventEffect
call_events (call_advise events up_ref) p = advise events up_ref p
call_events call_un_advise p = un_advise p

unfoldable pub call_all : List EventCall → Provider → Provider × List EventEffect
call_all [] p = (p, [])
call_all (c ∷ cs) p =
    let (after, effects) = call_events c p in
    let (end, later) = call_all cs after in (end, effects ++ later)

-- The same calls of PhoneKeyCredential.
unfoldable pub call_credential : EventCall → Option ℕ → Option ℕ × List EventEffect
call_credential (call_advise events up_ref) held = credential_advise events held
call_credential call_un_advise held = credential_un_advise held

unfoldable pub call_all_credential : List EventCall → Option ℕ → Option ℕ × List EventEffect
call_all_credential [] held = (held, [])
call_all_credential (c ∷ cs) held =
    let (after, effects) = call_credential c held in
    let (end, later) = call_all_credential cs after in (end, effects ++ later)

-- The objects whose references are added and released, in the order of the calls.
abbrev pub added : List EventEffect → List ℕ
added [] = []
added (reference_added object ∷ effects) = object ∷ added effects
added (reference_released object ∷ effects) = added effects

abbrev pub released : List EventEffect → List ℕ
released [] = []
released (reference_added object ∷ effects) = released effects
released (reference_released object ∷ effects) = object ∷ released effects

-- The objects that a call of Advise finds in place.
abbrev pub overwritten : List EventCall → Option ℕ → List ℕ
overwritten [] held = []
overwritten (call_advise events up_ref ∷ calls) held = one held ++ overwritten calls events
overwritten (call_un_advise ∷ calls) held = overwritten calls none

-- Where the references to an object are: those held and added are those released, held at the end and
-- overwritten.
abbrev pub Balanced : ℕ → Option ℕ → List EventEffect → Option ℕ → List ℕ → Type 0
Balanced object before effects after gone =
    occurrences object (one before) + occurrences object (added effects)
    ≡ occurrences object (released effects)
      + occurrences object (one after)
      + occurrences object gone

module _ (object : ℕ) where
  added-append :
      (xs ys : List EventEffect)
      → occurrences object (added (xs ++ ys))
        ≡ occurrences object (added xs) + occurrences object (added ys)
  added-append [] ys = omega arith
  added-append (reference_added x ∷ xs) ys = omega (arith, added-append xs ys)
  added-append (reference_released x ∷ xs) ys = added-append xs ys

  released-append :
      (xs ys : List EventEffect)
      → occurrences object (released (xs ++ ys))
        ≡ occurrences object (released xs) + occurrences object (released ys)
  released-append [] ys = omega arith
  released-append (reference_added x ∷ xs) ys = released-append xs ys
  released-append (reference_released x ∷ xs) ys = omega (arith, released-append xs ys)

  add_reference-one :
      (o : Option ℕ) → (added (add_reference o) ≡ one o) × (released (add_reference o) ≡ [])
  unfolding add_reference
  add_reference-one none = (refl, refl)
  add_reference-one (some x) = (refl, refl)

  release_reference-one :
      (o : Option ℕ) → (added (release_reference o) ≡ []) × (released (release_reference o) ≡ one o)
  unfolding release_reference
  release_reference-one none = (refl, refl)
  release_reference-one (some x) = (refl, refl)

  provider-Balanced :
      (calls : List EventCall) (p : Provider)
      → Balanced object p.events
          (call_all calls p).1
          (call_all calls p).0.events
          (overwritten calls p.events)
  unfolding call_all call_events advise un_advise
  provider-Balanced [] p = omega arith
  provider-Balanced (call_advise events up_ref ∷ calls) p =
      let after = record p { events = events; up_ref = up_ref } in
      let later = (call_all calls after).1 in
      omega (
        arith,
        added-append (add_reference events) later,
        released-append (add_reference events) later,
        ap (occurrences object) (add_reference-one events).0,
        ap (occurrences object) (add_reference-one events).1,
        occurrences-append object (one p.events) (overwritten calls events),
        provider-Balanced calls after,
      )
  provider-Balanced (call_un_advise ∷ calls) p =
      let after = record p { events = none } in
      let later = (call_all calls after).1 in
      omega (
        arith,
        added-append (release_reference p.events) later,
        released-append (release_reference p.events) later,
        ap (occurrences object) (release_reference-one p.events).0,
        ap (occurrences object) (release_reference-one p.events).1,
        provider-Balanced calls after,
      )

credential_alike :
    (calls : List EventCall) (p : Provider)
    → call_all_credential calls p.events ≡ ((call_all calls p).0.events, (call_all calls p).1)
unfolding call_all call_all_credential call_events call_credential advise un_advise
    credential_advise credential_un_advise
credential_alike [] p = refl
credential_alike (call_advise events up_ref ∷ calls) p =
    ap (λ r. (r.0, add_reference events ++ r.1))
      (credential_alike calls (record p { events = events; up_ref = up_ref }))
credential_alike (call_un_advise ∷ calls) p =
    ap (λ r. (r.0, release_reference p.events ++ r.1))
      (credential_alike calls (record p { events = none }))

-- Over any calls of Advise and UnAdvise, of the provider or of the credential, and for every object:
-- the references to it that are held at the start or added are those that are released, the one that
-- is held at the end, and one for each call of Advise that finds it in place. So none is lost where
-- Advise is called only after UnAdvise.
pub references-Balanced :
    (object : ℕ) (calls : List EventCall) (p : Provider)
    → Balanced object p.events
        (call_all calls p).1
        (call_all calls p).0.events
        (overwritten calls p.events)
      × Balanced object p.events
          (call_all_credential calls p.events).1
          (call_all_credential calls p.events).0
          (overwritten calls p.events)
references-Balanced object calls p = (
  provider-Balanced object calls p,
  rw (credential_alike calls p) (provider-Balanced object calls p),
)
