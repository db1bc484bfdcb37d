-- ===== src/Session/Once.antt =====
-- How often a session is used in a part of a connection, and in one part after the other.
use phonekey.Prelude.{
  ℕ, zero, suc, ◌⊎◌, ◌+◌, ◌≤◌, ◌≡◌, refl, arith, subst, ◌&&◌, List, [], ◌∷◌, ◌++◌, none, some, inl,
  inr, if◌then◌else◌, some_injective,
}
use phonekey.Challenge.SingleUse.{IsUsed}
use phonekey.Agent.Spent.{names, is_grant}
use phonekey.Session.{Session, Exchange, Served, go_on}

-- How many exchanges answer a frame for the session by UNLOCK_RESP.
abbrev pub unlocks : List ℕ → List Exchange → ℕ
unlocks key [] = 0
unlocks key ((frame, sents) ∷ more) =
    (if names key frame && is_grant sents then 1 else 0) + unlocks key more

abbrev pub Used : List ℕ → Session → Type 0
Used key session = IsUsed key session.agent.challenge_store

-- A served connection uses the session at most once, and not at all if it is used already.
pub record Once (key : List ℕ) (start : Session) (served : Served) : Type 0 where
  pub none_if_used : Used key start → unlocks key served.0 ≡ 0
  pub at_most_one : unlocks key served.0 ≤ 1
  pub stays_used : (end : Session) → served.2 ≡ some end → Used key start → Used key end
  pub one_uses : (end : Session) → served.2 ≡ some end → unlocks key served.0 ≡ 1 → Used key end

unlocks-append :
    (key : List ℕ) (xs ys : List Exchange)
    → unlocks key (xs ++ ys) ≡ unlocks key xs + unlocks key ys
unlocks-append key [] ys = omega arith
unlocks-append key ((frame, sents) ∷ xs) ys = omega (arith, unlocks-append key xs ys)

pub nothing-Once :
    (key : List ℕ) (start end : Session)
    → (Used key start → Used key end)
    → Once key start ([], [], some end)
nothing-Once key start end h = record {
  none_if_used = λ used. refl;
  at_most_one = omega arith;
  stays_used = λ last e used. subst (Used key) (some_injective e) (h used);
  one_uses = λ last e one. absurd (omega (arith, one));
}

pub broken-Once : (key : List ℕ) (start : Session) → Once key start ([], [], none)
broken-Once key start = record {
  none_if_used = λ used. refl;
  at_most_one = omega arith;
  stays_used = λ last e used. cc;
  one_uses = λ last e one. cc;
}

zero_or_more : (n : ℕ) → (n ≡ 0) ⊎ (1 ≤ n)
zero_or_more zero = inl refl
zero_or_more (suc n) = inr (omega arith)

-- One use after the other: either there is none so far, or there is none later.
pub go_on-Once :
    (key : List ℕ) (start : Session) (heard : Served) (next : Session → Served)
    → Once key start heard
    → ((middle : Session) → Once key middle (next middle))
    → Once key start (go_on heard next)
go_on-Once key start (exchanges, sent, none) next h k = h
go_on-Once key start (exchanges, sent, some middle) next h k =
    let rest = k middle in
    let sum = unlocks-append key exchanges (next middle).0 in
    let first_at_most = h.at_most_one in
    let rest_at_most = rest.at_most_one in
    let after_one : unlocks key exchanges ≡ 1 → unlocks key (next middle).0 ≡ 0 =
      λ one. rest.none_if_used (h.one_uses middle refl one) in
    record {
      none_if_used = λ used.
          let none_now = h.none_if_used used in
          let none_later = rest.none_if_used (h.stays_used middle refl used) in omega arith;
      at_most_one = ground (arith, after_one);
      stays_used = λ end e used. rest.stays_used end e (h.stays_used middle refl used);
      one_uses = λ end e one. split end e one;
    }
  where
    split :
        (end : Session)
        → (next middle).2 ≡ some end
        → unlocks key (exchanges ++ (next middle).0) ≡ 1
        → Used key end
    split end e one = elim (zero_or_more (unlocks key exchanges)) [
      | inl nothing ↦
          (k middle).one_uses end e
            (omega (arith, nothing, one, unlocks-append key exchanges (next middle).0))
      | inr something ↦
          (k middle).stays_used end e
            (h.one_uses middle refl (omega (arith, something, h.at_most_one)))
    ]
