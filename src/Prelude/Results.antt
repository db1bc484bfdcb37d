-- ===== src/Prelude/Results.antt =====
-- Results of fallible code. `fault` is a read outside a buffer, which C++ leaves undefined.
use Prim.Native.Nat.{ℕ, ◌+◌, ◌≤◌, ◌<◌}
use mathlib.Core.Path.{◌≡◌, refl}
use mathlib.Core.Bool.{Bool, true, false}
use mathlib.Core.List.{List, ◌∷◌, ◌++◌}
use mathlib.Core.Logic.{◌≢◌, ◌⊎◌, inl, inr}
use mathlib.Core.Option.{Option, none, some}
use native.Mathlib.Omega.{arith}
use phonekey.Prelude.Tests.{leb, if◌then◌else◌}
use phonekey.Prelude.Lists.{
  length, get_elem?, take, drop, take-append, drop-append, get_elem?_total, get_elem?-append_right,
  length-append, length-take, length-drop,
}

pub data Result {ℓ} (E A : Type ℓ) : Type ℓ where
  ok : A → Result E A
  err : E → Result E A
  fault : Result E A

infixl 5 ◌>>=◌ ◌>>◌
abbrev pub ◌>>=◌ {ℓ} : {E A B : Type ℓ} → Result E A → (A → Result E B) → Result E B
fault >>= next = fault
err code >>= next = err code
ok value >>= next = next value

abbrev pub ◌>>◌ {ℓ} : {E B : Type ℓ} → Result E (Unit {ℓ}) → Result E B → Result E B
m >> k = m >>= λ _. k

-- `if (test) return error;`
abbrev pub fail_if {ℓ} : {E : Type ℓ} → Bool → E → Result E (Unit {ℓ})
fail_if true e = err e
fail_if false e = ok tt

abbrev pub or_fault {ℓ} : {E A : Type ℓ} → Option A → Result E A
or_fault none = fault
or_fault (some a) = ok a

module _ {E : Type 0} where
  -- `data[i]`
  unfoldable pub read : List ℕ → ℕ → Result E ℕ
  read xs i = or_fault (get_elem? xs i)

  -- The `n` elements from `i` on, as `std::memcpy` and `assign` read them.
  unfoldable pub read_bytes : List ℕ → ℕ → ℕ → Result E (List ℕ)
  read_bytes xs i n = if leb (i + n) (length xs) then ok (take n (drop i xs)) else fault

  -- A read behind `front` is a read of what follows it.
  pub read-append :
      (front back : List ℕ) (n k b : ℕ)
      → length front ≡ n
      → get_elem? back k ≡ some b
      → read (front ++ back) (n + k) ≡ ok b
  unfolding read
  read-append front back n k b h e = ground (arith, get_elem?-append_right front back n k)

  pub read-append_head :
      (front back : List ℕ) (n b : ℕ) → length front ≡ n → read (front ++ (b ∷ back)) n ≡ ok b
  read-append_head front back n b h =
      let e : n + 0 ≡ n = omega arith in rw e at (read-append front (b ∷ back) n 0 b h refl)

  pub read_total : (xs : List ℕ) (i : ℕ) → i < length xs → (b : ℕ) × (read xs i ≡ ok b)
  unfolding read
  read_total xs i h = let (b, e) = get_elem?_total xs i h in (b, ground arith)

  pub read_bytes-append :
      (front middle back : List ℕ) (i n : ℕ)
      → length front ≡ i
      → length middle ≡ n
      → read_bytes (front ++ (middle ++ back)) i n ≡ ok middle
  unfolding read_bytes
  read_bytes-append front middle back i n hf hm = ground (
    arith,
    drop-append i front (middle ++ back),
    take-append n middle back,
    length-append front (middle ++ back),
    length-append middle back,
  )

  pub read_bytes_total :
      (xs : List ℕ) (i n : ℕ) → i + n ≤ length xs → read_bytes xs i n ≡ ok (take n (drop i xs))
  unfolding read_bytes
  read_bytes_total xs i n h = ground arith

-- A chain of steps reads nothing out of bounds if each step does not.
pub >>=-ne-fault {ℓ} :
    {E A B : Type ℓ} (m : Result E A) (f : A → Result E B)
    → (a : A) × (m ≡ ok a)
    → ((a : A) → f a ≢ fault)
    → (m >>= f) ≢ fault
>>=-ne-fault m f (a, e) h = rw e (h a)

pub fail_if-ne-fault {ℓ} :
    {E B : Type ℓ} (test : Bool) (e : E) (k : Result E B)
    → k ≢ fault
    → (fail_if test e >> k) ≢ fault
fail_if-ne-fault true e k h = λ p. cc
fail_if-ne-fault false e k h = h

pub ok-ne-fault {ℓ} : {E A : Type ℓ} (a : A) → ◌≢◌ {A = Result E A} (ok a) fault
ok-ne-fault a e = cc

pub err-ne-fault {ℓ} : {E A : Type ℓ} (x : E) → ◌≢◌ {A = Result E A} (err x) fault
err-ne-fault x e = cc

-- What a successful read returned.
module _ {E : Type 0} where
  pub read_bytes-ok :
      (xs : List ℕ) (i n : ℕ) {ys : List ℕ}
      → read_bytes {E = E} xs i n ≡ ok ys
      → (i + n ≤ length xs) × (ys ≡ take n (drop i xs)) × (length ys ≡ n)
  unfolding read_bytes
  read_bytes-ok xs i n e = ground (arith, length-take n (drop i xs), length-drop i xs)

-- Inversion of a chain that succeeds.
pub >>=-eq-ok {ℓ} :
    {E A B : Type ℓ} (first : Result E A) (then' : A → Result E B) {answer : B}
    → (first >>= then') ≡ ok answer
    → (value : A) × (first ≡ ok value) × (then' value ≡ ok answer)
>>=-eq-ok fault then' e = cc
>>=-eq-ok (err code) then' e = cc
>>=-eq-ok (ok value) then' e = (value, refl, e)

pub fail_if-eq-ok {ℓ} :
    {E B : Type ℓ} (test : Bool) (e : E) (k : Result E B) {b : B}
    → (fail_if test e >> k) ≡ ok b
    → (test ≡ false) × (k ≡ ok b)
fail_if-eq-ok true e k h = cc
fail_if-eq-ok false e k h = (refl, h)

pub ok_injective {ℓ} : {E A : Type ℓ} {a b : A} → ◌≡◌ {A = Result E A} (ok a) (ok b) → a ≡ b
ok_injective e = cc

pub Result-cases {ℓ} :
    {E A : Type ℓ} (r : Result E A)
    → ((a : A) × (r ≡ ok a)) ⊎ (((e : E) × (r ≡ err e)) ⊎ (r ≡ fault))
Result-cases (ok a) = inl (a, refl)
Result-cases (err e) = inr (inl (e, refl))
Result-cases fault = inr (inr refl)

-- A chain does not fail with an error that none of its steps fails with.
pub >>=-ne-err {ℓ} :
    {E A B : Type ℓ} (m : Result E A) (f : A → Result E B) (e : E)
    → m ≢ err e
    → ((a : A) → f a ≢ err e)
    → (m >>= f) ≢ err e
>>=-ne-err (ok a) f e hm hf = hf a
>>=-ne-err (err x) f e hm hf = λ p. hm (cc)
>>=-ne-err fault f e hm hf = λ p. cc

pub fail_if-ne-err {ℓ} :
    {E B : Type ℓ} (test : Bool) (x e : E) (k : Result E B)
    → x ≢ e
    → k ≢ err e
    → (fail_if test x >> k) ≢ err e
fail_if-ne-err true x e k hx hk = λ p. hx cc
fail_if-ne-err false x e k hx hk = hk

module _ {E : Type 0} where
  pub read-ne-err : (xs : List ℕ) (i : ℕ) (e : E) → read {E = E} xs i ≢ err e
  unfolding read
  read-ne-err xs i e = ground arith

  pub read_bytes-ne-err : (xs : List ℕ) (i n : ℕ) (e : E) → read_bytes {E = E} xs i n ≢ err e
  unfolding read_bytes
  read_bytes-ne-err xs i n e = ground arith

-- The same with what is known of each step's result.
pub >>=-ne-fault_known {ℓ} :
    {E A B : Type ℓ} (m : Result E A) (f : A → Result E B)
    → m ≢ fault
    → ((a : A) → m ≡ ok a → f a ≢ fault)
    → (m >>= f) ≢ fault
>>=-ne-fault_known fault f hm hf = absurd (hm refl)
>>=-ne-fault_known (err code) f hm hf = λ p. cc
>>=-ne-fault_known (ok value) f hm hf = hf value refl
