-- ===== src/Result.antt =====
-- Go's pair of a value and an `error`, for a function that returns one or the other.
use pebble_db.Prelude.{
  ◌⊎◌, inl, inr, ◌≡◌, refl, Bool, true, false, Option, none, some, if◌then◌else◌,
}

pub data Result (E A : Type 0) : Type 0 where
  ok : A → Result E A
  err : E → Result E A

-- `if !condition { return err }`
abbrev pub ensure : {E : Type 0} → Bool → E → Result E (Unit {0})
ensure condition e = if condition then ok tt else err e

pub Result-cases :
    {E A : Type 0} (r : Result E A) → ((e : E) × (r ≡ err e)) ⊎ ((a : A) × (r ≡ ok a))
Result-cases (err e) = inl (e, refl)
Result-cases (ok a) = inr (a, refl)

infixl 5 ◌>>=◌
abbrev pub ◌>>=◌ : {E A B : Type 0} → Result E A → (A → Result E B) → Result E B
err failure >>= next = err failure
ok value >>= next = next value

infixl 5 ◌>>◌
abbrev pub ◌>>◌ : {E B : Type 0} → Result E (Unit {0}) → Result E B → Result E B
first >> second = first >>= (λ (done : Unit {0}). second)

pub >>=-eq-ok :
    {E A B : Type 0} (first : Result E A) (next : A → Result E B) {final : B}
    → (first >>= next) ≡ ok final
    → (value : A) × (first ≡ ok value) × (next value ≡ ok final)
>>=-eq-ok (err failure) next ends = cc
>>=-eq-ok (ok value) next ends = (value, refl, ends)

pub ensure-eq-ok : {E : Type 0} (b : Bool) (e : E) {u : Unit {0}} → ensure b e ≡ ok u → b ≡ true
ensure-eq-ok true e h = refl
ensure-eq-ok false e h = cc

-- A step that changes a state and may fail, and one that follows it where it did not.
unfoldable pub on_success :
    {S S' E : Type 0} → S × Option E → (S → S' × Option E) → (S → S') → S' × Option E
on_success (s, some e) next stop = (stop s, some e)
on_success (s, none) next stop = next s

pub on_success-eq :
    {S S' E : Type 0} (p : S × Option E) (next : S → S' × Option E) (stop : S → S') {t : S'}
    → on_success p next stop ≡ (t, none)
    → (s : S) × (p ≡ (s, none)) × (next s ≡ (t, none))
unfolding on_success
on_success-eq (s, none) next stop h = (s, refl, h)
on_success-eq (s, some e) next stop h = cc
