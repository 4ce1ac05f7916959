-- ===== src/Poco.antt =====
-- What the program calls of the Poco libraries and cannot be read here: exceptions as results, and the
-- JSON parser as a record of functions.
use door_switch_svr.Prelude.{◌≡◌, refl, ◌⊎◌, inl, inr}
use door_switch_svr.Prelude.Int.{ℤ}
use door_switch_svr.Param.{Text}

-- A call that returns, or throws a `Poco::Exception` with its display text.
pub data Result {ℓ} (A : Type ℓ) : Type ℓ where
  ok : A → Result A
  thrown : Text → Result A

infixl 5 ◌>>=◌
abbrev pub ◌>>=◌ {ℓ κ} : {A : Type ℓ} {B : Type κ} → Result A → (A → Result B) → Result B
ok a >>= f = f a
thrown e >>= f = thrown e

pub Result-cases :
    {A : Type 0} (r : Result A) → ((e : Text) × (r ≡ thrown e)) ⊎ ((a : A) × (r ≡ ok a))
Result-cases (ok a) = inr (a, refl)
Result-cases (thrown e) = inl (e, refl)

-- `Poco::JSON::Parser::parse`, `extract<Object::Ptr>`, `getValue<std::string>`, `getValue<int>`.
pub record Json : Type 1 where
  pub Value : Type 0
  pub Object : Type 0
  pub parse : Text → Result Value
  pub extract : Value → Result Object
  pub get_string : Object → Text → Result Text
  pub get_int : Object → Text → Result ℤ

-- `Poco::JSON::Object`: `new Object()`, `set(key, value)`, `stringify`.
pub record JsonWriter (json : Json) : Type 0 where
  pub empty : json.Object
  pub set_string : Text → Text → json.Object → json.Object
  pub set_int : Text → ℤ → json.Object → json.Object
  pub stringify : json.Object → Text
