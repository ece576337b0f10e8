-- ===== src/Protocol/Flags.antt =====
-- The interface of lowbit.dev/netargv that contract/proto_message.go reads messages by, what it
-- promises, and the readings of one flag.
use workforce.Prelude.{
  String, Bool, Option, none, some, List, [], ◌∷◌, ◌≡◌, if◌then◌else◌, ◌==◌, string_eq, is_some,
}
use workforce.Prelude.Int.{ℤ}
use workforce.Prelude.Dict.{Dict, lookup}
use workforce.Protocol.Numbers.{atoi}

-- The flags of a line in order, a flag without a value with an empty one.
abbrev pub Flags : Type 0
Flags = Dict String String

-- `FlagSet` with `Lookup`, `Get`, `Has` and `GetRepeated`; `read` is the set of a line's flags.
pub record Netargv : Type 1 where
  pub FlagSet : Type 0
  pub find : FlagSet → String → Option String
  pub get : FlagSet → String → String
  pub has : FlagSet → String → Bool
  pub get_repeated : FlagSet → String → List String
  pub read : Flags → FlagSet

abbrev pub or_empty : Option String → String
or_empty none = ""
or_empty (some v) = v

-- The values of the flags of a name.
abbrev pub values : String → Flags → List String
values name [] = []
values name ((n, v) ∷ fs) = if n == name then v ∷ values name fs else values name fs

-- What a set says of the line that it was read from: the first value of a flag, or all.
pub record IsReading (N : Netargv) : Type 0 where
  pub find-read : (fs : Flags) (name : String) → N.find (N.read fs) name ≡ lookup name fs
  pub get-read : (fs : Flags) (name : String) → N.get (N.read fs) name ≡ or_empty (lookup name fs)
  pub has-read : (fs : Flags) (name : String) → N.has (N.read fs) name ≡ is_some (lookup name fs)
  pub get_repeated-read :
      (fs : Flags) (name : String) → N.get_repeated (N.read fs) name ≡ values name fs

-- The errors of the factories, by the flag or the payload that they name.
pub data FlagError : Type 0 where
  missing malformed invalid : String → FlagError
  no_payload bad_payload no_jobs unknown_kind : FlagError

pub data Result {ℓ} (A : Type ℓ) : Type ℓ where
  ok : A → Result A
  err : FlagError → Result A

infixl 5 ◌>>=◌
abbrev pub ◌>>=◌ {ℓ κ} : {A : Type ℓ} {B : Type κ} → Result A → (A → Result B) → Result B
ok a >>= f = f a
err e >>= f = err e

abbrev pub of_option {ℓ} : {A : Type ℓ} → FlagError → Option A → Result A
of_option e none = err e
of_option e (some a) = ok a

module _ (N : Netargv) where
  unfoldable pub require_flag : N.FlagSet → String → Result String
  require_flag flags name = elim (N.find flags name) [
    | none ↦ err (missing name)
    | some v ↦ if v == "" then err (missing name) else ok v
  ]

  unfoldable pub require_int : N.FlagSet → String → Result ℤ
  require_int flags name = require_flag flags name >>= λ s. of_option (malformed name) (atoi s)

  -- A flag that may be missing: a number, which has to be well formed where the flag is given.
  abbrev optional {ℓ} :
      {A : Type ℓ} → (String → Option A) → String → Result String → Option (Result A)
  optional parse name (err e) = none
  optional parse name (ok s) = some (of_option (malformed name) (parse s))

  unfoldable pub optional_int : N.FlagSet → String → Option (Result ℤ)
  optional_int flags name = optional atoi name (require_flag flags name)

  module _ {Float : Type 0} (parse_float : String → Option Float) where
    unfoldable pub require_float : N.FlagSet → String → Result Float
    require_float flags name =
        require_flag flags name >>= λ s. of_option (malformed name) (parse_float s)

    unfoldable pub optional_float : N.FlagSet → String → Option (Result Float)
    optional_float flags name = optional parse_float name (require_flag flags name)
