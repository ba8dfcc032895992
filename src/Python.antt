-- ===== src/Python.antt =====
-- What the modelled code takes from the Python runtime: values of a JSON-like `dict[str, Any]`,
-- exceptions, and the runtime's text functions, which rest on its Unicode tables.
use realityai_agents.Prelude.{
  ℕ, String, Bool, true, false, none, some, List, [], ◌∷◌, ◌==◌, if◌then◌else◌, contains, lookup,
  decimal, join, ◌+++◌, map, not, eqb, is_empty, ◌||◌, ◌≡◌, ◌↔◌, ◌⊎◌, inl, inr, refl, arith,
}

-- The Unicode tables of the interpreter, as the functions of `re`, `str` and `repr` that use them.
pub record Runtime : Type 0 where
  pub is_digit : ℕ → Bool  -- `\d`
  pub is_space : ℕ → Bool  -- what `str.strip` removes
  pub strip : String → String  -- `str.strip`
  pub lower : String → String  -- `str.lower`
  pub repr : String → String  -- `repr` of a text

-- `number` holds a number that is no natural one by its text, `nested` a list or dict by its text.
pub data Value : Type 0 where
  null : Value
  flag : Bool → Value
  num : ℕ → Value
  number : String → Value
  str : String → Value
  strings : List String → Value
  nested : String → Value

pub data Exn : Type 0 where
  key_error value_error type_error timeout_error attribute_error rpc_error other_error :
      String → Exn

pub data Py {ℓ} (A : Type ℓ) : Type ℓ where
  ok : A → Py A
  raise : Exn → Py A

-- Exceptions leave a chain at once.
infixl 5 ◌>>=◌
abbrev pub ◌>>=◌ {ℓ κ} : {X : Type ℓ} {Y : Type κ} → Py X → (X → Py Y) → Py Y
raise e >>= next = raise e
ok x >>= next = next x

abbrev pub Args : Type 0
Args = List (String × Value)

-- `args[k]`
abbrev pub item : Args → String → Py Value
item args k = elim (lookup k args) [ none ↦ raise (key_error k) | some v ↦ ok v ]

-- `v == s`, for a text `s`
abbrev pub value_eq : Value → String → Bool
value_eq (str t) s = t == s
value_eq _ s = false

abbrev pub is_hashable : Value → Bool
is_hashable (strings l) = false
is_hashable (nested t) = false
is_hashable _ = true

-- `v in texts`, for a set of texts: a value that cannot be hashed raises.
abbrev pub in_set : Value → List String → Py Bool
in_set (str s) texts = ok (contains s texts)
in_set (strings l) texts = raise (type_error "unhashable type: 'list'")
in_set (nested t) texts = raise (type_error "unhashable type")
in_set _ texts = ok false

-- `bool(v)`
abbrev pub truthy : Value → Bool
truthy null = false
truthy (flag b) = b
truthy (num n) = not (eqb n 0)
truthy (number t) = not (t == "0.0" || t == "-0.0")
truthy (str s) = not (s == "")
truthy (strings l) = not (is_empty l)
truthy (nested t) = not (t == "[]" || t == "{}")

-- `d.get(k, default)`
abbrev pub get_or : Args → String → Value → Value
get_or d k default = elim (lookup k d) [ none ↦ default | some v ↦ v ]

-- `{**d, k: v}`
abbrev pub put : Args → String → Value → Args
put [] k v = (k, v) ∷ []
put ((j, w) ∷ d) k v = let rest = put d k v in if j == k then (j, v) ∷ d else (j, w) ∷ rest

module _ (rt : Runtime) where
  -- `str(list)` of a list of texts
  abbrev pub list_text : List String → String
  list_text l = "[" +++ (join ", " (map rt.repr l) +++ "]")

  -- `str(v)`
  unfoldable pub str_of : Value → String
  str_of null = "None"
  str_of (flag true) = "True"
  str_of (flag false) = "False"
  str_of (num n) = decimal n
  str_of (number t) = t
  str_of (str s) = s
  str_of (strings l) = list_text l
  str_of (nested t) = t

  -- `repr(v)`
  unfoldable pub repr_of : Value → String
  unfolding str_of
  repr_of (str s) = rt.repr s
  repr_of v = str_of v

  -- `str(e)`: that of a `KeyError` is the `repr` of its key.
  unfoldable pub exn_text : Exn → String
  exn_text (key_error k) = rt.repr k
  exn_text (value_error m) = m
  exn_text (type_error m) = m
  exn_text (timeout_error m) = m
  exn_text (attribute_error m) = m
  exn_text (rpc_error m) = m
  exn_text (other_error m) = m

-- What a chain that succeeds has gone through.
pub >>=-ok {ℓ κ} :
    {X : Type ℓ} {Y : Type κ} (first : Py X) (next : X → Py Y) {y : Y}
    → first >>= next ≡ ok y
    → (x : X) × (first ≡ ok x) × (next x ≡ ok y)
>>=-ok (raise e) next reached = cc
>>=-ok (ok x) next reached = (x, refl, reached)

pub item-eq-ok :
    (args : Args) (k : String) {v : Value} → item args k ≡ ok v → lookup k args ≡ some v
item-eq-ok args k h = ground arith

pub item_of_lookup :
    (args : Args) (k : String) {v : Value} → lookup k args ≡ some v → item args k ≡ ok v
item_of_lookup args k h = ground arith

pub ok_inj {ℓ} : {A : Type ℓ} {a b : A} → Path (Py A) (ok a) (ok b) → a ≡ b
ok_inj e = cc

abbrev pub Raises {ℓ} : {A : Type ℓ} → Py A → Type ℓ
Raises m = (e : Exn) × (m ≡ raise e)

pub not-Raises-ok {ℓ} : {A : Type ℓ} (a : A) → ¬ Raises (ok a)
not-Raises-ok a (x, e) = cc

-- What follows does not raise, so the chain raises exactly where its first step does.
pub bind-Raises_iff {ℓ κ} :
    {A : Type ℓ} {B : Type κ} (m : Py A) (f : A → Py B)
    → ((a : A) → ¬ Raises (f a))
    → Raises (m >>= f) ↔ Raises m
bind-Raises_iff (ok a) f total = (λ h. absurd (total a h), λ h. absurd (not-Raises-ok a h))
bind-Raises_iff (raise x) f total = (λ h. (x, refl), λ h. (x, refl))

pub Py-cases {ℓ} : {A : Type ℓ} (m : Py A) → ((a : A) × (m ≡ ok a)) ⊎ ((e : Exn) × (m ≡ raise e))
Py-cases (ok a) = inl (a, refl)
Py-cases (raise e) = inr (e, refl)
