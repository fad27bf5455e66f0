-- ===== src/Json.antt =====
-- serde_json's `Value`, as far as the crate uses it: look-ups, insertion into and removal from an
-- object, and equality. An object is a `BTreeMap`, so it is kept sorted by its keys.
use anp_identity.Prelude.{
  Bool, Eq, List, Option, [], ap, arith, eq_iff, false, if◌then◌else◌, list_eq, ltb, nat_eq, none,
  not, option_eq, pair_eq, refl, some, true, ℕ, ◌&&◌, ◌==◌, ◌||◌, ◌↔◌, ◌∷◌, ◌≡◌,
}
use anp_identity.Text.{Text}

mutual
  pub data Value : Type 0 where
    null : Value
    bool : Bool → Value
    number : ℕ → Value
    string : Text → Value
    array : Items → Value
    object : Fields → Value

  pub data Items : Type 0 where
    nil : Items
    cons : Value → Items → Items

  pub data Fields : Type 0 where
    end : Fields
    field : Text → Value → Fields → Fields

-- The order of keys: by code point, which is the order of the UTF-8 bytes.
unfoldable pub text_lt : Text → Text → Bool
text_lt [] [] = false
text_lt [] (d ∷ t) = true
text_lt (c ∷ s) [] = false
text_lt (c ∷ s) (d ∷ t) = ltb c d || (c == d && text_lt s t)

unfoldable pub get_field : Text → Fields → Option Value
get_field k end = none
get_field k (field j v m) = if j == k then some v else get_field k m

-- `Map::insert` and `Map::remove`.
unfoldable pub insert_field : Text → Value → Fields → Fields
insert_field k v end = field k v end
insert_field k v (field j w m) =
    if k == j
    then field k v m
    else if text_lt k j
    then field k v (field j w m)
    else field j w (insert_field k v m)

unfoldable pub remove_field : Text → Fields → Fields
remove_field k end = end
remove_field k (field j w m) =
    let rest = remove_field k m in if k == j then rest else field j w rest

-- The `json!` literal of an object.
unfoldable pub object_of : List (Text × Value) → Fields
unfolding insert_field text_lt
object_of [] = end
object_of ((k, v) ∷ rest) = insert_field k v (object_of rest)

-- `Value::get`, `as_str`, `as_object` and `as_array`.
abbrev pub get : Value → Text → Option Value
get (object m) k = get_field k m
get _ k = none

abbrev pub as_str : Value → Option Text
as_str (string s) = some s
as_str _ = none

abbrev pub as_object : Value → Option Fields
as_object (object m) = some m
as_object _ = none

abbrev pub items : Items → List Value
items nil = []
items (cons v vs) = v ∷ items vs

abbrev pub as_array : Value → Option (List Value)
as_array (array vs) = some (items vs)
as_array _ = none

-- `document.get(k).and_then(Value::as_str)`.
abbrev pub str_of : Option Value → Option Text
str_of none = none
str_of (some v) = as_str v

abbrev pub get_str : Value → Text → Option Text
get_str v k = str_of (get v k)

unfoldable mutual
  pub value_beq : Value → Value → Bool
  value_beq null null = true
  value_beq (bool true) (bool b) = b
  value_beq (bool false) (bool b) = not b
  value_beq (number n) (number m) = n == m
  value_beq (string s) (string t) = s == t
  value_beq (array xs) (array ys) = items_beq xs ys
  value_beq (object xs) (object ys) = fields_beq xs ys
  value_beq _ _ = false

  pub items_beq : Items → Items → Bool
  items_beq nil nil = true
  items_beq (cons x xs) (cons y ys) = value_beq x y && items_beq xs ys
  items_beq _ _ = false

  pub fields_beq : Fields → Fields → Bool
  fields_beq end end = true
  fields_beq (field j x xs) (field k y ys) = j == k && (value_beq x y && fields_beq xs ys)
  fields_beq _ _ = false

and_iff :
    {P Q R : Type 0} (a b : Bool)
    → (a ≡ true) ↔ P
    → (b ≡ true) ↔ Q
    → (P × Q) ↔ R
    → ((a && b) ≡ true) ↔ R
and_iff true true p q r = (λ _. r.0 (p.0 refl, q.0 refl), λ _. refl)
and_iff true false p q r = (λ h. cc, λ t. q.1 (r.1 t).1)
and_iff false b p q r = (λ h. cc, λ t. p.1 (r.1 t).0)

mutual
  unfolding value_beq items_beq fields_beq

  value_beq_sound : (x y : Value) → (value_beq x y ≡ true) ↔ (x ≡ y)
  value_beq_sound null null = (λ _. refl, λ _. refl)
  value_beq_sound (bool true) (bool b) = ground arith
  value_beq_sound (bool false) (bool b) = ground arith
  value_beq_sound (number n) (number m) =
      (λ h. ap number ((eq_iff n m).0 h), λ p. (eq_iff n m).1 (cc))
  value_beq_sound (string s) (string t) =
      (λ h. ap string ((eq_iff s t).0 h), λ p. (eq_iff s t).1 (cc))
  value_beq_sound (array xs) (array ys) =
      (λ h. ap array ((items_beq_sound xs ys).0 h), λ p. (items_beq_sound xs ys).1 (cc))
  value_beq_sound (object xs) (object ys) =
      (λ h. ap object ((fields_beq_sound xs ys).0 h), λ p. (fields_beq_sound xs ys).1 (cc))
  value_beq_sound _ _ = (λ h. cc, λ h. cc)

  items_beq_sound : (x y : Items) → (items_beq x y ≡ true) ↔ (x ≡ y)
  items_beq_sound nil nil = (λ _. refl, λ _. refl)
  items_beq_sound (cons x xs) (cons y ys) =
      and_iff _ _ (value_beq_sound x y) (items_beq_sound xs ys) (λ h. cc (h.0, h.1), λ p. (cc, cc))
  items_beq_sound _ _ = (λ h. cc, λ h. cc)

  fields_beq_sound : (x y : Fields) → (fields_beq x y ≡ true) ↔ (x ≡ y)
  fields_beq_sound end end = (λ _. refl, λ _. refl)
  fields_beq_sound (field j x xs) (field k y ys) =
      and_iff _ _ (eq_iff j k)
        (and_iff _ _ (value_beq_sound x y) (fields_beq_sound xs ys) (λ h. h, λ h. h))
        (λ h. cc (h.0, h.1.0, h.1.1), λ p. (cc, (cc, cc)))
  fields_beq_sound _ _ = (λ h. cc, λ h. cc)

pub value_beq_iff : (x y : Value) → (value_beq x y ≡ true) ↔ (x ≡ y)
value_beq_iff = value_beq_sound

instance abbrev pub value_eq : Eq Value
value_eq = record { beq = value_beq; beq_iff = value_beq_iff }
